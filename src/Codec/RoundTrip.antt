-- ===== src/Codec/RoundTrip.antt =====
-- server/protocol/codec.py: what `encode_frame` writes, `decode_frames` reads.
use mini_im.Prelude.{
  ℕ, ◌/◌, ◌%◌, ◌^◌, ◌≤◌, ◌<◌, ◌≡◌, refl, ap, ◌∙◌, Option, none, some, List, [], ◌∷◌, ◌++◌, arith,
  length, length-append, take-length-append, drop-length-append, if◌then◌else◌, leb, ltb, ◌||◌,
}
use mathlib.Core.Option
use mathlib.Core.List.{append_assoc}
use mini_im.Protocol.{Bytes}
use mini_im.Codec.{
  Turn, max_frame_size, pack_size, unpack_size, cut_frame, next_frame, invalid_size, prepend,
  decode_frames, encode_frame,
}
use mini_im.Codec.Resume.{after, cons_parsed, decode_frames-step, prepend_all}

cut_frame-exact :
    (payload c : Bytes)
    → cut_frame (length payload) (payload ++ c) ≡ (
        if leb (length payload) 0 || ltb max_frame_size (length payload)
        then Turn.invalid (length payload)
        else Turn.frame payload c)
unfolding cut_frame
cut_frame-exact payload c =
    ground
      (arith, length-append payload c, take-length-append payload c, drop-length-append payload c)

unpack-pack :
    (n : ℕ)
    → n < 2 ^ 32
    → unpack_size (n / 2 ^ 24) (n / 2 ^ 16 % 256) (n / 2 ^ 8 % 256) (n % 256) ≡ n
unfolding unpack_size
unpack-pack n h = omega arith

abbrev size_bytes : ℕ → Bytes
size_bytes n = n / 2 ^ 24 ∷ n / 2 ^ 16 % 256 ∷ n / 2 ^ 8 % 256 ∷ n % 256 ∷ []

next_frame-size_bytes :
    (payload c : Bytes)
    → length payload < 2 ^ 32
    → next_frame ((size_bytes (length payload) ++ payload) ++ c) ≡ (
        if leb (length payload) 0 || ltb max_frame_size (length payload)
        then Turn.invalid (length payload)
        else Turn.frame payload c)
unfolding next_frame
next_frame-size_bytes payload c h = rw (unpack-pack (length payload) h) (cut_frame-exact payload c)

module _ {Envelope : Type 0} (serialize : Envelope → Bytes) (parse : Bytes → Option Envelope) where
  encode_frame-cases :
      (e : Envelope) (b : Bytes)
      → encode_frame serialize e ≡ some b
      → (length (serialize e) < 2 ^ 32) × (b ≡ size_bytes (length (serialize e)) ++ serialize e)
  unfolding encode_frame pack_size
  encode_frame-cases e b h = ground arith

  decode_frames-encode_frame :
      (e : Envelope) (b c : Bytes)
      → encode_frame serialize e ≡ some b
      → decode_frames parse (b ++ c) ≡ (
          if leb (length (serialize e)) 0 || ltb max_frame_size (length (serialize e))
          then invalid_size (length (serialize e))
          else cons_parsed parse (parse (serialize e)) (decode_frames parse c))
  unfolding after
  decode_frames-encode_frame e b c h =
      let (small, shape) = encode_frame-cases e b h in
      rw (shape, decode_frames-step parse, next_frame-size_bytes (serialize e) c small)
        (ground arith)

  -- `_send` appends the frames of the envelopes to the stream one after another.
  unfoldable pub send_all : List Envelope → Option Bytes
  send_all [] = some []
  send_all (e ∷ es) = elim (encode_frame serialize e) [
    | none ↦ none
    | some b ↦ Option.map (λ rest. b ++ rest) (send_all es)
  ]

  -- The envelope is read back by `parse`, and its payload has a size that `decode_frames` accepts.
  pub record IsSendable (e : Envelope) : Type 0 where
    pub parsed : parse (serialize e) ≡ some e
    pub nonempty : 0 < length (serialize e)
    pub fits : length (serialize e) ≤ max_frame_size

  encode_frame-total :
      (e : Envelope)
      → IsSendable e
      → encode_frame serialize e ≡ some (size_bytes (length (serialize e)) ++ serialize e)
  unfolding encode_frame pack_size
  encode_frame-total e s = ground arith

  decode_frames-sendable :
      (e : Envelope) (b c : Bytes)
      → IsSendable e
      → encode_frame serialize e ≡ some b
      → decode_frames parse (b ++ c) ≡ prepend e (decode_frames parse c)
  unfolding cons_parsed
  decode_frames-sendable e b c s h = ground (arith, decode_frames-encode_frame e b c h)

  abbrev pub AllSendable : List Envelope → Type 0
  AllSendable [] = Unit {0}
  AllSendable (e ∷ es) = IsSendable e × AllSendable es

  -- Envelopes that `parse` reads back and that are neither empty nor over the size limit are framed
  -- without an error, and `decode_frames` reads from the concatenated frames exactly these
  -- envelopes in order and goes on with the bytes behind them.
  pub decode_frames-send_all :
      (es : List Envelope) (c : Bytes)
      → AllSendable es
      → (b : Bytes) × (send_all es ≡ some b)
        × (decode_frames parse (b ++ c) ≡ prepend_all parse es (decode_frames parse c))
  unfolding send_all prepend_all
  decode_frames-send_all [] c h = ([], refl, refl)
  decode_frames-send_all (e ∷ es) c (s, rest) =
      let (bs, sent, read) = decode_frames-send_all es c rest in
      let b = size_bytes (length (serialize e)) ++ serialize e in
      let framed : encode_frame serialize e ≡ some b = encode_frame-total e s in
      (
        b ++ bs,
        ground arith,
        ap (decode_frames parse) (append_assoc b bs c)
            ∙ decode_frames-sendable e b (bs ++ c) s framed
            ∙ ap (prepend e) read,
      )

  -- `encode_frame` has no size limit of its own: a payload over the limit of `decode_frames` that
  -- still fits four bytes is framed, and the receiver refuses the frame whatever follows.
  pub decode_frames-oversize :
      (e : Envelope) (c : Bytes)
      → max_frame_size < length (serialize e)
      → length (serialize e) < 2 ^ 32
      → (b : Bytes) × (encode_frame serialize e ≡ some b)
        × (decode_frames parse (b ++ c) ≡ invalid_size (length (serialize e)))
  unfolding encode_frame pack_size
  decode_frames-oversize e c big small =
      let b = size_bytes (length (serialize e)) ++ serialize e in
      let framed : encode_frame serialize e ≡ some b = ground arith in
      (b, framed, ground (arith, decode_frames-encode_frame e b c framed))
