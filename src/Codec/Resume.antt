-- ===== src/Codec/Resume.antt =====
-- server/protocol/codec.py: the loop of `decode_frames` ends, and a stream may be cut anywhere.
use mini_im.Prelude.{
  ℕ, zero, suc, ◌≤◌, ◌<◌, ◌≡◌, refl, sym, ◌∙◌, Option, none, some, List, [], ◌∷◌, ◌++◌, arith,
  length, length-drop,
}
use mini_im.Protocol.{Bytes}
use mini_im.Codec.{
  Turn, cut_frame, next_frame, Decoded, decoded, invalid_size, parse_error, prepend, decode_loop,
  decode_frames,
}

length-cut_frame :
    (n : ℕ) (r : Bytes) {payload rest : Bytes}
    → cut_frame n r ≡ Turn.frame payload rest
    → length rest < length r
unfolding cut_frame
length-cut_frame n r h = ground (arith, length-drop n r)

pub length-next_frame :
    (buffer : Bytes) {payload rest : Bytes}
    → next_frame buffer ≡ Turn.frame payload rest
    → length rest < length buffer
unfolding next_frame
length-next_frame (a ∷ b ∷ c ∷ d ∷ r) h = omega (arith, length-cut_frame _ r h)
length-next_frame _ h = ground arith

-- More bytes do not change a turn that did not wait for them.
pub more : Bytes → Turn → Turn
more c (Turn.invalid n) = Turn.invalid n
more c Turn.wait = Turn.wait
more c (Turn.frame p r) = Turn.frame p (r ++ c)

module _ {Envelope : Type 0} (parse : Bytes → Option Envelope) where
  unfoldable pub cons_parsed : Option Envelope → Decoded Envelope → Decoded Envelope
  cons_parsed none d = parse_error
  cons_parsed (some e) d = prepend e d

  -- The rest of the loop after a turn.
  unfoldable pub after : (Bytes → Decoded Envelope) → Bytes → Turn → Decoded Envelope
  after go b (Turn.invalid n) = invalid_size n
  after go b Turn.wait = decoded [] b
  after go b (Turn.frame p r) = cons_parsed (parse p) (go r)

  decode_loop-suc :
      (fuel : ℕ) (b : Bytes)
      → decode_loop parse (suc fuel) b ≡ after (decode_loop parse fuel) b (next_frame b)
  unfolding decode_loop after cons_parsed
  decode_loop-suc fuel b = ground arith

  after-cong :
      (go go' : Bytes → Decoded Envelope) (b : Bytes) (t : Turn)
      → next_frame b ≡ t
      → ((r : Bytes) → length r < length b → go r ≡ go' r)
      → after go b t ≡ after go' b t
  unfolding after
  after-cong go go' b (Turn.invalid n) e h = refl
  after-cong go go' b Turn.wait e h = refl
  after-cong go go' b (Turn.frame p r) e h = ground (arith, h r (length-next_frame b e))

  decode_loop-fuel :
      (f g : ℕ) (b : Bytes)
      → length b ≤ f
      → length b ≤ g
      → decode_loop parse f b ≡ decode_loop parse g b
  unfolding decode_loop next_frame
  decode_loop-fuel zero zero b p q = refl
  decode_loop-fuel zero (suc g) [] p q = refl
  decode_loop-fuel (suc f) zero [] p q = refl
  decode_loop-fuel zero (suc g) (x ∷ b) p q = absurd (omega arith)
  decode_loop-fuel (suc f) zero (x ∷ b) p q = absurd (omega arith)
  decode_loop-fuel (suc f) (suc g) b p q =
      decode_loop-suc f b
      ∙ after-cong (decode_loop parse f) (decode_loop parse g) b (next_frame b) refl
          (λ r h. decode_loop-fuel f g r (omega arith) (omega arith))
      ∙ sym (decode_loop-suc g b)

  -- The loop has enough fuel: it goes on by the equation of `while`.
  pub decode_frames-step :
      (b : Bytes) → decode_frames parse b ≡ after (decode_frames parse) b (next_frame b)
  unfolding decode_frames
  decode_frames-step b =
      decode_loop-fuel (length b) (suc (length b)) b (omega arith) (omega arith)
      ∙ decode_loop-suc (length b) b
      ∙ after-cong (decode_loop parse (length b)) (λ r. decode_loop parse (length r) r) b
          (next_frame b) refl
          (λ r h. decode_loop-fuel (length b) (length r) r (omega arith) (omega arith))

  unfoldable pub prepend_all : List Envelope → Decoded Envelope → Decoded Envelope
  prepend_all [] d = d
  prepend_all (e ∷ es) d = prepend e (prepend_all es d)

  -- What a decoder that has returned `d` makes of the bytes `c` that come in later.
  unfoldable pub continue : Decoded Envelope → Bytes → Decoded Envelope
  continue (decoded es rest) c = prepend_all es (decode_frames parse (rest ++ c))
  continue (invalid_size n) c = invalid_size n
  continue parse_error c = parse_error
