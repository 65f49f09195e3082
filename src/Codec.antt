-- ===== src/Codec.antt =====
-- server/protocol/codec.py: length-prefixed frames. Protobuf is a parameter: `serialize` and `parse`.
pub mod Resume
pub mod RoundTrip
use mini_im.Prelude.{
  ℕ, zero, suc, ◌+◌, ◌*◌, ◌/◌, ◌%◌, ◌^◌, ◌||◌, Option, none, some, List, [], ◌∷◌, ◌++◌, ltb, leb,
  if◌then◌else◌, length, take, drop,
}
use mini_im.Protocol.{Bytes}

abbrev pub max_frame_size : ℕ
max_frame_size = 16 * 1024 * 1024

-- `struct.pack(">I", n)`; `none` is the `struct.error` of a number that does not fit.
unfoldable pub pack_size : ℕ → Option Bytes
pack_size n =
    if ltb n (2 ^ 32)
    then some (n / 2 ^ 24 ∷ n / 2 ^ 16 % 256 ∷ n / 2 ^ 8 % 256 ∷ n % 256 ∷ [])
    else none

-- `struct.unpack(">I", b)[0]` of four bytes.
unfoldable pub unpack_size : ℕ → ℕ → ℕ → ℕ → ℕ
unpack_size a b c d = a * 2 ^ 24 + b * 2 ^ 16 + c * 2 ^ 8 + d

-- The outcome of one turn of the loop of `decode_frames` on a buffer.
pub data Turn : Type 0 where
  invalid : ℕ → Turn
  wait : Turn
  frame : Bytes → Bytes → Turn

-- `rest` is the buffer after the four bytes of the size.
unfoldable pub cut_frame : ℕ → Bytes → Turn
cut_frame payload_size rest =
    if leb payload_size 0 || ltb max_frame_size payload_size
    then Turn.invalid payload_size
    else if ltb (length rest) payload_size
    then Turn.wait
    else Turn.frame (take payload_size rest) (drop payload_size rest)

unfoldable pub next_frame : Bytes → Turn
next_frame (a ∷ b ∷ c ∷ d ∷ rest) = cut_frame (unpack_size a b c d) rest
next_frame _ = Turn.wait

-- What `decode_frames` does: the envelopes and the bytes it leaves in the buffer, or `ValueError`,
-- or the `DecodeError` of the payload parser.
pub data Decoded (Envelope : Type 0) : Type 0 where
  decoded : List Envelope → Bytes → Decoded Envelope
  invalid_size : ℕ → Decoded Envelope
  parse_error : Decoded Envelope

module _ {Envelope : Type 0} where
  unfoldable pub prepend : Envelope → Decoded Envelope → Decoded Envelope
  prepend e (decoded es rest) = decoded (e ∷ es) rest
  prepend e (invalid_size n) = invalid_size n
  prepend e parse_error = parse_error

  -- `while len(buffer) >= 4`, on fuel.
  unfoldable pub decode_loop : (Bytes → Option Envelope) → ℕ → Bytes → Decoded Envelope
  decode_loop parse zero buffer = decoded [] buffer
  decode_loop parse (suc fuel) buffer = elim (next_frame buffer) [
    | Turn.invalid n ↦ invalid_size n
    | Turn.wait ↦ decoded [] buffer
    | Turn.frame payload rest ↦ elim (parse payload) [
      | none ↦ parse_error
      | some e ↦ prepend e (decode_loop parse fuel rest)
    ]
  ]

  -- Each frame takes more than four bytes, so the length of the buffer is enough fuel.
  unfoldable pub decode_frames : (Bytes → Option Envelope) → Bytes → Decoded Envelope
  decode_frames parse buffer = decode_loop parse (length buffer) buffer

  unfoldable pub encode_frame : (Envelope → Bytes) → Envelope → Option Bytes
  encode_frame serialize envelope =
      let payload = serialize envelope in
      elim (pack_size (length payload)) [ none ↦ none | some size ↦ some (size ++ payload) ]
