-- ===== src/Examples/Codec.antt =====
-- Frames of server/protocol/codec.py on concrete bytes.
use mini_im.Prelude.{
  ℕ, zero, suc, ◌+◌, ◌^◌, ◌≡◌, refl, ap, none, some, [], ◌∷◌, ◌++◌, arith, length,
}
use mini_im.Protocol.{Bytes}
use mini_im.Codec.{
  decoded, invalid_size, decode_frames, decode_loop, next_frame, cut_frame, unpack_size, prepend,
  encode_frame,
}
use mini_im.Codec.Resume.{prepend_all}
use mini_im.Codec.RoundTrip.{send_all, decode_frames-send_all, decode_frames-oversize}

-- Envelopes are byte strings that encode themselves.
abbrev id : Bytes → Bytes
id b = b

two_frames :
    decode_frames some (0 ∷ 0 ∷ 0 ∷ 1 ∷ 7 ∷ 0 ∷ 0 ∷ 0 ∷ 2 ∷ 8 ∷ 9 ∷ 0 ∷ 0 ∷ [])
    ≡ decoded ((7 ∷ []) ∷ (8 ∷ 9 ∷ []) ∷ []) (0 ∷ 0 ∷ [])
unfolding decode_frames decode_loop next_frame cut_frame unpack_size prepend
two_frames = refl

empty_frame : decode_frames {Envelope = Bytes} some (0 ∷ 0 ∷ 0 ∷ 0 ∷ 5 ∷ []) ≡ invalid_size 0
unfolding decode_frames decode_loop next_frame cut_frame unpack_size prepend
empty_frame = refl

decode_frames-send_all_example :
    (b : Bytes) × (send_all id some ((7 ∷ []) ∷ (8 ∷ 9 ∷ []) ∷ []) ≡ some b)
    × (decode_frames some (b ++ 1 ∷ [])
        ≡ prepend_all some ((7 ∷ []) ∷ (8 ∷ 9 ∷ []) ∷ []) (decode_frames some (1 ∷ [])))
decode_frames-send_all_example =
    decode_frames-send_all id some ((7 ∷ []) ∷ (8 ∷ 9 ∷ []) ∷ []) (1 ∷ []) (
      record { parsed = refl; nonempty = omega arith; fits = omega arith },
      (record { parsed = refl; nonempty = omega arith; fits = omega arith }, tt),
    )

replicate : ℕ → Bytes
replicate zero = []
replicate (suc n) = 0 ∷ replicate n

length-replicate : (n : ℕ) → length (replicate n) ≡ n
unfolding replicate
length-replicate zero = refl
length-replicate (suc n) = ap suc (length-replicate n)

-- Sixteen mebibytes and one byte.
decode_frames-oversize_example :
    (b : Bytes) × (encode_frame replicate (2 ^ 24 + 1) ≡ some b)
    × (decode_frames {Envelope = ℕ} (λ _. none) (b ++ [])
        ≡ invalid_size (length (replicate (2 ^ 24 + 1))))
decode_frames-oversize_example =
    decode_frames-oversize replicate (λ _. none) (2 ^ 24 + 1) [] (rw length-replicate (omega arith))
      (rw length-replicate (omega arith))
