-- ===== src/Identifier/RoundTrip.antt =====
-- crates/core/src/identifier.rs: `decode` on what `encode` writes.
use mathlib.Core.Path.{ap₂}
use native.Mathlib.Nat.{div-le_self}
use native.Mathlib.Numerals.{add-one}
use elasticdms_desktop.Prelude.{
  ℕ, zero, suc, ◌+◌, ◌*◌, ◌/◌, ◌%◌, ◌^◌, ◌<◌, ◌≡◌, refl, ap, ◌∙◌, false, ◌&&◌, ◌∷◌, ltb, ◌==◌,
  get_or, arith, ok,
}
use elasticdms_desktop.Text.{Text}
use elasticdms_desktop.Identifier.{alphabet, encode_places, encode, decode_from, decode}
use elasticdms_desktop.Identifier.Digits.{
  position-get_or, shift-suc, length-encode_places, utf8_len-encode_places,
}

-- One round of the loop: a digit of the alphabet that does not overflow is shifted in.
decode_from-cons :
    (whole : Text) (i value k : ℕ) (rest : Text)
    → k < 32
    → (i == 0 && ltb 7 k) ≡ false
    → value * 32 < 2 ^ 128
    → decode_from whole i value (get_or alphabet k 0 ∷ rest)
      ≡ decode_from whole (i + 1) (value * 32 + k) rest
unfolding decode_from
decode_from-cons whole i value k rest h g b =
    rw (position-get_or k h, decode_from)
      (rw g (ap (λ (t : ℕ). decode_from whole (i + 1) (t + k) rest) (omega arith)))

-- From the second character on, the places below `n` add the low bits of the value.
decode_from-encode_places :
    (whole : Text) (i n v : ℕ)
    → v < 2 ^ 128
    → decode_from whole (suc i) (v / 2 ^ (5 * n)) (encode_places n v) ≡ ok v
unfolding encode_places decode_from
decode_from-encode_places whole i zero v h = ap ok (omega arith)
decode_from-encode_places whole i (suc n) v h = rw (shift-suc v n) (
    decode_from-cons whole (suc i) (v / 2 ^ (5 * n) / 32) (v / 2 ^ (5 * n) % 32) (encode_places n v)
      (omega arith) (ground arith) (omega (arith, div-le_self v (2 ^ (5 * n))))
    ∙ ap₂ (λ (j t : ℕ). decode_from whole j t (encode_places n v)) (add-one (suc i)) (omega arith)
    ∙ decode_from-encode_places whole (suc i) n v h)

-- The first character stands for the highest bits, of which there are three.
decode_from-first :
    (whole : Text) (n v : ℕ)
    → v < 2 ^ 128
    → v / 2 ^ (5 * n) < 8
    → decode_from whole 0 0 (encode_places (suc n) v) ≡ ok v
unfolding encode_places
decode_from-first whole n v h top =
    decode_from-cons whole 0 0 (v / 2 ^ (5 * n) % 32) (encode_places n v) (omega arith)
      (ground arith) (omega arith)
    ∙ ap₂ (λ (j t : ℕ). decode_from whole j t (encode_places n v)) (omega arith) (omega arith)
    ∙ decode_from-encode_places whole 0 n v h

encode_lem : (v : ℕ) → encode v ≡ encode_places 26 v
unfolding encode
encode_lem v = refl

-- `decode` reads back what `encode` wrote, for every 128-bit value.
pub decode-encode : (whole : Text) (v : ℕ) → v < 2 ^ 128 → decode whole (encode v) ≡ ok v
unfolding decode
decode-encode whole v h = rw (encode_lem v) (
    rw (length-encode_places 26 v, utf8_len-encode_places 26 v)
      (decode_from-first whole 25 v h (omega arith)))
