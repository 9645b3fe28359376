-- ===== src/Identifier/Canonical.antt =====
-- crates/core/src/identifier.rs: which texts `decode` accepts for a value.
use mathlib.Core.Path.{ap₂}
use native.Mathlib.Nat.{one-le-pow}
use elasticdms_desktop.Prelude.{
  ℕ, suc, ◌+◌, ◌*◌, ◌/◌, ◌%◌, ◌^◌, ◌≤◌, ◌<◌, ◌≡◌, ap, ◌∙◌, false, ◌&&◌, some, [], ◌∷◌, ltb, ◌==◌,
  get_or, length, arith, Option-cases, inl, inr, ok,
}
use elasticdms_desktop.Text.{Text}
use elasticdms_desktop.Identifier.{alphabet, encode_places, encode, position, decode_from, decode}
use elasticdms_desktop.Identifier.Digits.{position_found, shift-suc, five_more}

room :
    (a k p b : ℕ)
    → k < 32
    → 0 < p
    → (a + 1) * (p * 32) ≤ b
    → ((a * 32 + k + 1) * p ≤ b) × (a * 32 < b)
room a k p b hk hp h = grind arith

-- A round that succeeds read the character of an index that does not overflow.
decode_from-cons_ok :
    (whole : Text) (i value c : ℕ) (rest : Text) (v : ℕ)
    → decode_from whole i value (c ∷ rest) ≡ ok v
    → (k : ℕ) × (position c alphabet 0 ≡ some k)
      × ((i == 0 && ltb 7 k) ≡ false)
      × (decode_from whole (i + 1) (value * 32 % 2 ^ 128 + k) rest ≡ ok v)
unfolding decode_from
decode_from-cons_ok whole i value c rest v h = elim (Option-cases (position c alphabet 0)) [
  | inl e ↦ absurd (cc (rw (e, decode_from) at h))
  | inr (k, e) ↦ (k, e, ground arith, ground arith)
]

index_of : (c k : ℕ) → position c alphabet 0 ≡ some k → (k < 32) × (get_or alphabet k 0 ≡ c)
index_of c k h =
    let (j, p, q, r) = position_found c alphabet 0 k h in
    (omega arith, ap (λ (t : ℕ). get_or alphabet t 0) {x = k} {y = j} (omega arith) ∙ r)

decode_from_ok :
    (whole : Text) (i value : ℕ) (t : Text) (v : ℕ)
    → (value + 1) * 2 ^ (5 * length t) ≤ 2 ^ 128
    → decode_from whole i value t ≡ ok v
    → (v < 2 ^ 128) × (v / 2 ^ (5 * length t) ≡ value) × (encode_places (length t) v ≡ t)
unfolding decode_from encode_places
decode_from_ok whole i value [] v b h = ground arith
decode_from_ok whole i value (c ∷ t) v b h =
    let (k, p, g, later) = decode_from-cons_ok whole i value c t v h in
    let (k_lt, char_k) = index_of c k p in
    let (fits, small) =
      room value k (2 ^ (5 * length t)) (2 ^ 128) k_lt (one-le-pow (5 * length t) 2 (omega arith))
        (rw (five_more (length t)) at b) in
    let (in_range, top, text) = decode_from_ok whole (i + 1) (value * 32 + k) t v fits (
      ap (λ (n : ℕ). decode_from whole (i + 1) (n + k) t) {y = value * 32 % 2 ^ 128} (omega arith)
      ∙ later) in
    (
      in_range,
      shift-suc v (length t) ∙ omega arith,
      ap₂ (λ (d : ℕ) (s : Text). d ∷ s)
          (ap (λ (d : ℕ). get_or alphabet d 0) {x = v / 2 ^ (5 * length t) % 32} {y = k}
              (omega arith)
            ∙ char_k)
          text,
    )

-- The first character of 26 stands for three bits, so that the value fits 128.
decode_from-first_ok :
    (whole : Text) (c : ℕ) (t : Text) (v : ℕ)
    → length t ≡ 25
    → decode_from whole 0 0 (c ∷ t) ≡ ok v
    → (v < 2 ^ 128) × (encode_places (suc (length t)) v ≡ c ∷ t)
unfolding encode_places
decode_from-first_ok whole c t v n h =
    let (k, p, g, later) = decode_from-cons_ok whole 0 0 c t v h in
    let (k_lt, char_k) = index_of c k p in
    let fits : (k + 1) * 2 ^ (5 * length t) ≤ 2 ^ 128 = rw n (omega (arith, three_bits k g)) in
    let (in_range, top, text) = decode_from_ok whole 1 k t v fits (
      ap (λ (n : ℕ). decode_from whole 1 n t) {x = k} {y = 0 * 32 % 2 ^ 128 + k} (omega arith)
      ∙ later) in
    (
      in_range,
      ap₂ (λ (d : ℕ) (s : Text). d ∷ s)
          (ap (λ (d : ℕ). get_or alphabet d 0) {x = v / 2 ^ (5 * length t) % 32} {y = k}
              (omega arith)
            ∙ char_k)
          text,
    )
  where
    three_bits : (k : ℕ) → (0 == 0 && ltb 7 k) ≡ false → k ≤ 7
    three_bits k g = ground arith

decode-length :
    (whole t : Text) (v : ℕ)
    → decode whole t ≡ ok v
    → (length t ≡ 26) × (decode_from whole 0 0 t ≡ ok v)
unfolding decode
decode-length whole t v h = ground arith

-- A text that `decode` accepts for a value is the one that `encode` writes for it, and the value
-- has 128 bits.
pub decode_ok : (whole t : Text) (v : ℕ) → decode whole t ≡ ok v → (v < 2 ^ 128) × (encode v ≡ t)
unfolding encode
decode_ok whole [] v h = absurd (omega (arith, decode-length whole [] v h))
decode_ok whole (c ∷ t) v h =
    let (n, g) = decode-length whole (c ∷ t) v h in
    let (in_range, text) = decode_from-first_ok whole c t v (omega arith) g in
    (in_range, ap (λ (m : ℕ). encode_places m v) {x = 26} {y = suc (length t)} (omega arith) ∙ text)
