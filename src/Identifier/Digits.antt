-- ===== src/Identifier/Digits.antt =====
-- crates/core/src/identifier.rs: the alphabet read both ways, and the digits of a shifted value.
use native.Mathlib.Numerals.{towards_suc}
use native.Mathlib.Nat.{div-div-eq-div-mul}
use elasticdms_desktop.Prelude.{
  ℕ, zero, suc, ◌+◌, ◌*◌, ◌/◌, ◌%◌, ◌^◌, ◌<◌, ◌≡◌, refl, sym, ap, ◌∙◌, Bool, true, false, ◌&&◌,
  Option, none, some, [], ◌∷◌, ◌==◌, ==_iff, get_or, length, arith, Bool-cases, inl, inr,
}
use elasticdms_desktop.Text.{Text, utf8_width, utf8_len}
use elasticdms_desktop.Identifier.{alphabet, encode_places, position}

-- A position found is a place of the text that holds the character.
pub position_found :
    (c : ℕ) (xs : Text) (i k : ℕ)
    → position c xs i ≡ some k
    → (j : ℕ) × (k ≡ i + j) × (j < length xs) × (get_or xs j 0 ≡ c)
unfolding position
position_found c [] i k h = absurd (ground arith)
position_found c (x ∷ xs) i k h = elim (Bool-cases (x == c)) [
  | inl e ↦ (0, ground arith, omega arith, ground arith)
  | inr e ↦
      let (j, p, q, r) = position_found c xs (i + 1) k (rw e at h) in
      (suc j, omega arith, omega arith, r)
]

-- Every five bits have a character, whose position they are.
unfoldable pub each_digit : (ℕ → Bool) → ℕ → Bool
each_digit test (suc count) = each_digit test count && test count
each_digit test zero = true

pub each_digit_sound :
    (test : ℕ → Bool) (count k : ℕ) → k < count → each_digit test count ≡ true → test k ≡ true
unfolding each_digit
each_digit_sound test (suc count) k below all = ground (arith, each_digit_sound test count k)
each_digit_sound test zero k below all = absurd (omega arith)

abbrev found_at : Option ℕ → ℕ → Bool
found_at none k = false
found_at (some i) k = i == k

found_at→eq : (o : Option ℕ) (k : ℕ) → found_at o k ≡ true → o ≡ some k
found_at→eq o k h = ground arith

position_table : each_digit (λ k. found_at (position (get_or alphabet k 0) alphabet 0) k) 32 ≡ true
unfolding each_digit position
position_table = refl

pub position-get_or : (k : ℕ) → k < 32 → position (get_or alphabet k 0) alphabet 0 ≡ some k
position-get_or k h = found_at→eq _ k (
    each_digit_sound (λ k. found_at (position (get_or alphabet k 0) alphabet 0) k) 32 k h
      position_table)

pub five_more : (i : ℕ) → 2 ^ (5 * suc i) ≡ 2 ^ (5 * i) * 32
five_more i = ap (λ (t : ℕ). 2 ^ t) (five_up i) ∙ simp towards_suc (omega arith)
  where
    five_up : (i : ℕ) → 5 * suc i ≡ 5 * i + 5
    five_up i = omega arith

-- Shifting by one more place divides by 32.
pub shift-suc : (v i : ℕ) → v / 2 ^ (5 * suc i) ≡ v / 2 ^ (5 * i) / 32
shift-suc v i = ap (λ (t : ℕ). v / t) (five_more i) ∙ sym (div-div-eq-div-mul v (2 ^ (5 * i)) 32)

pub length-encode_places : (n v : ℕ) → length (encode_places n v) ≡ n
unfolding encode_places
length-encode_places zero v = refl
length-encode_places (suc n) v = ap suc (length-encode_places n v)

-- The characters of the alphabet are ASCII.
width_table : each_digit (λ k. utf8_width (get_or alphabet k 0) == 1) 32 ≡ true
unfolding each_digit
width_table = refl

pub width-get_or : (k : ℕ) → k < 32 → utf8_width (get_or alphabet k 0) ≡ 1
width-get_or k h =
    (==_iff _ 1).0
      (each_digit_sound (λ k. utf8_width (get_or alphabet k 0) == 1) 32 k h width_table)

pub utf8_len-encode_places : (n v : ℕ) → utf8_len (encode_places n v) ≡ n
unfolding encode_places
utf8_len-encode_places zero v = refl
utf8_len-encode_places (suc n) v =
    omega (arith, width-get_or (v / 2 ^ (5 * n) % 32) (omega arith), utf8_len-encode_places n v)
