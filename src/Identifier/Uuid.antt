-- ===== src/Identifier/Uuid.antt =====
-- crates/core/src/identifier.rs: `as_uuid_text` and `from_uuid_text`.
use mathlib.Core.Path.{ap₂}
use native.Mathlib.Numerals.{towards_suc}
use native.Mathlib.Nat.{div-div-eq-div-mul, div-le_self}
use elasticdms_desktop.Prelude.{
  ℕ, zero, suc, ◌+◌, ◌-◌, ◌*◌, ◌/◌, ◌%◌, ◌^◌, ◌≤◌, ◌<◌, ◌≡◌, refl, sym, ap, ◌∙◌, Bool, true, false,
  not, ◌&&◌, ◌||◌, Option, none, some, List, [], ◌∷◌, ◌++◌, ltb, leb, ◌==◌, if◌then◌else◌, get_or,
  take, drop, length, arith, Result, ok, err,
}
use elasticdms_desktop.Text.{Text, codes, as_bytes, is_ascii, as_bytes-ascii}
use elasticdms_desktop.Identifier.{IdentifierError, uuid_text, uuid_text_length}
use elasticdms_desktop.Identifier.Digits.{each_digit, each_digit_sound}

abbrev hex_digits : Text
hex_digits = codes "0123456789abcdef"

-- The digits of `format!("{:032x}", value)` for the lowest `n` places.
unfoldable pub hex_places : ℕ → ℕ → Text
hex_places zero value = []
hex_places (suc i) value = get_or hex_digits (value / 2 ^ (4 * i) % 16) 0 ∷ hex_places i value

-- `&hex[of..until]`
abbrev slice : ℕ → ℕ → Text → Text
slice of until hex = take (until - of) (drop of hex)

-- `as_uuid_text`
unfoldable pub as_uuid_text : ℕ → Text
as_uuid_text value =
    let hex = hex_places 32 value in
    slice 0 8 hex
    ++ (b'-' ∷ slice 8 12 hex
        ++ (b'-' ∷ slice 12 16 hex ++ (b'-' ∷ slice 16 20 hex ++ (b'-' ∷ slice 20 32 hex))))

-- `char::from(b).to_digit(16)`
abbrev to_digit : ℕ → Option ℕ
to_digit b =
    if leb b'0' b && leb b b'9'
    then some (b - b'0')
    else if leb b'a' b && leb b b'f'
    then some (b - b'a' + 10)
    else if leb b'A' b && leb b b'F'
    then some (b - b'A' + 10)
    else none

abbrev is_dash_place : ℕ → Bool
is_dash_place place = place == 8 || (place == 13 || (place == 18 || place == 23))

-- The loop of `from_uuid_text`: `(value << 4) | digit` on `u128`, the four low bits being zero.
unfoldable pub read_uuid : Text → ℕ → ℕ → List ℕ → Result IdentifierError ℕ
read_uuid text place value [] = ok value
read_uuid text place value (b ∷ rest) = elim (is_dash_place place) [
  | true ↦
      let later = read_uuid text (place + 1) value rest in
      if b == b'-' then later else err (uuid_text text)
  | false ↦ elim (to_digit b) [
    | none ↦ err (uuid_text text)
    | some digit ↦ read_uuid text (place + 1) (value * 16 % 2 ^ 128 + digit) rest
  ]
]

-- `from_uuid_text`
unfoldable pub from_uuid_text : Text → Result IdentifierError ℕ
from_uuid_text text =
    let bytes = as_bytes text in
    if not (length bytes == uuid_text_length)
    then err (uuid_text text)
    else read_uuid text 0 0 bytes

abbrev reads_back : Option ℕ → ℕ → Bool
reads_back none k = false
reads_back (some i) k = i == k

digit_table : each_digit (λ k. reads_back (to_digit (get_or hex_digits k 0)) k) 16 ≡ true
unfolding each_digit
digit_table = refl

to_digit-get_or : (k : ℕ) → k < 16 → to_digit (get_or hex_digits k 0) ≡ some k
to_digit-get_or k h =
    reads_back→eq _ k
      (each_digit_sound (λ k. reads_back (to_digit (get_or hex_digits k 0)) k) 16 k h digit_table)
  where
    reads_back→eq : (o : Option ℕ) (k : ℕ) → reads_back o k ≡ true → o ≡ some k
    reads_back→eq o k h = ground arith

shift-suc : (v i : ℕ) → v / 2 ^ (4 * suc i) ≡ v / 2 ^ (4 * i) / 16
shift-suc v i = ap (λ (t : ℕ). v / t) (four_more i) ∙ sym (div-div-eq-div-mul v (2 ^ (4 * i)) 16)
  where
    four_up : (i : ℕ) → 4 * suc i ≡ 4 * i + 4
    four_up i = omega arith

    four_more : (i : ℕ) → 2 ^ (4 * suc i) ≡ 2 ^ (4 * i) * 16
    four_more i = ap (λ (t : ℕ). 2 ^ t) (four_up i) ∙ simp towards_suc (omega arith)

-- No dash is expected at `n` places from `place` on.
is_free : ℕ → ℕ → Bool
is_free place zero = true
is_free place (suc n) = not (is_dash_place place) && is_free (place + 1) n

read_uuid-digit :
    (text : Text) (place value k : ℕ) (rest : List ℕ)
    → k < 16
    → is_dash_place place ≡ false
    → value * 16 < 2 ^ 128
    → read_uuid text place value (get_or hex_digits k 0 ∷ rest)
      ≡ read_uuid text (place + 1) (value * 16 + k) rest
unfolding read_uuid
read_uuid-digit text place value k rest h g b =
    rw (g, read_uuid)
      (rw (to_digit-get_or k h, read_uuid)
        (ap (λ (t : ℕ). read_uuid text (place + 1) (t + k) rest) {x = value * 16 % 2 ^ 128}
          {y = value * 16} (omega arith)))

is_free-suc :
    (place n : ℕ)
    → is_free place (suc n) ≡ true
    → (is_dash_place place ≡ false) × (is_free (place + 1) n ≡ true)
unfolding is_free
is_free-suc place n f = ground arith

-- The digits of the places from `m` down to `m - n` are read at `n` places without a dash.
read_uuid-digits :
    (text : Text) (n m place v : ℕ) (rest : List ℕ)
    → n ≤ m
    → is_free place n ≡ true
    → v < 2 ^ 128
    → read_uuid text place (v / 2 ^ (4 * m)) (take n (hex_places m v) ++ rest)
      ≡ read_uuid text (place + n) (v / 2 ^ (4 * (m - n))) rest
unfolding hex_places is_free
read_uuid-digits text zero m place v rest h f b =
    ap₂ (λ (p d : ℕ). read_uuid text p (v / 2 ^ (4 * d)) rest) {x = place} {y = place + 0}
      (omega arith) (omega arith)
read_uuid-digits text (suc n) zero place v rest h f b = absurd (omega arith)
read_uuid-digits text (suc n) (suc m) place v rest h f b = rw (shift-suc v m) (
    read_uuid-digit text place (v / 2 ^ (4 * m) / 16) (v / 2 ^ (4 * m) % 16)
      (take n (hex_places m v) ++ rest) (omega arith) (is_free-suc place n f).0
      (omega (arith, div-le_self v (2 ^ (4 * m))))
    ∙ ap (λ (t : ℕ). read_uuid text (place + 1) t (take n (hex_places m v) ++ rest))
        {y = v / 2 ^ (4 * m)} (omega arith)
    ∙ read_uuid-digits text n m (place + 1) v rest (omega arith) (is_free-suc place n f).1 b
    ∙ ap₂ (λ (p d : ℕ). read_uuid text p (v / 2 ^ (4 * d)) rest) {x = place + 1 + n}
        {y = place + suc n} {u = m - n} {v = suc m - suc n} (omega arith) (omega arith))

-- A dash where one is expected.
read_uuid-dash :
    (text : Text) (place value : ℕ) (rest : List ℕ)
    → is_dash_place place ≡ true
    → read_uuid text place value (b'-' ∷ rest) ≡ read_uuid text (place + 1) value rest
unfolding read_uuid
read_uuid-dash text place value rest h = rw (h, read_uuid)

-- The five groups, each the highest places of what is left.
groups : ℕ → Text
groups v =
    take 8 (hex_places 32 v)
    ++ (b'-' ∷ take 4 (hex_places 24 v)
        ++ (b'-' ∷ take 4 (hex_places 20 v)
            ++ (b'-' ∷ take 4 (hex_places 16 v) ++ (b'-' ∷ take 12 (hex_places 12 v) ++ []))))

as_uuid_text-groups : (v : ℕ) → as_uuid_text v ≡ groups v
unfolding as_uuid_text groups hex_places
as_uuid_text-groups v = refl

length-groups : (v : ℕ) → length (groups v) ≡ 36
unfolding groups hex_places
length-groups v = refl

ascii_table : each_digit (λ k. ltb (get_or hex_digits k 0) 0x80) 16 ≡ true
unfolding each_digit
ascii_table = refl

is_ascii-take : (n m v : ℕ) → is_ascii (take n (hex_places m v)) ≡ true
unfolding hex_places
is_ascii-take zero m v = refl
is_ascii-take (suc n) zero v = refl
is_ascii-take (suc n) (suc m) v =
    rw
      (each_digit_sound (λ k. ltb (get_or hex_digits k 0) 0x80) 16 (v / 2 ^ (4 * m) % 16)
        (omega arith) ascii_table)
      (is_ascii-take n m v)

is_ascii-append : (s t : Text) → is_ascii (s ++ t) ≡ (is_ascii s && is_ascii t)
is_ascii-append [] t = refl
is_ascii-append (c ∷ s) t = ground (arith, is_ascii-append s t)

is_ascii-groups : (v : ℕ) → is_ascii (groups v) ≡ true
unfolding groups
is_ascii-groups v = simp (is_ascii-append, is_ascii-take)

read_uuid-groups : (text : Text) (v : ℕ) → v < 2 ^ 128 → read_uuid text 0 0 (groups v) ≡ ok v
unfolding groups is_free
read_uuid-groups text v h =
    ap (λ (t : ℕ). read_uuid text 0 t (groups v)) {x = 0} {y = v / 2 ^ (4 * 32)} (omega arith)
    ∙ read_uuid-digits text 8 32 0 v _ (omega arith) refl h
    ∙ read_uuid-dash text 8 _ _ refl
    ∙ read_uuid-digits text 4 24 9 v _ (omega arith) refl h
    ∙ read_uuid-dash text 13 _ _ refl
    ∙ read_uuid-digits text 4 20 14 v _ (omega arith) refl h
    ∙ read_uuid-dash text 18 _ _ refl
    ∙ read_uuid-digits text 4 16 19 v _ (omega arith) refl h
    ∙ read_uuid-dash text 23 _ _ refl
    ∙ read_uuid-digits text 12 12 24 v _ (omega arith) refl h
    ∙ unfold read_uuid in ap ok {x = v / 2 ^ (4 * 0)} {y = v} (omega arith)

-- The UUID text of every 128-bit value is read back as that value.
pub from_uuid_text-as_uuid_text : (v : ℕ) → v < 2 ^ 128 → from_uuid_text (as_uuid_text v) ≡ ok v
unfolding from_uuid_text
from_uuid_text-as_uuid_text v h = rw (as_uuid_text-groups v) (
    rw (as_bytes-ascii (groups v) (is_ascii-groups v))
      (rw (length-groups v) (read_uuid-groups (groups v) v h)))
