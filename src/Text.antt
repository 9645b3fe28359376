-- ===== src/Text.antt =====
-- Text as the list of its characters (Unicode scalar values), with the `str` operations that the
-- crates use: equality, prefixes, and splitting at a separator.
use Prim.Native.Char.{code}
use Prim.Native.String.{String}
use mathlib.Core.Bool.{false≢true}
use elasticdms_desktop.Prelude.{
  ℕ, ◌+◌, ◌/◌, ◌%◌, Bool-cases, inl, inr, ap, ◌≡◌, refl, ap, Bool, true, false, ◌&&◌, ◌||◌, Option,
  none, some, List, [], ◌∷◌, ◌++◌, arith, ◌==◌, ltb, if◌then◌else◌,
}

abbrev pub Text : Type 0
Text = List ℕ

abbrev pub codes : String → Text
codes String.[] = []
codes (String.◌∷◌ c s) = code c ∷ codes s

-- The bytes that UTF-8 needs for a character.
abbrev pub utf8_width : ℕ → ℕ
utf8_width c = if ltb c 0x80 then 1 else if ltb c 0x800 then 2 else if ltb c 0x10000 then 3 else 4

-- `str::len`
abbrev pub utf8_len : Text → ℕ
utf8_len [] = 0
utf8_len (c ∷ t) = utf8_width c + utf8_len t

-- The bytes of one character, and `str::as_bytes`.
abbrev utf8 : ℕ → List ℕ
utf8 c =
    if ltb c 0x80
    then c ∷ []
    else if ltb c 0x800
    then (0xc0 + c / 64) ∷ (0x80 + c % 64) ∷ []
    else if ltb c 0x10000
    then (0xe0 + c / 4096) ∷ (0x80 + c / 64 % 64) ∷ (0x80 + c % 64) ∷ []
    else (0xf0 + c / 262144) ∷ (0x80 + c / 4096 % 64) ∷ (0x80 + c / 64 % 64) ∷ (0x80 + c % 64) ∷ []

abbrev pub as_bytes : Text → List ℕ
as_bytes [] = []
as_bytes (c ∷ t) = utf8 c ++ as_bytes t

abbrev pub is_ascii : Text → Bool
is_ascii [] = true
is_ascii (c ∷ t) = ltb c 0x80 && is_ascii t

pub as_bytes-ascii : (t : Text) → is_ascii t ≡ true → as_bytes t ≡ t
as_bytes-ascii [] h = refl
as_bytes-ascii (c ∷ t) h = elim (Bool-cases (ltb c 0x80)) [
  | inl e ↦ rw e (ap (λ (s : Text). c ∷ s) (as_bytes-ascii t (rw e at h)))
  | inr e ↦ absurd (false≢true (rw e at h))
]

abbrev pub text_eq : Text → Text → Bool
text_eq [] [] = true
text_eq (a ∷ s) (b ∷ t) = a == b && text_eq s t
text_eq _ _ = false

pub text_eq_refl : (s : Text) → text_eq s s ≡ true
text_eq_refl [] = refl
text_eq_refl (a ∷ s) = ground (arith, text_eq_refl s)

pub text_eq→eq : (s t : Text) → text_eq s t ≡ true → s ≡ t
text_eq→eq [] [] h = refl
text_eq→eq [] (b ∷ t) h = ground arith
text_eq→eq (a ∷ s) [] h = ground arith
text_eq→eq (a ∷ s) (b ∷ t) h = ground (arith, text_eq→eq s t)

-- `str::contains` of one character
abbrev pub contains : ℕ → Text → Bool
contains c [] = false
contains c (x ∷ t) = x == c || contains c t

-- `text.strip_prefix(prefix)`
abbrev pub strip_prefix : Text → Text → Option Text
strip_prefix [] t = some t
strip_prefix (p ∷ ps) [] = none
strip_prefix (p ∷ ps) (x ∷ t) = if p == x then strip_prefix ps t else none

abbrev cons_front : ℕ → Option (Text × Text) → Option (Text × Text)
cons_front x none = none
cons_front x (some (a, b)) = some (x ∷ a, b)

-- `text.split_once(c)`: at the first `c`
abbrev pub split_once : ℕ → Text → Option (Text × Text)
split_once c [] = none
split_once c (x ∷ t) = if x == c then some ([], t) else cons_front x (split_once c t)

abbrev at_this : Bool → ℕ → Text → Option (Text × Text) → Option (Text × Text)
at_this here x t (some (a, b)) = some (x ∷ a, b)
at_this true x t none = some ([], t)
at_this false x t none = none

-- `text.rsplit_once(c)`: at the last `c`
abbrev pub rsplit_once : ℕ → Text → Option (Text × Text)
rsplit_once c [] = none
rsplit_once c (x ∷ t) = at_this (x == c) x t (rsplit_once c t)

pub strip_prefix-append : (p t : Text) → strip_prefix p (p ++ t) ≡ some t
strip_prefix-append [] t = refl
strip_prefix-append (x ∷ p) t = ground (arith, strip_prefix-append p t)

pub append-strip_prefix : (p t r : Text) → strip_prefix p t ≡ some r → t ≡ p ++ r
append-strip_prefix [] t r h = ground arith
append-strip_prefix (x ∷ p) [] r h = ground arith
append-strip_prefix (x ∷ p) (y ∷ t) r h = ground (arith, append-strip_prefix p t r)

pub split_once-append :
    (c : ℕ) (a b : Text) → contains c a ≡ false → split_once c (a ++ c ∷ b) ≡ some (a, b)
split_once-append c [] b h = ground arith
split_once-append c (x ∷ a) b h = ground (arith, split_once-append c a b)

pub split_once-none : (c : ℕ) (t : Text) → contains c t ≡ false → split_once c t ≡ none
split_once-none c [] h = refl
split_once-none c (x ∷ t) h = ground (arith, split_once-none c t)

pub append-split_once : (c : ℕ) (t a b : Text) → split_once c t ≡ some (a, b) → t ≡ a ++ c ∷ b
append-split_once c [] a b h = ground arith
append-split_once c (x ∷ t) [] b h = ground (arith, append-split_once c t [] b)
append-split_once c (x ∷ t) (y ∷ a) b h = ground (arith, append-split_once c t a b)

pub rsplit_once-none : (c : ℕ) (t : Text) → contains c t ≡ false → rsplit_once c t ≡ none
rsplit_once-none c [] h = refl
rsplit_once-none c (x ∷ t) h = ground (arith, rsplit_once-none c t)

pub rsplit_once-append :
    (c : ℕ) (a b : Text) → contains c b ≡ false → rsplit_once c (a ++ c ∷ b) ≡ some (a, b)
rsplit_once-append c [] b h = ground (arith, rsplit_once-none c b)
rsplit_once-append c (x ∷ a) b h = ground (arith, rsplit_once-append c a b)

pub append-rsplit_once : (c : ℕ) (t a b : Text) → rsplit_once c t ≡ some (a, b) → t ≡ a ++ c ∷ b
append-rsplit_once c [] a b h = ground arith
append-rsplit_once c (x ∷ t) [] b h = ground (arith, append-rsplit_once c t [] b)
append-rsplit_once c (x ∷ t) (y ∷ a) b h = ground (arith, append-rsplit_once c t a b)

-- Without the separator nothing is split off.
pub contains-rsplit_once : (c : ℕ) (t : Text) → rsplit_once c t ≡ none → contains c t ≡ false
contains-rsplit_once c [] h = refl
contains-rsplit_once c (x ∷ t) h = ground (arith, contains-rsplit_once c t)

pub contains-append : (c : ℕ) (s t : Text) → contains c (s ++ t) ≡ (contains c s || contains c t)
contains-append c [] t = refl
contains-append c (x ∷ s) t = ground (arith, contains-append c s t)
