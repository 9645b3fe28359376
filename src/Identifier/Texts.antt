-- ===== src/Identifier/Texts.antt =====
-- crates/core/src/identifier.rs: `Display` and `FromStr` of an identifier, and what its text holds.
use elasticdms_desktop.Prelude.{
  ℕ, zero, suc, ◌*◌, ◌/◌, ◌%◌, ◌^◌, ◌<◌, ◌≡◌, refl, sym, ap, ◌∙◌, Bool, true, false, not, ◌&&◌,
  some, [], ◌∷◌, ◌++◌, ◌==◌, get_or, arith, Option-cases, inl, inr, ok,
}
use elasticdms_desktop.Text.{
  Text, contains, contains-append, strip_prefix, strip_prefix-append, append-strip_prefix,
}
use elasticdms_desktop.Identifier.{
  alphabet, encode_places, encode, Kind, prefix, parse, display, identifier_part, strip_underscore,
}
use elasticdms_desktop.Identifier.Digits.{each_digit, each_digit_sound}
use elasticdms_desktop.Identifier.RoundTrip.{decode-encode}
use elasticdms_desktop.Identifier.Canonical.{decode_ok}

strip-display :
    (kind : Kind) (rest : Text)
    → strip_underscore (strip_prefix (prefix kind) (prefix kind ++ (b'_' ∷ rest))) ≡ some rest
strip-display kind rest = rw (strip_prefix-append (prefix kind) (b'_' ∷ rest))

-- Every identifier of a 128-bit value is read back from its text, whatever its kind.
pub parse-display : (kind : Kind) (v : ℕ) → v < 2 ^ 128 → parse kind (display kind v) ≡ ok v
unfolding parse display identifier_part
parse-display kind v h =
    rw (strip-display kind (encode v)) (decode-encode (prefix kind ++ (b'_' ∷ encode v)) v h)

stripped :
    (kind : Kind) (text part : Text)
    → strip_underscore (strip_prefix (prefix kind) text) ≡ some part
    → text ≡ prefix kind ++ (b'_' ∷ part)
stripped kind text part h = elim (Option-cases (strip_prefix (prefix kind) text)) [
  | inl e ↦ absurd (cc (rw e at h))
  | inr (rest, e) ↦
      append-strip_prefix (prefix kind) text rest e
      ∙ ap (λ (t : Text). prefix kind ++ t) (append-strip_prefix (b'_' ∷ []) rest part (rw e at h))
]

-- A text that is read as an identifier of a kind is the one that is written for the value, which
-- has 128 bits.
pub parse_ok :
    (kind : Kind) (text : Text) (v : ℕ)
    → parse kind text ≡ ok v
    → (v < 2 ^ 128) × (display kind v ≡ text)
unfolding parse display identifier_part
parse_ok kind text v h = elim (Option-cases (strip_underscore (strip_prefix (prefix kind) text))) [
  | inl e ↦ absurd (cc (rw e at h))
  | inr (part, e) ↦
      let (in_range, written) = decode_ok text part v (rw e at h) in
      (in_range, rw written (sym (stripped kind text part e)))
]

abbrev is_plain : ℕ → Bool
is_plain c = not (c == b'/') && not (c == b'-')

plain_table : each_digit (λ k. is_plain (get_or alphabet k 0)) 32 ≡ true
unfolding each_digit
plain_table = refl

plain-get_or : (k : ℕ) → k < 32 → (get_or alphabet k 0 == b'/') ≡ false
plain-get_or k h =
    let fact = each_digit_sound (λ k. is_plain (get_or alphabet k 0)) 32 k h plain_table in
    ground arith

contains-encode_places : (n v : ℕ) → contains b'/' (encode_places n v) ≡ false
unfolding encode_places
contains-encode_places zero v = refl
contains-encode_places (suc n) v =
    rw (plain-get_or (v / 2 ^ (5 * n) % 32) (omega arith)) (contains-encode_places n v)

contains-prefix : (kind : Kind) → contains b'/' (prefix kind) ≡ false
contains-prefix Kind.device = refl
contains-prefix _ = refl

-- The separator of the namespace stands in no identifier.
pub contains-display : (kind : Kind) (v : ℕ) → contains b'/' (display kind v) ≡ false
unfolding display identifier_part encode
contains-display kind v =
    rw (contains-append b'/' (prefix kind) (b'_' ∷ encode_places 26 v), contains-prefix kind)
      (contains-encode_places 26 v)
