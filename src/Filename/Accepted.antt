-- ===== src/Filename/Accepted.antt =====
-- crates/core/src/filename.rs and crates/cfapi/src/checks.rs: the name that the core makes, as
-- the mirror checks it.
use elasticdms_desktop.Prelude.{
  ◌≤◌, ◌≡◌, refl, sym, Bool, true, false, ltb, if◌then◌else◌, arith, Bool-cases, inl, inr, Result,
  ok, err, ◌⊎◌,
}
use elasticdms_desktop.Text.{Text, codes, contains, text_eq, text_eq→eq}
use elasticdms_desktop.Filename.{
  sanitize, is_whitespace, trim_end, stem_of, to_ascii_uppercase, contains_text,
}
use elasticdms_desktop.Checks.{
  NameError, device, check_name, forbidden, any, ends_with, utf16_len, device_names,
}
use elasticdms_desktop.Filename.Lengths.{utf8_len-sanitize, utf16-le-utf8}
use elasticdms_desktop.Filename.Characters.{sanitize_good, any_parts}
use elasticdms_desktop.Filename.Ends.{HasGoodEnd, sanitize-HasGoodEnd}

not_eq : (u t : Text) → ends_with b'.' u ≡ true → ends_with b'.' t ≡ false → text_eq t u ≡ false
not_eq u t h g = elim (Bool-cases (text_eq t u)) [
  | inl e ↦ absurd (conflict (ends_with b'.' u) h (rw (sym (text_eq→eq t u e)) g))
  | inr e ↦ e
]
  where
    conflict : (b : Bool) → b ≡ true → b ≡ false → ⊥
    conflict b h g = ground arith

abbrev outcome : Bool → Result NameError (Unit {0})
outcome b = if b then err device else ok tt

-- `check_name` reaches its last test with a text of the right characters, length and end.
check_name-remains :
    (t : Text)
    → HasGoodEnd t
    → utf16_len t ≤ 255
    → any (λ z. ltb z 0x20) t ≡ false
    → any (λ z. contains z forbidden) t ≡ false
    → (check_name t ≡ ok tt) ⊎ (check_name t ≡ err device)
unfolding check_name
check_name-remains t end bound controls characters =
    rw
      (
        end.has_char,
        not_eq (codes ".") t refl end.not_dot,
        not_eq (codes "..") t refl end.not_dot,
        within,
        controls,
        characters,
        end.not_dot,
        end.not_space,
      )
      (last (contains_text device_names (to_ascii_uppercase (trim_end is_whitespace (stem_of t)))))
  where
    within : ltb 255 (utf16_len t) ≡ false
    within = ground arith

    last : (b : Bool) → (outcome b ≡ ok tt) ⊎ (outcome b ≡ err device)
    last true = inr refl
    last false = inl refl

-- For every title and every normalization, `check_name` takes the name that `sanitize` makes or
-- refuses it as the name of a device: its other complaints do not occur.
pub check_name-sanitize :
    (nfc : Text → Text) (title : Text)
    → (check_name (sanitize nfc title) ≡ ok tt) ⊎ (check_name (sanitize nfc title) ≡ err device)
check_name-sanitize nfc title =
    let name = sanitize nfc title in
    let parts =
      any_parts (λ z. ltb z 0x20) (λ z. contains z forbidden) name (sanitize_good nfc title) in
    check_name-remains name (sanitize-HasGoodEnd nfc title)
      (omega (arith, utf16-le-utf8 name, utf8_len-sanitize nfc title)) parts.0 parts.1
