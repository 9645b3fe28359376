-- ===== src/Filename/Lengths.antt =====
-- crates/core/src/filename.rs: the bound on the length of a sanitized title.
use elasticdms_desktop.Prelude.{
  ℕ, ◌+◌, ◌-◌, ◌≤◌, ◌≡◌, ap, Bool, true, false, [], ◌∷◌, ◌++◌, ltb, leb, leb→le, ◌==◌,
  if◌then◌else◌, length, take, drop, take-append-drop, arith, Bool-cases, inl, inr,
}
use elasticdms_desktop.Text.{Text, utf8_width, utf8_len}
use elasticdms_desktop.Filename.{
  clean, trim_start, keep_front, trim_end, trim, truncate, truncate_on_bytes, bounded, avoid_device,
  sanitize, unnamed, max_title_bytes, dot_or_space, is_dot, contains_text, reserved_names, stem_of,
  to_ascii_uppercase,
}
use elasticdms_desktop.Checks.{utf16_len}

utf8_len-append : (s t : Text) → utf8_len (s ++ t) ≡ utf8_len s + utf8_len t
utf8_len-append [] t = omega arith
utf8_len-append (c ∷ s) t = omega (arith, utf8_len-append s t)

utf8_len-keep_front :
    (q : ℕ → Bool) (c : ℕ) (t : Text) → utf8_len (keep_front q c t) ≤ utf8_width c + utf8_len t
utf8_len-keep_front q c [] = ground arith
utf8_len-keep_front q c (d ∷ t) = omega arith

utf8_len-trim_end : (q : ℕ → Bool) (t : Text) → utf8_len (trim_end q t) ≤ utf8_len t
unfolding trim_end
utf8_len-trim_end q [] = omega arith
utf8_len-trim_end q (c ∷ t) =
    omega (arith, utf8_len-keep_front q c (trim_end q t), utf8_len-trim_end q t)

utf8_len-truncate : (n : ℕ) (t : Text) → utf8_len (truncate n t) ≤ n
unfolding truncate
utf8_len-truncate n [] = omega arith
utf8_len-truncate n (c ∷ t) = elim (Bool-cases (leb (utf8_width c) n)) [
  | inl e ↦
      rw (e, truncate)
        (omega (arith, leb→le (utf8_width c) n e, utf8_len-truncate (n - utf8_width c) t))
  | inr e ↦ rw (e, truncate) (omega arith)
]

pub utf16-le-utf8 : (t : Text) → utf16_len t ≤ utf8_len t
utf16-le-utf8 [] = omega arith
utf16-le-utf8 (c ∷ t) = omega (arith, one c, utf16-le-utf8 t)
  where
    one : (c : ℕ) → (if ltb c 0x10000 then 1 else 2) ≤ utf8_width c
    one c = ground arith

-- A sanitized title has at most 181 bytes: 180, and one more for the underscore of a device name.
pub utf8_len-sanitize :
    (nfc : Text → Text) (title : Text) → utf8_len (sanitize nfc title) ≤ max_title_bytes + 1
unfolding sanitize avoid_device bounded truncate_on_bytes
utf8_len-sanitize nfc title =
    let t = trim (trim_start is_dot (clean [] false (nfc title))) in
    let cut = trim_end dot_or_space (truncate_on_bytes t max_title_bytes) in
    let from = bounded (clean [] false (nfc title)) in
    let stem = trim (to_ascii_uppercase (stem_of from)) in
    inserted (contains_text reserved_names stem) from (length stem) (
      or_unnamed (length cut == 0) cut (
        omega
          (arith, utf8_len-trim_end dot_or_space (truncate_on_bytes t max_title_bytes), bound t)))
  where
    bound : (t : Text) → utf8_len (truncate_on_bytes t max_title_bytes) ≤ max_title_bytes
    bound t = ground (arith, utf8_len-truncate max_title_bytes t)

    or_unnamed :
        (b : Bool) (t : Text)
        → utf8_len t ≤ max_title_bytes
        → utf8_len (if b then unnamed else t) ≤ max_title_bytes
    or_unnamed true t h = omega arith
    or_unnamed false t h = h

    inserted :
        (b : Bool) (from : Text) (n : ℕ)
        → utf8_len from ≤ max_title_bytes
        → utf8_len (if b then take n from ++ b'_' ∷ drop n from else from) ≤ max_title_bytes + 1
    inserted true from n h = omega (
      arith,
      utf8_len-append (take n from) (b'_' ∷ drop n from),
      utf8_len-append (take n from) (drop n from),
      ap utf8_len (take-append-drop n from),
    )
    inserted false from n h = omega arith
