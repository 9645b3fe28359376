-- ===== src/Filename/Characters.antt =====
-- crates/core/src/filename.rs: the characters of a sanitized title, and how many there are.
use elasticdms_desktop.Prelude.{
  ℕ, zero, suc, ◌-◌, ◌≡◌, refl, Bool, true, false, not, ◌&&◌, ◌||◌, [], ◌∷◌, ◌++◌, ltb, ◌==◌,
  if◌then◌else◌, length, take, drop, arith,
}
use elasticdms_desktop.Text.{Text, contains, utf8_width}
use elasticdms_desktop.Filename.{
  is_control, is_whitespace, replace, clean, push_char, trim_start, keep_front, trim_end, trim,
  truncate, truncate_on_bytes, bounded, avoid_device, sanitize, unnamed, max_title_bytes,
  dot_or_space, is_dot, contains_text, reserved_names, stem_of, to_ascii_uppercase,
}
use elasticdms_desktop.Checks.{forbidden, any}

-- A character that Windows refuses in a name.
abbrev pub is_bad : ℕ → Bool
is_bad c = ltb c 0x20 || contains c forbidden

any-append : (p : ℕ → Bool) (s t : Text) → any p (s ++ t) ≡ (any p s || any p t)
any-append p [] t = refl
any-append p (c ∷ s) t = ground (arith, any-append p s t)

replace_good : (c : ℕ) → is_bad (replace c) ≡ false
unfolding replace is_control
replace_good c = ground arith

push_char_good :
    (from : Text) (space : Bool) (c : ℕ)
    → any is_bad from ≡ false
    → is_bad c ≡ false
    → any is_bad (push_char from space c) ≡ false
unfolding push_char
push_char_good from space c h g = pushed (is_whitespace c) (not space && not (length from == 0))
  where
    pushed :
        (w b : Bool)
        → any is_bad (if w then (if b then from ++ b' ' ∷ [] else from) else from ++ c ∷ []) ≡ false
    pushed true true = rw (any-append is_bad from (b' ' ∷ [])) (rw h)
    pushed true false = h
    pushed false b = rw (any-append is_bad from (c ∷ [])) (rw (h, g))

clean_good :
    (from : Text) (space : Bool) (t : Text)
    → any is_bad from ≡ false
    → any is_bad (clean from space t) ≡ false
unfolding clean
clean_good from space [] h = h
clean_good from space (c ∷ t) h =
    clean_good (push_char from space (replace c)) (is_whitespace (replace c)) t
      (push_char_good from space (replace c) h (replace_good c))

module _ (p : ℕ → Bool) where
  any-trim_start : (q : ℕ → Bool) (t : Text) → any p t ≡ false → any p (trim_start q t) ≡ false
  unfolding trim_start
  any-trim_start q [] h = refl
  any-trim_start q (c ∷ t) h = ground (arith, any-trim_start q t)

  any-keep_front :
      (q : ℕ → Bool) (c : ℕ) (t : Text) → any p (c ∷ t) ≡ false → any p (keep_front q c t) ≡ false
  any-keep_front q c [] h = ground arith
  any-keep_front q c (d ∷ t) h = h

  any-trim_end : (q : ℕ → Bool) (t : Text) → any p t ≡ false → any p (trim_end q t) ≡ false
  unfolding trim_end
  any-trim_end q [] h = refl
  any-trim_end q (c ∷ t) h = any-keep_front q c (trim_end q t) (ground (arith, any-trim_end q t))

  any-truncate : (n : ℕ) (t : Text) → any p t ≡ false → any p (truncate n t) ≡ false
  unfolding truncate
  any-truncate n [] h = refl
  any-truncate n (c ∷ t) h = ground (arith, any-truncate (n - utf8_width c) t)

  any-take : (n : ℕ) (t : Text) → any p t ≡ false → any p (take n t) ≡ false
  any-take zero t h = refl
  any-take (suc n) [] h = refl
  any-take (suc n) (c ∷ t) h = ground (arith, any-take n t)

  any-drop : (n : ℕ) (t : Text) → any p t ≡ false → any p (drop n t) ≡ false
  any-drop zero t h = h
  any-drop (suc n) [] h = refl
  any-drop (suc n) (c ∷ t) h = any-drop n t (ground arith)

bounded_good : (t : Text) → any is_bad t ≡ false → any is_bad (bounded t) ≡ false
unfolding bounded
bounded_good t h =
    let cut = truncate_on_bytes (trim (trim_start is_dot t)) max_title_bytes in
    or_unnamed (length (trim_end dot_or_space cut) == 0) (trim_end dot_or_space cut) (
      any-trim_end is_bad dot_or_space cut (
        truncated (trim (trim_start is_dot t)) (
          any-trim_end is_bad is_whitespace (trim_start is_whitespace (trim_start is_dot t)) (
            any-trim_start is_bad is_whitespace (trim_start is_dot t)
              (any-trim_start is_bad is_dot t h)))))
  where
    truncated :
        (t : Text) → any is_bad t ≡ false → any is_bad (truncate_on_bytes t max_title_bytes) ≡ false
    truncated t h = ground (arith, any-truncate is_bad max_title_bytes t)

    or_unnamed :
        (b : Bool) (t : Text) → any is_bad t ≡ false → any is_bad (if b then unnamed else t) ≡ false
    or_unnamed true t h = refl
    or_unnamed false t h = h

-- No character of a sanitized title is refused.
pub sanitize_good : (nfc : Text → Text) (title : Text) → any is_bad (sanitize nfc title) ≡ false
unfolding sanitize avoid_device
sanitize_good nfc title =
    let from = bounded (clean [] false (nfc title)) in
    let stem = trim (to_ascii_uppercase (stem_of from)) in
    inserted (contains_text reserved_names stem) from (length stem)
      (bounded_good (clean [] false (nfc title)) (clean_good [] false (nfc title) refl))
  where
    inserted :
        (b : Bool) (from : Text) (n : ℕ)
        → any is_bad from ≡ false
        → any is_bad (if b then take n from ++ b'_' ∷ drop n from else from) ≡ false
    inserted true from n h =
        rw (any-append is_bad (take n from) (b'_' ∷ drop n from))
          (rw (any-take is_bad n from h, any-drop is_bad n from h))
    inserted false from n h = h

pub any_parts :
    (p q : ℕ → Bool) (t : Text)
    → any (λ c. p c || q c) t ≡ false
    → (any p t ≡ false) × (any q t ≡ false)
any_parts p q [] h = (refl, refl)
any_parts p q (c ∷ t) h = ground (arith, any_parts p q t)
