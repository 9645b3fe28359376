-- ===== src/Filename/Ends.antt =====
-- crates/core/src/filename.rs: how a sanitized title begins and ends.
use elasticdms_desktop.Prelude.{
  ℕ, zero, suc, ◌≡◌, refl, Bool, true, false, [], ◌∷◌, ◌++◌, ◌==◌, if◌then◌else◌, length, take,
  drop, arith, Bool-cases, inl, inr,
}
use elasticdms_desktop.Text.{Text}
use elasticdms_desktop.Filename.{
  is_whitespace, trim_start, keep_front, trim_end, trim, truncate, truncate_on_bytes, bounded,
  unnamed, max_title_bytes, dot_or_space, is_dot, sanitize, avoid_device, clean, contains_text,
  reserved_names, stem_of, to_ascii_uppercase,
}
use elasticdms_desktop.Checks.{ends_with}

ends-keep_front :
    (p : ℕ → Bool) (z c : ℕ) (t : Text)
    → (c == z ≡ true → p c ≡ true)
    → ends_with z t ≡ false
    → ends_with z (keep_front p c t) ≡ false
ends-keep_front p z c [] h g = elim (Bool-cases (p c)) [
  | inl e ↦ rw e
  | inr e ↦ rw e (ground (arith, h))
]
ends-keep_front p z c (d ∷ t) h g = g

ends-trim_end :
    (p : ℕ → Bool) (z : ℕ) (t : Text)
    → ((c : ℕ) → c == z ≡ true → p c ≡ true)
    → ends_with z (trim_end p t) ≡ false
unfolding trim_end
ends-trim_end p z [] h = refl
ends-trim_end p z (c ∷ t) h = ends-keep_front p z c (trim_end p t) (h c) (ends-trim_end p z t h)

-- A title that is neither empty nor ends in a dot or a space, and does not begin with white space.
abbrev pub starts_with_space : Text → Bool
starts_with_space [] = false
starts_with_space (c ∷ t) = is_whitespace c

pub record IsTrimmed (t : Text) : Type 0 where
  pub not_empty : length t == 0 ≡ false
  pub no_dot : ends_with b'.' t ≡ false
  pub no_space : ends_with b' ' t ≡ false
  pub no_start : starts_with_space t ≡ false

starts-trim_start : (t : Text) → starts_with_space (trim_start is_whitespace t) ≡ false
unfolding trim_start
starts-trim_start [] = refl
starts-trim_start (c ∷ t) = elim (Bool-cases (is_whitespace c)) [
  | inl e ↦ rw (e, trim_start) (starts-trim_start t)
  | inr e ↦ rw (e, trim_start) e
]

starts-keep_front :
    (p : ℕ → Bool) (c : ℕ) (t : Text)
    → is_whitespace c ≡ false
    → starts_with_space (keep_front p c t) ≡ false
starts-keep_front p c [] h = elim (Bool-cases (p c)) [ inl e ↦ rw e | inr e ↦ rw e h ]
starts-keep_front p c (d ∷ t) h = h

starts-trim_end :
    (p : ℕ → Bool) (t : Text)
    → starts_with_space t ≡ false
    → starts_with_space (trim_end p t) ≡ false
unfolding trim_end
starts-trim_end p [] h = refl
starts-trim_end p (c ∷ t) h = starts-keep_front p c (trim_end p t) h

starts-truncate :
    (n : ℕ) (t : Text)
    → starts_with_space t ≡ false
    → starts_with_space (truncate_on_bytes t n) ≡ false
unfolding truncate_on_bytes truncate
starts-truncate n [] h = ground arith
starts-truncate n (c ∷ t) h = ground arith

suc_nonzero : (n : ℕ) → suc n == 0 ≡ false
suc_nonzero n = ground arith

pub bounded-IsTrimmed : (t : Text) → IsTrimmed (bounded t)
unfolding bounded is_whitespace
bounded-IsTrimmed t =
    let whole = trim_start is_dot t in
    let cut = truncate_on_bytes (trim whole) max_title_bytes in
    or_unnamed (trim_end dot_or_space cut) (ends-trim_end dot_or_space b'.' cut (λ c h. dot c h))
      (ends-trim_end dot_or_space b' ' cut (λ c h. space c h))
      (starts-trim_end dot_or_space cut (
        starts-truncate max_title_bytes (trim whole) (
          starts-trim_end is_whitespace (trim_start is_whitespace whole)
            (starts-trim_start whole))))
  where
    dot : (c : ℕ) → c == b'.' ≡ true → dot_or_space c ≡ true
    dot c h = ground arith

    space : (c : ℕ) → c == b' ' ≡ true → dot_or_space c ≡ true
    space c h = ground arith

    or_unnamed :
        (s : Text)
        → ends_with b'.' s ≡ false
        → ends_with b' ' s ≡ false
        → starts_with_space s ≡ false
        → IsTrimmed (if length s == 0 then unnamed else s)
    or_unnamed [] d p w = record {
      not_empty = refl;
      no_dot = refl;
      no_space = refl;
      no_start = refl;
    }
    or_unnamed (c ∷ s) d p w =
        rw (suc_nonzero (length s))
          (record { not_empty = suc_nonzero (length s); no_dot = d; no_space = p; no_start = w })

-- What is put in the middle of a text does not change its end.
ends-insert :
    (z u n : ℕ) (t : Text)
    → u == z ≡ false
    → ends_with z t ≡ false
    → ends_with z (take n t ++ u ∷ drop n t) ≡ false
ends-insert z u zero [] h g = h
ends-insert z u zero (c ∷ t) h g = g
ends-insert z u (suc n) [] h g = h
ends-insert z u (suc zero) (c ∷ []) h g = h
ends-insert z u (suc zero) (c ∷ d ∷ t) h g = g
ends-insert z u (suc (suc n)) (c ∷ []) h g = h
ends-insert z u (suc (suc n)) (c ∷ d ∷ t) h g = ends-insert z u (suc n) (d ∷ t) h g

insert_nonempty : (u n : ℕ) (t : Text) → length (take n t ++ u ∷ drop n t) == 0 ≡ false
insert_nonempty u zero t = suc_nonzero (length t)
insert_nonempty u (suc n) [] = refl
insert_nonempty u (suc n) (c ∷ t) = suc_nonzero (length (take n t ++ u ∷ drop n t))

-- The name that `sanitize` returns is not empty and ends in neither a dot nor a space.
pub record HasGoodEnd (t : Text) : Type 0 where
  pub has_char : length t == 0 ≡ false
  pub not_dot : ends_with b'.' t ≡ false
  pub not_space : ends_with b' ' t ≡ false

pub sanitize-HasGoodEnd : (nfc : Text → Text) (title : Text) → HasGoodEnd (sanitize nfc title)
unfolding sanitize avoid_device
sanitize-HasGoodEnd nfc title =
    let from = bounded (clean [] false (nfc title)) in
    let stem = trim (to_ascii_uppercase (stem_of from)) in
    inserted (contains_text reserved_names stem) from (length stem)
      (bounded-IsTrimmed (clean [] false (nfc title)))
  where
    inserted :
        (b : Bool) (from : Text) (n : ℕ)
        → IsTrimmed from
        → HasGoodEnd (if b then take n from ++ b'_' ∷ drop n from else from)
    inserted true from n h = record {
      has_char = insert_nonempty b'_' n from;
      not_dot = ends-insert b'.' b'_' n from refl (h.no_dot);
      not_space = ends-insert b' ' b'_' n from refl (h.no_space);
    }
    inserted false from n h = record {
      has_char = h.not_empty;
      not_dot = h.no_dot;
      not_space = h.no_space;
    }
