-- ===== src/Paths/Below.antt =====
-- crates/cfapi/src/path.rs: lying below a path.
use mathlib.Core.Path.{subst}
use elasticdms_desktop.Prelude.{
  ℕ, suc, ◌↔◌, ◌≡◌, ◌⊎◌, inl, inr, refl, sym, ap, ◌∙◌, Bool, true, false, ◌||◌, Option, none, some,
  [], ◌∷◌, ◌++◌, append_assoc, ◌==◌, ==_iff, length, arith, Bool-cases,
}
use elasticdms_desktop.Text.{
  Text, text_eq, text_eq→eq, text_eq_refl, strip_prefix, strip_prefix-append, append-strip_prefix,
}
use elasticdms_desktop.Paths.{separator, starts_with_separator, is_below}

-- What `is_below` decides: the top is the root or the path itself, or the path goes on behind it with
-- a separator.
abbrev pub LiesBelow : Text → Text → Type 0
LiesBelow key top = (top ≡ []) ⊎ ((key ≡ top) ⊎ ((rest : Text) × (key ≡ top ++ separator ∷ rest)))

LiesBelow→is_below : (key top : Text) → LiesBelow key top → is_below key top ≡ true
unfolding is_below
LiesBelow→is_below key top (inl e) = rw e
LiesBelow→is_below key top (inr (inl e)) = rw e (ground (arith, text_eq_refl top))
LiesBelow→is_below key top (inr (inr (rest, e))) = rw e (
    rw (strip_prefix-append top (separator ∷ rest))
      (or_true (length top == 0) (text_eq (top ++ separator ∷ rest) top)))
  where
    or_true : (a b : Bool) → (a || (b || true)) ≡ true
    or_true a b = ground arith

is_below→LiesBelow : (key top : Text) → is_below key top ≡ true → LiesBelow key top
unfolding is_below
is_below→LiesBelow key [] h = inl refl
is_below→LiesBelow key (c ∷ top) h = elim (Bool-cases (text_eq key (c ∷ top))) [
  | inl e ↦ inr (inl (text_eq→eq key (c ∷ top) e))
  | inr e ↦ behind (strip_prefix (c ∷ top) key) refl (
      nonempty (length top) (text_eq key (c ∷ top))
        (starts_with_separator (strip_prefix (c ∷ top) key)) e h)
]
  where
    nonempty : (n : ℕ) (x y : Bool) → x ≡ false → (suc n == 0 || (x || y)) ≡ true → y ≡ true
    nonempty n x y e h = ground arith

    behind :
        (o : Option Text)
        → strip_prefix (c ∷ top) key ≡ o
        → starts_with_separator o ≡ true
        → LiesBelow key (c ∷ top)
    behind none e h = absurd cc
    behind (some []) e h = absurd cc
    behind (some (d ∷ rest)) e h = inr (
        inr (
          rest,
          append-strip_prefix (c ∷ top) key (d ∷ rest) e
              ∙ ap (λ x. (c ∷ top) ++ x ∷ rest) ((==_iff d separator).0 h),
        ))

no_suffix : (c : Text) (x : ℕ) (r : Text) → [] ≡ c ++ x ∷ r → ⊥
no_suffix [] x r h = ground arith
no_suffix (y ∷ c) x r h = ground arith

LiesBelow-trans : (a b c : Text) → LiesBelow a b → LiesBelow b c → LiesBelow a c
LiesBelow-trans a b c h (inl e) = inl e
LiesBelow-trans a b c h (inr (inl e)) = subst (LiesBelow a) e h
LiesBelow-trans a b c (inl e) (inr (inr (r, g))) = absurd (no_suffix c separator r (sym e ∙ g))
LiesBelow-trans a b c (inr (inl e)) (inr (inr (r, g))) = inr (inr (r, e ∙ g))
LiesBelow-trans a b c (inr (inr (q, e))) (inr (inr (r, g))) = inr (
    inr (
      r ++ separator ∷ q,
      e ∙ ap (λ l. l ++ separator ∷ q) g ∙ append_assoc c (separator ∷ r) (separator ∷ q),
    ))

-- Whatever lies below a path that lies below the top lies below the top.
pub is_below_trans :
    (a b c : Text) → is_below a b ≡ true → is_below b c ≡ true → is_below a c ≡ true
is_below_trans a b c h g =
    LiesBelow→is_below a c
      (LiesBelow-trans a b c (is_below→LiesBelow a b h) (is_below→LiesBelow b c g))

-- A path counts as below a top exactly if the top is the root, the path is the top, or the path
-- goes on behind the top with a separator.
pub is_below_iff : (key top : Text) → (is_below key top ≡ true) ↔ LiesBelow key top
is_below_iff key top = (is_below→LiesBelow key top, LiesBelow→is_below key top)
