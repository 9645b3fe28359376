-- ===== src/Plan/Sequence.antt =====
-- crates/cfapi/src/plan.rs: the sequence of steps that `plan` returns.
use mathlib.Core.Path.{subst}
use elasticdms_desktop.Prelude.{
  ℕ, suc, ◌≤◌, ◌≡◌, refl, sym, ◌∙◌, List, [], ◌∷◌, ◌++◌, append-nil, All, arith,
}
use elasticdms_desktop.Text.{Text}
use elasticdms_desktop.Change.{Change}
use elasticdms_desktop.PathMap.{PathMap}
use elasticdms_desktop.Plan.{Step, Plan, plan_all, no_steps, steps_of, plan}
use elasticdms_desktop.Plan.Stages.{
  rank, HasRank, IsOrdered, staged, finalised, staging_names, first_names, IsPaired, staged-append,
  finalised-append, staging_names-append, plan_all-IsPaired, staged_none, finalised_none,
}

abbrev IsFrom : ℕ → Step → Type 0
IsFrom r s = r ≤ rank s

-- A block of one place before steps of later places.
module _ (r : ℕ) where
  block-IsFrom :
      (q : ℕ) (xs ys : List Step)
      → q ≤ r
      → All (HasRank r) xs
      → All (IsFrom (suc r)) ys
      → All (IsFrom q) (xs ++ ys)
  block-IsFrom q [] [] b h g = tt
  block-IsFrom q [] (y ∷ ys) b h g = (omega (arith, g.0), block-IsFrom q [] ys b h g.1)
  block-IsFrom q (x ∷ xs) ys b h g = (omega (arith, h.0), block-IsFrom q xs ys b h.1 g)

  block-IsOrdered :
      (xs ys : List Step)
      → All (HasRank r) xs
      → All (IsFrom (suc r)) ys
      → IsOrdered ys
      → IsOrdered (xs ++ ys)
  block-IsOrdered [] ys h g o = o
  block-IsOrdered (x ∷ xs) ys h g o =
      (block-IsFrom (rank x) xs ys (omega (arith, h.0)) h.1 g, block-IsOrdered xs ys h.1 g o)

-- A block that is followed by nothing.
lone : (r : ℕ) (xs : List Step) → All (HasRank r) xs → All (IsFrom r) xs × IsOrdered xs
lone r xs h = (
  subst (λ l. All (IsFrom r) l) (append-nil xs) (block-IsFrom r r xs [] (omega arith) h tt),
  subst IsOrdered (append-nil xs) (block-IsOrdered r xs [] h tt tt),
)

no_steps-IsPaired : (names : ℕ → Text) → IsPaired names no_steps
unfolding staged finalised staging_names first_names
no_steps-IsPaired names = record {
  removals_first = tt;
  between_second = tt;
  finals_third = tt;
  updates_fourth = tt;
  creations_last = tt;
  paired = refl;
  named = refl;
}

filled :
    (names : ℕ → Text) (map : PathMap) (cs : List Change)
    → IsPaired names (plan_all names map cs no_steps)
filled names map cs = plan_all-IsPaired names map cs no_steps (no_steps-IsPaired names)

-- For every list of changes and every map, the steps come in the order: removals, staging names,
-- final names, updates, creations.
pub plan-IsOrdered :
    (names : ℕ → Text) (map : PathMap) (cs : List Change) → IsOrdered (plan names map cs)
unfolding plan
plan-IsOrdered names map cs =
    let i = filled names map cs in
    let p = plan_all names map cs no_steps in
    let last = lone 4 p.creations i.creations_last in
    let fourth = block-IsFrom 3 3 p.updates p.creations (omega arith) i.updates_fourth last.0 in
    let third =
      block-IsFrom 2 2 p.finals (p.updates ++ p.creations) (omega arith) i.finals_third fourth in
    let second =
      block-IsFrom 1 1 p.between (p.finals ++ (p.updates ++ p.creations)) (omega arith)
        i.between_second third in
    block-IsOrdered 0 p.removals (p.between ++ (p.finals ++ (p.updates ++ p.creations)))
      i.removals_first second
      (block-IsOrdered 1 p.between (p.finals ++ (p.updates ++ p.creations)) i.between_second third (
        block-IsOrdered 2 p.finals (p.updates ++ p.creations) i.finals_third fourth
          (block-IsOrdered 3 p.updates p.creations i.updates_fourth last.0 last.1)))

abbrev append5 {ℓ} : {A : Type ℓ} → List A → List A → List A → List A → List A → List A
append5 a b c d e = a ++ (b ++ (c ++ (d ++ e)))

-- What a function that respects concatenation makes of the five lists.
over_steps :
    {A : Type 0} (f : List Step → List A) (p : Plan)
    → ((xs ys : List Step) → f (xs ++ ys) ≡ f xs ++ f ys)
    → f (steps_of p)
      ≡ append5 (f p.removals) (f p.between) (f p.finals) (f p.updates) (f p.creations)
over_steps f p h = rw (
  h p.removals (p.between ++ (p.finals ++ (p.updates ++ p.creations))),
  h p.between (p.finals ++ (p.updates ++ p.creations)),
  h p.finals (p.updates ++ p.creations),
  h p.updates p.creations,
)

only_second :
    {A : Type 0} (a b c d e : List A) → a ≡ [] → c ≡ [] → d ≡ [] → e ≡ [] → append5 a b c d e ≡ b
only_second a b c d e ha hc hd he = rw (ha, hc, hd, he) (append-nil b)

only_third :
    {A : Type 0} (a b c d e : List A) → a ≡ [] → b ≡ [] → d ≡ [] → e ≡ [] → append5 a b c d e ≡ c
only_third a b c d e ha hb hd he = rw (ha, hb, hd, he) (append-nil c)

module _ (names : ℕ → Text) (p : Plan) (i : IsPaired names p) where
  staged-steps_of : staged (steps_of p) ≡ staged p.between
  staged-steps_of =
      over_steps staged p staged-append
      ∙ only_second (staged p.removals) (staged p.between) (staged p.finals) (staged p.updates)
          (staged p.creations) (staged_none 0 p.removals i.removals_first refl).0
          (staged_none 2 p.finals i.finals_third refl).0
          (staged_none 3 p.updates i.updates_fourth refl).0
          (staged_none 4 p.creations i.creations_last refl).0

  staging_names-steps_of : staging_names (steps_of p) ≡ staging_names p.between
  staging_names-steps_of =
      over_steps staging_names p staging_names-append
      ∙ only_second (staging_names p.removals) (staging_names p.between) (staging_names p.finals)
          (staging_names p.updates) (staging_names p.creations)
          (staged_none 0 p.removals i.removals_first refl).1
          (staged_none 2 p.finals i.finals_third refl).1
          (staged_none 3 p.updates i.updates_fourth refl).1
          (staged_none 4 p.creations i.creations_last refl).1

  finalised-steps_of : finalised (steps_of p) ≡ finalised p.finals
  finalised-steps_of =
      over_steps finalised p finalised-append
      ∙ only_third (finalised p.removals) (finalised p.between) (finalised p.finals)
          (finalised p.updates) (finalised p.creations)
          (finalised_none 0 p.removals i.removals_first refl)
          (finalised_none 1 p.between i.between_second refl)
          (finalised_none 3 p.updates i.updates_fourth refl)
          (finalised_none 4 p.creations i.creations_last refl)

-- For every list of changes and every map, the entries that get a staging name are, in their
-- order, those that get a final name, and the staging names are the first names of the sequence,
-- each taken once.
pub plan_paired :
    (names : ℕ → Text) (map : PathMap) (cs : List Change)
    → (staged (plan names map cs) ≡ finalised (plan names map cs))
      × ((n : ℕ) × (staging_names (plan names map cs) ≡ first_names names n))
unfolding plan
plan_paired names map cs =
    let i = filled names map cs in
    let p = plan_all names map cs no_steps in
    (
      staged-steps_of names p i ∙ i.paired ∙ sym (finalised-steps_of names p i),
      (p.asked, staging_names-steps_of names p i ∙ i.named),
    )
