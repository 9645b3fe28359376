-- ===== src/Plan/Stages.antt =====
-- crates/cfapi/src/plan.rs: the order of the steps, and the two stages of a renaming.
use elasticdms_desktop.Prelude.{
  ℕ, zero, suc, ◌+◌, ◌≤◌, ◌≡◌, refl, sym, ap, ◌∙◌, Bool, true, false, not, ◌&&◌, ◌||◌, Option, none,
  some, List, [], ◌∷◌, ◌++◌, if◌then◌else◌, ◌==◌, All, arith,
}
use elasticdms_desktop.Text.{Text, text_eq}
use elasticdms_desktop.Namespace.{EntryIdentifier}
use elasticdms_desktop.Namespace.EntryIds.{parent}
use elasticdms_desktop.Namespace.Entries.{Entry, is_folder, file_of}
use elasticdms_desktop.Change.{Change, new, changed, removed, identifier, content_stale}
use elasticdms_desktop.PathMap.{Location, PathMap, location, knows}
use elasticdms_desktop.Plan.{
  Step, remove, staging_name, final_name, update, create, Plan, staging, renaming, updating,
  creating, removing, should_at, should, same_kind, same_details, plan_change, lies_in_populated,
  plan_all,
}

-- The place of a step in the order of execution.
abbrev pub rank : Step → ℕ
rank (remove _) = 0
rank (staging_name _ _) = 1
rank (final_name _ _) = 2
rank (update _ _) = 3
rank (create _) = 4

abbrev pub HasRank : ℕ → Step → Type 0
HasRank r s = rank s ≡ r

-- No step stands before one of a lower place.
abbrev pub IsOrdered : List Step → Type 0
IsOrdered [] = Unit
IsOrdered (s ∷ ss) = All (λ t. rank s ≤ rank t) ss × IsOrdered ss

-- Who gets a staging name, who gets a final name, and the staging names.
unfoldable pub staged : List Step → List EntryIdentifier
staged [] = []
staged (staging_name k _ ∷ ss) = k ∷ staged ss
staged (_ ∷ ss) = staged ss

unfoldable pub finalised : List Step → List EntryIdentifier
finalised [] = []
finalised (final_name k _ ∷ ss) = k ∷ finalised ss
finalised (_ ∷ ss) = finalised ss

unfoldable pub staging_names : List Step → List Text
staging_names [] = []
staging_names (staging_name _ n ∷ ss) = n ∷ staging_names ss
staging_names (_ ∷ ss) = staging_names ss

-- The first `n` names of the sequence.
unfoldable pub first_names : (ℕ → Text) → ℕ → List Text
first_names names zero = []
first_names names (suc n) = first_names names n ++ names n ∷ []

pub All-append {ℓ κ} :
    {A : Type ℓ} (P : A → Type κ) (xs ys : List A) → All P xs → All P ys → All P (xs ++ ys)
All-append P [] ys h g = g
All-append P (x ∷ xs) ys h g = (h.0, All-append P xs ys h.1 g)

-- The five lists hold what their names say, and the stages of a renaming come in pairs.
pub record IsPaired (names : ℕ → Text) (p : Plan) : Type 0 where
  pub removals_first : All (HasRank 0) p.removals
  pub between_second : All (HasRank 1) p.between
  pub finals_third : All (HasRank 2) p.finals
  pub updates_fourth : All (HasRank 3) p.updates
  pub creations_last : All (HasRank 4) p.creations
  pub paired : staged p.between ≡ finalised p.finals
  pub named : staging_names p.between ≡ first_names names p.asked

pub staged-append : (xs ys : List Step) → staged (xs ++ ys) ≡ staged xs ++ staged ys
unfolding staged
staged-append [] ys = refl
staged-append (remove _ ∷ xs) ys = staged-append xs ys
staged-append (staging_name k _ ∷ xs) ys = ap (λ l. k ∷ l) (staged-append xs ys)
staged-append (final_name _ _ ∷ xs) ys = staged-append xs ys
staged-append (update _ _ ∷ xs) ys = staged-append xs ys
staged-append (create _ ∷ xs) ys = staged-append xs ys

pub finalised-append : (xs ys : List Step) → finalised (xs ++ ys) ≡ finalised xs ++ finalised ys
unfolding finalised
finalised-append [] ys = refl
finalised-append (remove _ ∷ xs) ys = finalised-append xs ys
finalised-append (staging_name _ _ ∷ xs) ys = finalised-append xs ys
finalised-append (final_name k _ ∷ xs) ys = ap (λ l. k ∷ l) (finalised-append xs ys)
finalised-append (update _ _ ∷ xs) ys = finalised-append xs ys
finalised-append (create _ ∷ xs) ys = finalised-append xs ys

pub staging_names-append :
    (xs ys : List Step) → staging_names (xs ++ ys) ≡ staging_names xs ++ staging_names ys
unfolding staging_names
staging_names-append [] ys = refl
staging_names-append (remove _ ∷ xs) ys = staging_names-append xs ys
staging_names-append (staging_name _ n ∷ xs) ys = ap (λ l. n ∷ l) (staging_names-append xs ys)
staging_names-append (final_name _ _ ∷ xs) ys = staging_names-append xs ys
staging_names-append (update _ _ ∷ xs) ys = staging_names-append xs ys
staging_names-append (create _ ∷ xs) ys = staging_names-append xs ys

either_way : (P : Plan → Type 0) (b : Bool) {x y : Plan} → P x → P y → P (if b then x else y)
either_way P true h g = h
either_way P false h g = g

module _ (names : ℕ → Text) where
  staging-IsPaired : (e : Entry) (p : Plan) → IsPaired names p → IsPaired names (staging names e p)
  unfolding staged finalised staging_names first_names
  staging-IsPaired e p i = record {
    removals_first = i.removals_first;
    between_second =
        All-append (HasRank 1) p.between (staging_name e.identifier (names p.asked) ∷ [])
          i.between_second (refl, tt);
    finals_third =
        All-append (HasRank 2) p.finals (final_name e.identifier e.name ∷ []) i.finals_third
          (refl, tt);
    updates_fourth = i.updates_fourth;
    creations_last = i.creations_last;
    paired =
        staged-append p.between (staging_name e.identifier (names p.asked) ∷ [])
        ∙ ap (λ (l : List EntryIdentifier). l ++ e.identifier ∷ []) i.paired
        ∙ sym (finalised-append p.finals (final_name e.identifier e.name ∷ []));
    named =
        staging_names-append p.between (staging_name e.identifier (names p.asked) ∷ [])
        ∙ ap (λ (l : List Text). l ++ names p.asked ∷ []) i.named
        ∙ ap (first_names names) (one_more p.asked);
  }
    where
      one_more : (n : ℕ) → suc n ≡ n + 1
      one_more n = omega arith

  updating-IsPaired :
      (e : Entry) (b d : Bool) (p : Plan) → IsPaired names p → IsPaired names (updating e b d p)
  updating-IsPaired e b d p i =
      either_way (IsPaired names) (not (is_folder e) && (b || d))
        (record {
          removals_first = i.removals_first;
          between_second = i.between_second;
          finals_third = i.finals_third;
          updates_fourth =
              All-append (HasRank 3) p.updates (update e b ∷ []) i.updates_fourth (refl, tt);
          creations_last = i.creations_last;
          paired = i.paired;
          named = i.named;
        })
        i

  creating-IsPaired : (e : Entry) (p : Plan) → IsPaired names p → IsPaired names (creating e p)
  creating-IsPaired e p i = record {
    removals_first = i.removals_first;
    between_second = i.between_second;
    finals_third = i.finals_third;
    updates_fourth = i.updates_fourth;
    creations_last = All-append (HasRank 4) p.creations (create e ∷ []) i.creations_last (refl, tt);
    paired = i.paired;
    named = i.named;
  }

  removing-IsPaired :
      (k : EntryIdentifier) (p : Plan) → IsPaired names p → IsPaired names (removing k p)
  removing-IsPaired k p i = record {
    removals_first = All-append (HasRank 0) p.removals (remove k ∷ []) i.removals_first (refl, tt);
    between_second = i.between_second;
    finals_third = i.finals_third;
    updates_fourth = i.updates_fourth;
    creations_last = i.creations_last;
    paired = i.paired;
    named = i.named;
  }

  should_at-IsPaired :
      (o : Option Location) (e : Entry) (b d : Bool) (p : Plan)
      → IsPaired names p
      → IsPaired names (should_at o names e b d p)
  should_at-IsPaired none e b d p i = creating-IsPaired e p i
  should_at-IsPaired (some l) e b d p i =
      either_way (IsPaired names) (same_kind l.folder (is_folder e))
        (updating-IsPaired e b d (renaming names e l p)
          (either_way (IsPaired names) (text_eq l.name e.name) i (staging-IsPaired e p i)))
        (creating-IsPaired e (removing e.identifier p) (removing-IsPaired e.identifier p i))

  plan_change-IsPaired :
      (map : PathMap) (c : Change) (p : Plan)
      → IsPaired names p
      → IsPaired names (plan_change names map c p)
  unfolding plan_change should
  plan_change-IsPaired map (removed e) p i =
      either_way (IsPaired names) (knows map e.identifier) (removing-IsPaired e.identifier p i) i
  plan_change-IsPaired map (new e) p i =
      should_at-IsPaired (location map e.identifier) e false true p i
  plan_change-IsPaired map (changed before after) p i =
      should_at-IsPaired (location map after.identifier) after
        (content_stale (changed before after)) (not (same_details (file_of before) (file_of after)))
        p i

  pub plan_all-IsPaired :
      (map : PathMap) (cs : List Change) (p : Plan)
      → IsPaired names p
      → IsPaired names (plan_all names map cs p)
  unfolding plan_all
  plan_all-IsPaired map [] p i = i
  plan_all-IsPaired map (c ∷ cs) p i = plan_all-IsPaired map cs _ (
      either_way (IsPaired names) (lies_in_populated map (parent (identifier c)))
        (plan_change-IsPaired map c p i) i)

-- Steps of one place have no staging or final names but at that place.
pub staged_none :
    (r : ℕ) (xs : List Step)
    → All (HasRank r) xs
    → (r == 1) ≡ false
    → (staged xs ≡ []) × (staging_names xs ≡ [])
unfolding staged staging_names
staged_none r [] h n = (refl, refl)
staged_none r (remove _ ∷ xs) h n = staged_none r xs h.1 n
staged_none r (staging_name _ _ ∷ xs) h n = absurd (ground (arith, h.0))
staged_none r (final_name _ _ ∷ xs) h n = staged_none r xs h.1 n
staged_none r (update _ _ ∷ xs) h n = staged_none r xs h.1 n
staged_none r (create _ ∷ xs) h n = staged_none r xs h.1 n

pub finalised_none :
    (r : ℕ) (xs : List Step) → All (HasRank r) xs → (r == 2) ≡ false → finalised xs ≡ []
unfolding finalised
finalised_none r [] h n = refl
finalised_none r (remove _ ∷ xs) h n = finalised_none r xs h.1 n
finalised_none r (staging_name _ _ ∷ xs) h n = finalised_none r xs h.1 n
finalised_none r (final_name _ _ ∷ xs) h n = absurd (ground (arith, h.0))
finalised_none r (update _ _ ∷ xs) h n = finalised_none r xs h.1 n
finalised_none r (create _ ∷ xs) h n = finalised_none r xs h.1 n
