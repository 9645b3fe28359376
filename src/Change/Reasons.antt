-- ===== src/Change/Reasons.antt =====
-- crates/core/src/change.rs: the order of the changes and their reasons.
use elasticdms_desktop.Prelude.{ℕ, ◌≤◌, ◌≡◌, false, none, some, List, [], ◌∷◌, ◌++◌, arith, All}
use elasticdms_desktop.Namespace.Entries.{Entry, entry_eq}
use elasticdms_desktop.Change.{
  Change, new, changed, removed, get, index, old_changes, additions, compare,
}

-- The place of a change in the output: what is removed first, then what changed, then what is new.
abbrev pub rank : Change → ℕ
rank (removed _) = 0
rank (changed _ _) = 1
rank (new _) = 2

abbrev pub AreRanked : ℕ → List Change → Type 0
AreRanked n [] = Unit
AreRanked n (c ∷ cs) = (n ≤ rank c) × AreRanked (rank c) cs

-- What the two listings say about an entry that a change names.
abbrev pub HasReason : List Entry → List Entry → Change → Type 0
HasReason old now (removed e) = get e.identifier now ≡ none
HasReason old now (changed before after) =
    (get before.identifier now ≡ some after) × (entry_eq after before ≡ false)
HasReason old now (new e) = get e.identifier old ≡ none

AreRanked-lower : (m n : ℕ) (cs : List Change) → m ≤ n → AreRanked n cs → AreRanked m cs
AreRanked-lower m n [] h r = tt
AreRanked-lower m n (c ∷ cs) h r = (omega arith, r.1)

-- Changes of one rank, before others that are not below it.
abbrev HasRank : ℕ → Change → Type 0
HasRank n c = rank c ≡ n

AreRanked-append :
    (n : ℕ) (cs ds : List Change) → All (HasRank n) cs → AreRanked n ds → AreRanked n (cs ++ ds)
AreRanked-append n [] ds h r = r
AreRanked-append n (c ∷ cs) ds h r = (omega arith, rw h.0 (AreRanked-append n cs ds h.1 r))

All-append {ℓ κ} :
    {A : Type ℓ} (P : A → Type κ) (xs ys : List A) → All P xs → All P ys → All P (xs ++ ys)
All-append P [] ys h g = g
All-append P (x ∷ xs) ys h g = (h.0, All-append P xs ys h.1 g)

module _ (now : List Entry) where
  old_changes-HasRank :
      (old : List Entry)
      → All (HasRank 0) (old_changes now old).0 × All (HasRank 1) (old_changes now old).1
  unfolding old_changes
  old_changes-HasRank [] = (tt, tt)
  old_changes-HasRank (f ∷ old) = ground (arith, old_changes-HasRank old)

  old_changes-HasReason :
      (all old : List Entry)
      → All (HasReason all now) (old_changes now old).0
        × All (HasReason all now) (old_changes now old).1
  unfolding old_changes
  old_changes-HasReason all [] = (tt, tt)
  old_changes-HasReason all (f ∷ old) = ground (arith, old_changes-HasReason all old)

module _ (old : List Entry) where
  additions-HasRank : (now : List Entry) → All (HasRank 2) (additions old now)
  unfolding additions
  additions-HasRank [] = tt
  additions-HasRank (f ∷ now) = ground (arith, additions-HasRank now)

  additions-HasReason : (all now : List Entry) → All (HasReason old all) (additions old now)
  unfolding additions
  additions-HasReason all [] = tt
  additions-HasReason all (f ∷ now) = ground (arith, additions-HasReason all now)

AreRanked-rank : (n : ℕ) (cs : List Change) → All (HasRank n) cs → AreRanked n cs
AreRanked-rank n [] h = tt
AreRanked-rank n (c ∷ cs) h = (omega arith, rw h.0 (AreRanked-rank n cs h.1))

-- Removals come first, then changes, then what is new; an entry is removed only if it is listed no
-- more, changed only to the differing entry that is listed now under its identifier, and new only
-- if it was not listed.
pub compare_reasons :
    (old now : List Entry)
    → AreRanked 0 (compare old now) × All (HasReason (index old) (index now)) (compare old now)
unfolding compare
compare_reasons old now =
    let o = index old in
    let n = index now in
    let (removals, changes) = old_changes n o in
    let added = additions o n in
    let (removal_rank, change_rank) = old_changes-HasRank n o in
    let (removal_reason, change_reason) = old_changes-HasReason n o o in
    (
      AreRanked-append 0 removals (changes ++ added) removal_rank (
          AreRanked-lower 0 1 (changes ++ added) (omega arith) (
            AreRanked-append 1 changes added change_rank (
              AreRanked-lower 1 2 added (omega arith)
                (AreRanked-rank 2 added (additions-HasRank o n))))),
      All-append (HasReason o n) removals (changes ++ added) removal_reason
          (All-append (HasReason o n) changes added change_reason (additions-HasReason o n n)),
    )
