-- ===== src/Change/Compare.antt =====
-- crates/core/src/change.rs: the computed changes applied to the remembered listing.
use elasticdms_desktop.Prelude.{
  ◌≡◌, ◌∙◌, refl, sym, ap, Option, none, some, List, [], ◌∷◌, ◌++◌, if◌then◌else◌, arith,
  Option-cases, inl, inr,
}
use elasticdms_desktop.Namespace.{EntryIdentifier}
use elasticdms_desktop.Namespace.Order.{id_eq, id_eq_iff}
use elasticdms_desktop.Namespace.Entries.{Entry, entry_eq→eq}
use elasticdms_desktop.Change.{
  Change, new, changed, removed, identifier, after_of, insert, get, index, old_changes, additions,
  compare,
}
use elasticdms_desktop.Change.Index.{get-insert, IsSorted, index-IsSorted, get_of_AreAbove}

-- What a platform does with a change: the entry is gone, or stands as it is now.
unfoldable pub without : EntryIdentifier → List Entry → List Entry
without k [] = []
without k (f ∷ m) = let rest = without k m in if id_eq f.identifier k then rest else f ∷ rest

unfoldable pub apply : List Entry → Change → List Entry
unfolding without insert
apply m (new entry) = insert entry m
apply m (changed before after) = insert after m
apply m (removed entry) = without entry.identifier m

unfoldable pub apply_all : List Entry → List Change → List Entry
unfolding apply
apply_all m [] = m
apply_all m (c ∷ cs) = apply_all (apply m c) cs

get-without :
    (k j : EntryIdentifier) (m : List Entry)
    → get k (without j m) ≡ (if id_eq j k then none else get k m)
unfolding get without
get-without k j [] = ground arith
get-without k j (f ∷ m) =
    ground
      (arith, get-without k j m, id_eq_iff f.identifier j, id_eq_iff j k, id_eq_iff f.identifier k)

-- What a change makes of the entry under one identifier.
touch : EntryIdentifier → Change → Option Entry → Option Entry
unfolding identifier after_of
touch k c o = if id_eq (identifier c) k then after_of c else o

touch_all : EntryIdentifier → List Change → Option Entry → Option Entry
touch_all k [] o = o
touch_all k (c ∷ cs) o = touch_all k cs (touch k c o)

get-apply :
    (k : EntryIdentifier) (m : List Entry) (c : Change) → get k (apply m c) ≡ touch k c (get k m)
unfolding apply touch
get-apply k m (new e) = get-insert k e m
get-apply k m (changed b e) = get-insert k e m
get-apply k m (removed e) = get-without k e.identifier m

get-apply_all :
    (k : EntryIdentifier) (m : List Entry) (cs : List Change)
    → get k (apply_all m cs) ≡ touch_all k cs (get k m)
unfolding apply_all touch_all
get-apply_all k m [] = refl
get-apply_all k m (c ∷ cs) = get-apply_all k (apply m c) cs ∙ ap (touch_all k cs) (get-apply k m c)

touch_all-append :
    (k : EntryIdentifier) (cs ds : List Change) (o : Option Entry)
    → touch_all k (cs ++ ds) o ≡ touch_all k ds (touch_all k cs o)
unfolding touch_all
touch_all-append k [] ds o = refl
touch_all-append k (c ∷ cs) ds o = touch_all-append k cs ds (touch k c o)

get_identifier :
    (k : EntryIdentifier) (m : List Entry) (e : Entry) → get k m ≡ some e → e.identifier ≡ k
unfolding get
get_identifier k [] e h = ground arith
get_identifier k (f ∷ m) e h = ground (arith, get_identifier k m e, id_eq_iff f.identifier k)

module _ (k : EntryIdentifier) (now : List Entry) where
  -- The removals, for an identifier that is listed now, and for one that is not.
  removals_kept :
      (a : Entry) (old : List Entry) (o : Option Entry)
      → get k now ≡ some a
      → touch_all k (old_changes now old).0 o ≡ o
  unfolding old_changes touch_all touch
  removals_kept a [] o h = refl
  removals_kept a (f ∷ old) o h = ground (arith, removals_kept a old o, id_eq_iff f.identifier k)

  removals_none : (old : List Entry) → touch_all k (old_changes now old).0 none ≡ none
  unfolding old_changes touch_all touch
  removals_none [] = refl
  removals_none (f ∷ old) = ground (arith, removals_none old, id_eq_iff f.identifier k)

  removals_gone :
      (old : List Entry) → get k now ≡ none → touch_all k (old_changes now old).0 (get k old) ≡ none
  unfolding old_changes touch_all touch get
  removals_gone [] h = refl
  removals_gone (f ∷ old) h =
      ground (arith, removals_gone old, removals_none old, id_eq_iff f.identifier k)

  -- The changes, likewise.
  changes_none :
      (old : List Entry) (o : Option Entry)
      → get k now ≡ none
      → touch_all k (old_changes now old).1 o ≡ o
  unfolding old_changes touch_all touch
  changes_none [] o h = refl
  changes_none (f ∷ old) o h = elim (Option-cases (get f.identifier now)) [
    | inl e ↦ ground (arith, changes_none old o)
    | inr (a, e) ↦
        ground
          (arith, changes_none old o, id_eq_iff a.identifier k, get_identifier f.identifier now a e)
  ]

  changes_settled :
      (a : Entry) (old : List Entry)
      → get k now ≡ some a
      → touch_all k (old_changes now old).1 (some a) ≡ some a
  unfolding old_changes touch_all touch
  changes_settled a [] h = refl
  changes_settled a (f ∷ old) h = elim (Option-cases (get f.identifier now)) [
    | inl e ↦ ground (arith, changes_settled a old)
    | inr (b, e) ↦ ground (
      arith,
      changes_settled a old,
      id_eq_iff b.identifier k,
      get_identifier f.identifier now b e,
    )
  ]

  changes_absent :
      (old : List Entry) (o : Option Entry)
      → get k old ≡ none
      → touch_all k (old_changes now old).1 o ≡ o
  unfolding old_changes touch_all touch get
  changes_absent [] o h = refl
  changes_absent (f ∷ old) o h = elim (Option-cases (get f.identifier now)) [
    | inl e ↦ ground (arith, changes_absent old o)
    | inr (b, e) ↦ ground (
      arith,
      changes_absent old o,
      id_eq_iff b.identifier k,
      id_eq_iff f.identifier k,
      get_identifier f.identifier now b e,
    )
  ]

  changes_made :
      (a b : Entry) (old : List Entry)
      → get k now ≡ some a
      → get k old ≡ some b
      → touch_all k (old_changes now old).1 (some b) ≡ some a
  unfolding old_changes touch_all touch get
  changes_made a b [] h g = ground arith
  changes_made a b (f ∷ old) h g = elim (Option-cases (get f.identifier now)) [
    | inl e ↦ ground (arith, changes_made a b old, id_eq_iff f.identifier k)
    | inr (c, e) ↦ ground (
      arith,
      changes_made a b old,
      changes_settled a old,
      id_eq_iff c.identifier k,
      id_eq_iff f.identifier k,
      get_identifier f.identifier now c e,
      entry_eq→eq c f,
    )
  ]

module _ (k : EntryIdentifier) (old : List Entry) where
  -- The additions, for an identifier that was listed, for one that is not, and for a new one.
  additions_kept :
      (b : Entry) (now : List Entry) (o : Option Entry)
      → get k old ≡ some b
      → touch_all k (additions old now) o ≡ o
  unfolding additions touch_all touch
  additions_kept b [] o h = refl
  additions_kept b (f ∷ now) o h = ground (arith, additions_kept b now o, id_eq_iff f.identifier k)

  additions_absent :
      (now : List Entry) (o : Option Entry)
      → get k now ≡ none
      → touch_all k (additions old now) o ≡ o
  unfolding additions touch_all touch get
  additions_absent [] o h = refl
  additions_absent (f ∷ now) o h = ground (arith, additions_absent now o)

  additions_made :
      (a : Entry) (now : List Entry) (o : Option Entry)
      → IsSorted now
      → get k old ≡ none
      → get k now ≡ some a
      → touch_all k (additions old now) o ≡ some a
  unfolding additions touch_all touch get
  additions_made a [] o s h g = ground arith
  additions_made a (f ∷ now) o s h g = ground (
    arith,
    additions_made a now o s.1,
    id_eq_iff f.identifier k,
    get_of_AreAbove f.identifier now s.0,
    additions_absent now (some f),
  )

merged :
    (k : EntryIdentifier) (o n : List Entry)
    → IsSorted n
    → touch_all k
        (additions o n)
        (touch_all k (old_changes n o).1 (touch_all k (old_changes n o).0 (get k o)))
      ≡ get k n
merged k o n s = elim (Option-cases (get k n)) [
  | inl absent ↦
      rw
        (
          removals_gone k n o absent,
          changes_none k n o none absent,
          additions_absent k o n none absent,
        )
        (sym absent)
  | inr (a, found) ↦ rw (removals_kept k n a o (get k o) found) (elim (Option-cases (get k o)) [
    | inl before ↦
        rw (changes_absent k n o (get k o) before, additions_made k o a n (get k o) s before found)
          (sym found)
    | inr (b, before) ↦ rw before (
        rw (changes_made k n a b o found before, additions_kept k o b n (some a) before)
          (sym found))
  ])
]

-- Applied in their order to the remembered listing, the changes that `compare` computes make it
-- the new one: for every identifier the same entry is found, or none.
pub apply_all-compare :
    (old now : List Entry) (k : EntryIdentifier)
    → get k (apply_all (index old) (compare old now)) ≡ get k (index now)
unfolding compare
apply_all-compare old now k =
    let o = index old in
    let n = index now in
    let (removals, changes) = old_changes n o in
    get-apply_all k o (removals ++ (changes ++ additions o n))
    ∙ touch_all-append k removals (changes ++ additions o n) (get k o)
    ∙ touch_all-append k changes (additions o n) (touch_all k removals (get k o))
    ∙ merged k o n (index-IsSorted now)
