-- ===== src/Change/Index.antt =====
-- crates/core/src/change.rs: the ordered map of a listing, and changes applied to it.
use Prim.Native.Nat.{Ordering}
use elasticdms_desktop.Prelude.{
  ◌≡◌, refl, none, some, List, [], ◌∷◌, if◌then◌else◌, arith, All, inl, inr, ◌⊎◌,
}
use elasticdms_desktop.Namespace.{EntryIdentifier}
use elasticdms_desktop.Namespace.Order.{
  compare_ids, id_eq, id_eq_iff, compare_ids_eq, compare_ids_gt, compare_ids_trans,
  compare_ids_refl,
}
use elasticdms_desktop.Namespace.Entries.{Entry}
use elasticdms_desktop.Change.{insert, get, index_from, index}

Ordering-cases : (o : Ordering) → (o ≡ Ordering.lt) ⊎ (o ≡ Ordering.eq) ⊎ (o ≡ Ordering.gt)
Ordering-cases o = ground arith

-- What an insertion leaves to be found.
pub get-insert :
    (k : EntryIdentifier) (e : Entry) (m : List Entry)
    → get k (insert e m) ≡ (if id_eq e.identifier k then some e else get k m)
unfolding get insert
get-insert k e [] = refl
get-insert k e (f ∷ m) = ground (
  arith,
  compare_ids_eq e.identifier f.identifier,
  id_eq_iff e.identifier k,
  id_eq_iff f.identifier k,
  get-insert k e m,
  compare_ids_refl e.identifier,
)

-- All identifiers of the map are behind `k`.
abbrev pub AreAbove : EntryIdentifier → List Entry → Type 0
AreAbove k m = All (λ f. compare_ids k f.identifier ≡ Ordering.lt) m

abbrev pub IsSorted : List Entry → Type 0
IsSorted [] = Unit
IsSorted (f ∷ m) = AreAbove f.identifier m × IsSorted m

AreAbove-trans :
    (j k : EntryIdentifier) (m : List Entry)
    → compare_ids j k ≡ Ordering.lt
    → AreAbove k m
    → AreAbove j m
AreAbove-trans j k [] h a = tt
AreAbove-trans j k (f ∷ m) h a =
    (compare_ids_trans j k f.identifier h a.0, AreAbove-trans j k m h a.1)

AreAbove-insert :
    (k : EntryIdentifier) (e : Entry) (m : List Entry)
    → compare_ids k e.identifier ≡ Ordering.lt
    → AreAbove k m
    → AreAbove k (insert e m)
unfolding insert
AreAbove-insert k e [] h a = (h, tt)
AreAbove-insert k e (f ∷ m) h a = elim (Ordering-cases (compare_ids e.identifier f.identifier)) [
  | inl o ↦ rw (o, insert) (h, a)
  | inr r ↦ elim r [
    | inl o ↦ rw (o, insert) (h, a.1)
    | inr o ↦ rw (o, insert) (a.0, AreAbove-insert k e m h a.1)
  ]
]

insert-IsSorted : (e : Entry) (m : List Entry) → IsSorted m → IsSorted (insert e m)
unfolding insert
insert-IsSorted e [] s = (tt, tt)
insert-IsSorted e (f ∷ m) s = elim (Ordering-cases (compare_ids e.identifier f.identifier)) [
  | inl o ↦ rw (o, insert) ((o, AreAbove-trans e.identifier f.identifier m o s.0), s)
  | inr r ↦ elim r [
    | inl o ↦ rw (o, insert) (rw (compare_ids_eq e.identifier f.identifier o) s.0, s.1)
    | inr o ↦
        rw (o, insert)
          (
            AreAbove-insert f.identifier e m (compare_ids_gt e.identifier f.identifier o) s.0,
            insert-IsSorted e m s.1,
          )
  ]
]

index_from-IsSorted : (m es : List Entry) → IsSorted m → IsSorted (index_from m es)
unfolding index_from
index_from-IsSorted m [] s = s
index_from-IsSorted m (e ∷ es) s = index_from-IsSorted (insert e m) es (insert-IsSorted e m s)

pub index-IsSorted : (es : List Entry) → IsSorted (index es)
unfolding index
index-IsSorted es = index_from-IsSorted [] es tt

-- Behind the entry found, none has the same identifier.
pub get_of_AreAbove : (k : EntryIdentifier) (m : List Entry) → AreAbove k m → get k m ≡ none
unfolding get id_eq
get_of_AreAbove k [] a = refl
get_of_AreAbove k (f ∷ m) a =
    ground (arith, get_of_AreAbove k m a.1, a.0, id_eq_iff f.identifier k, compare_ids_refl k)
