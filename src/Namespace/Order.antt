-- ===== src/Namespace/Order.antt =====
-- crates/core/src/namespace.rs: the derived `Ord` of entry identifiers. Deriving compares the place
-- of the variant first and then the fields in order, which is the lexicographic order of these keys.
use Prim.Native.Nat.{compare, Ordering}
use mathlib.Core.Path.{ap₂}
use elasticdms_desktop.Prelude.{
  ℕ, ◌≡◌, refl, ap, Bool, true, false, List, [], ◌∷◌, ◌++◌, arith, ◌↔◌,
}
use elasticdms_desktop.Namespace.{Container, Location, HintKind, EntryIdentifier}

abbrev pub container_key : Container → List ℕ
container_key Container.root = 0 ∷ []
container_key Container.baskets = 1 ∷ []
container_key (Container.basket k) = 2 ∷ k ∷ []
container_key Container.archives = 3 ∷ []
container_key (Container.archive k) = 4 ∷ k ∷ []
container_key (Container.case a c) = 5 ∷ a ∷ c ∷ []
container_key Container.searches = 6 ∷ []
container_key (Container.search k) = 7 ∷ k ∷ []

abbrev pub hint_key : HintKind → ℕ
hint_key HintKind.read_me = 0
hint_key HintKind.truncated = 1

abbrev pub document_key : Location → ℕ → List ℕ
document_key (Location.case a c) d = 0 ∷ a ∷ c ∷ d ∷ []
document_key (Location.search k) d = 1 ∷ k ∷ d ∷ []

-- The kind of a hint is compared behind its place. Keys of two containers that agree so far have
-- one length.
abbrev pub order_key : EntryIdentifier → List ℕ
order_key (EntryIdentifier.container c) = 0 ∷ container_key c
order_key (EntryIdentifier.document l d) = 1 ∷ document_key l d
order_key (EntryIdentifier.hint c k) = 2 ∷ (container_key c ++ hint_key k ∷ [])

abbrev pub compare_keys : List ℕ → List ℕ → Ordering
compare_keys [] [] = Ordering.eq
compare_keys [] (b ∷ t) = Ordering.lt
compare_keys (a ∷ s) [] = Ordering.gt
compare_keys (a ∷ s) (b ∷ t) = elim (compare a b) [
  | Ordering.lt ↦ Ordering.lt
  | Ordering.gt ↦ Ordering.gt
  | Ordering.eq ↦ compare_keys s t
]

pub compare_keys_refl : (s : List ℕ) → compare_keys s s ≡ Ordering.eq
compare_keys_refl [] = refl
compare_keys_refl (a ∷ s) = ground (arith, compare_keys_refl s)

pub compare_keys_eq : (s t : List ℕ) → compare_keys s t ≡ Ordering.eq → s ≡ t
compare_keys_eq [] [] h = refl
compare_keys_eq [] (b ∷ t) h = ground arith
compare_keys_eq (a ∷ s) [] h = ground arith
compare_keys_eq (a ∷ s) (b ∷ t) h = ground (arith, compare_keys_eq s t)

pub compare_keys_gt :
    (s t : List ℕ) → compare_keys s t ≡ Ordering.gt → compare_keys t s ≡ Ordering.lt
compare_keys_gt [] [] h = ground arith
compare_keys_gt [] (b ∷ t) h = ground arith
compare_keys_gt (a ∷ s) [] h = refl
compare_keys_gt (a ∷ s) (b ∷ t) h = ground (arith, compare_keys_gt s t)

pub compare_keys_trans :
    (s t u : List ℕ)
    → compare_keys s t ≡ Ordering.lt
    → compare_keys t u ≡ Ordering.lt
    → compare_keys s u ≡ Ordering.lt
compare_keys_trans [] [] u h g = ground arith
compare_keys_trans [] (b ∷ t) [] h g = ground arith
compare_keys_trans [] (b ∷ t) (c ∷ u) h g = refl
compare_keys_trans (a ∷ s) [] u h g = ground arith
compare_keys_trans (a ∷ s) (b ∷ t) [] h g = ground arith
compare_keys_trans (a ∷ s) (b ∷ t) (c ∷ u) h g = ground (arith, compare_keys_trans s t u)

-- `==` on entry identifiers
abbrev pub is_eq : Ordering → Bool
is_eq Ordering.eq = true
is_eq _ = false

container_key-injective : (c d : Container) → container_key c ≡ container_key d → c ≡ d
container_key-injective c d h = ground arith

container_key-snoc :
    (c d : Container) (m n : ℕ)
    → container_key c ++ m ∷ [] ≡ container_key d ++ n ∷ []
    → (c ≡ d) × (m ≡ n)
container_key-snoc c d m n h = ground arith

document_key-injective :
    (l m : Location) (d e : ℕ)
    → document_key l d ≡ document_key m e
    → EntryIdentifier.document l d ≡ EntryIdentifier.document m e
document_key-injective l m d e h = ground arith

tail_eq : (a b : ℕ) (s t : List ℕ) → a ∷ s ≡ b ∷ t → s ≡ t
tail_eq a b s t h = ground arith

hint_key-injective : (k m : HintKind) → hint_key k ≡ hint_key m → k ≡ m
hint_key-injective k m h = ground arith

order_key-injective : (x y : EntryIdentifier) → order_key x ≡ order_key y → x ≡ y
order_key-injective (EntryIdentifier.container c) (EntryIdentifier.container d) h =
    ap EntryIdentifier.container (container_key-injective c d (tail_eq 0 0 _ _ h))
order_key-injective (EntryIdentifier.document l d) (EntryIdentifier.document m e) h =
    document_key-injective l m d e (tail_eq 1 1 _ _ h)
order_key-injective (EntryIdentifier.hint c k) (EntryIdentifier.hint d m) h =
    let (p, q) = container_key-snoc c d (hint_key k) (hint_key m) (tail_eq 2 2 _ _ h) in
    ap₂ EntryIdentifier.hint p (hint_key-injective k m q)
order_key-injective (EntryIdentifier.container c) (EntryIdentifier.document m e) h = ground arith
order_key-injective (EntryIdentifier.container c) (EntryIdentifier.hint d m) h = ground arith
order_key-injective (EntryIdentifier.document l d) (EntryIdentifier.container c) h = ground arith
order_key-injective (EntryIdentifier.document l d) (EntryIdentifier.hint c m) h = ground arith
order_key-injective (EntryIdentifier.hint c k) (EntryIdentifier.container d) h = ground arith
order_key-injective (EntryIdentifier.hint c k) (EntryIdentifier.document m e) h = ground arith

-- `cmp` and `==` of entry identifiers
unfoldable pub compare_ids : EntryIdentifier → EntryIdentifier → Ordering
compare_ids x y = compare_keys (order_key x) (order_key y)

unfoldable pub id_eq : EntryIdentifier → EntryIdentifier → Bool
unfolding compare_ids
id_eq x y = is_eq (compare_ids x y)

pub compare_ids_refl : (x : EntryIdentifier) → compare_ids x x ≡ Ordering.eq
unfolding compare_ids
compare_ids_refl x = compare_keys_refl (order_key x)

pub compare_ids_eq : (x y : EntryIdentifier) → compare_ids x y ≡ Ordering.eq → x ≡ y
unfolding compare_ids
compare_ids_eq x y h = order_key-injective x y (compare_keys_eq (order_key x) (order_key y) h)

pub compare_ids_gt :
    (x y : EntryIdentifier) → compare_ids x y ≡ Ordering.gt → compare_ids y x ≡ Ordering.lt
unfolding compare_ids
compare_ids_gt x y h = compare_keys_gt (order_key x) (order_key y) h

pub compare_ids_trans :
    (x y z : EntryIdentifier)
    → compare_ids x y ≡ Ordering.lt
    → compare_ids y z ≡ Ordering.lt
    → compare_ids x z ≡ Ordering.lt
unfolding compare_ids
compare_ids_trans x y z h g = compare_keys_trans (order_key x) (order_key y) (order_key z) h g

is_eq→eq : (o : Ordering) → is_eq o ≡ true → o ≡ Ordering.eq
is_eq→eq o h = ground arith

pub id_eq_iff : (x y : EntryIdentifier) → (id_eq x y ≡ true) ↔ (x ≡ y)
unfolding id_eq
id_eq_iff x y = (λ h. compare_ids_eq x y (is_eq→eq _ h), λ h. rw h (rw (compare_ids_refl y)))
