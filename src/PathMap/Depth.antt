-- ===== src/PathMap/Depth.antt =====
-- crates/cfapi/src/path_map.rs: the depth of containers and the loop in `path`.
use mathlib.Core.Path.{subst}
use elasticdms_desktop.Prelude.{
  ℕ, zero, suc, ◌≤◌, ◌≡◌, refl, sym, ap, ◌∙◌, Bool, true, false, none, some, List, [], ◌∷◌,
  if◌then◌else◌, arith, Bool-cases, inl, inr, ◌⊎◌,
}
use elasticdms_desktop.Text.{Text}
use elasticdms_desktop.PathMap.Lookup.{location-set}
use elasticdms_desktop.Namespace.{Container, EntryIdentifier}
use elasticdms_desktop.Namespace.EntryIds.{root, parent}
use elasticdms_desktop.Namespace.Containers
use elasticdms_desktop.Namespace.Order.{id_eq, id_eq_iff}
use elasticdms_desktop.PathMap.{
  Location, PathMap, find, set, empty, location, parts, join, joined, path,
}

some_inj : {A : Type 0} {a b : A} → some a ≡ some b → a ≡ b
some_inj h = cc

-- How far a container is from the root, and the bound that every identifier keeps.
depth : Container → ℕ
depth Container.root = 0
depth Container.baskets = 1
depth Container.archives = 1
depth Container.searches = 1
depth (Container.basket _) = 2
depth (Container.archive _) = 2
depth (Container.search _) = 2
depth (Container.case _ _) = 3

abbrev pub IsKnown : PathMap → Container → Type 0
IsKnown map c =
    (c ≡ Container.root) ⊎ ((o : Location) × (location map (EntryIdentifier.container c) ≡ some o))

-- The map enters an entry under the parent of its identifier, and knows the parents of what it knows.
pub record IsClosed (map : PathMap) : Type 0 where
  pub by_identifier :
      (k : EntryIdentifier) (l : Location) → location map k ≡ some l → parent k ≡ some l.parent
  pub has_parent :
      (k : EntryIdentifier) (l : Location) → location map k ≡ some l → IsKnown map l.parent

depth-parent :
    (c p : Container) (n : ℕ)
    → parent (EntryIdentifier.container c) ≡ some p
    → depth c ≤ suc n
    → depth p ≤ n
unfolding depth parent Containers.parent
depth-parent Container.root p n h b = absurd cc
depth-parent Container.baskets p n h b = subst (λ q. depth q ≤ n) (some_inj h) (omega arith)
depth-parent Container.archives p n h b = subst (λ q. depth q ≤ n) (some_inj h) (omega arith)
depth-parent Container.searches p n h b = subst (λ q. depth q ≤ n) (some_inj h) (omega arith)
depth-parent (Container.basket _) p n h b = subst (λ q. depth q ≤ n) (some_inj h) (omega arith)
depth-parent (Container.archive _) p n h b = subst (λ q. depth q ≤ n) (some_inj h) (omega arith)
depth-parent (Container.search _) p n h b = subst (λ q. depth q ≤ n) (some_inj h) (omega arith)
depth-parent (Container.case _ _) p n h b = subst (λ q. depth q ≤ n) (some_inj h) (omega arith)

depth_zero : (c : Container) → depth c ≤ 0 → c ≡ Container.root
unfolding depth
depth_zero Container.root b = refl
depth_zero Container.baskets b = absurd (omega arith)
depth_zero Container.archives b = absurd (omega arith)
depth_zero Container.searches b = absurd (omega arith)
depth_zero (Container.basket _) b = absurd (omega arith)
depth_zero (Container.archive _) b = absurd (omega arith)
depth_zero (Container.search _) b = absurd (omega arith)
depth_zero (Container.case _ _) b = absurd (omega arith)

depth_bound : (c : Container) → depth c ≤ 3
unfolding depth
depth_bound Container.root = omega arith
depth_bound Container.baskets = omega arith
depth_bound Container.archives = omega arith
depth_bound Container.searches = omega arith
depth_bound (Container.basket _) = omega arith
depth_bound (Container.archive _) = omega arith
depth_bound (Container.search _) = omega arith
depth_bound (Container.case _ _) = omega arith

parts-root : (n : ℕ) (map : PathMap) → parts n map root ≡ some []
unfolding parts
parts-root zero map = rw ((id_eq_iff root root).1 refl) refl
parts-root (suc n) map = rw ((id_eq_iff root root).1 refl) refl

-- One name more than the chain of the parent has.
parts-suc :
    (n : ℕ) (map : PathMap) (k : EntryIdentifier) (o : Location) (names : List Text)
    → location map k ≡ some o
    → parts n map (EntryIdentifier.container o.parent) ≡ some names
    → (found : List Text) × (parts (suc n) map k ≡ some found)
unfolding parts
parts-suc n map k o names h g = elim (Bool-cases (id_eq k root)) [
  | inl e ↦ ([], rw e refl)
  | inr e ↦ (o.name ∷ names, rw (e, h, g) refl)
]

parts-container :
    (n : ℕ) (map : PathMap) (c : Container)
    → IsClosed map
    → depth c ≤ n
    → IsKnown map c
    → (names : List Text) × (parts n map (EntryIdentifier.container c) ≡ some names)
parts-container zero map c closed b h = ([], rw (depth_zero c b) (parts-root zero map))
parts-container (suc n) map c closed b (inl e) = ([], rw e (parts-root (suc n) map))
parts-container (suc n) map c closed b (inr (o, g)) =
    let above =
      parts-container n map o.parent closed
        (depth-parent c o.parent n (closed.by_identifier (EntryIdentifier.container c) o g) b)
        (closed.has_parent (EntryIdentifier.container c) o g) in
    parts-suc n map (EntryIdentifier.container c) o above.0 g above.1

-- In a map whose entries stand under the parents of their identifiers and that knows the parents
-- of what it knows, every known entry has a path: the limit of eight names never cuts one off.
pub path_found :
    (map : PathMap) (k : EntryIdentifier) (o : Location)
    → IsClosed map
    → location map k ≡ some o
    → (text : Text) × (path map k ≡ some text)
unfolding path
path_found map k o closed h =
    let above =
      parts-container 7 map o.parent closed (omega (arith, depth_bound o.parent))
        (closed.has_parent k o h) in
    let whole = parts-suc 7 map k o above.0 h above.1 in (join whole.0, ap joined whole.1)

pub empty-IsClosed : (map : PathMap) → IsClosed (empty map)
unfolding empty location find
empty-IsClosed map = record {
  by_identifier = λ k l h. absurd (nothing h);
  has_parent = λ k l h. absurd (nothing h);
}
  where
    nothing : {l : Location} → none ≡ some l → ⊥
    nothing h = cc

abbrev pub located : Container → Text → Bool → Location
located p name folder = record { parent = p; name = name; folder = folder }

if_true : {A : Type 0} (b : Bool) (x y : A) → b ≡ true → (if b then x else y) ≡ x
if_true b x y e = rw e

if_false : {A : Type 0} (b : Bool) (x y : A) → b ≡ false → (if b then x else y) ≡ y
if_false b x y e = rw e

module _ (j : EntryIdentifier) (name : Text) (folder : Bool) (map : PathMap) (p : Container)
    (h : parent j ≡ some p) where
  at_new :
      (k : EntryIdentifier)
      → id_eq j k ≡ true
      → location (set j name folder map).0 k ≡ some (located p name folder)
  at_new k e =
      (location-set k j name folder map p h).0
      ∙ if_true (id_eq j k) (some (located p name folder)) (location map k) e

  at_old :
      (k : EntryIdentifier)
      → id_eq j k ≡ false
      → location (set j name folder map).0 k ≡ location map k
  at_old k e =
      (location-set k j name folder map p h).0
      ∙ if_false (id_eq j k) (some (located p name folder)) (location map k) e

  set-cases :
      (k : EntryIdentifier) (l : Location)
      → location (set j name folder map).0 k ≡ some l
      → ((j ≡ k) × (l ≡ located p name folder)) ⊎ (location map k ≡ some l)
  set-cases k l g = elim (Bool-cases (id_eq j k)) [
    | inl e ↦ inl ((id_eq_iff j k).0 e, some_inj (sym g ∙ at_new k e))
    | inr e ↦ inr (sym (at_old k e) ∙ g)
  ]

  set_keeps : (c : Container) → IsKnown map c → IsKnown (set j name folder map).0 c
  set_keeps c (inl e) = inl e
  set_keeps c (inr (o, g)) = elim (Bool-cases (id_eq j (EntryIdentifier.container c))) [
    | inl e ↦ inr (located p name folder, at_new (EntryIdentifier.container c) e)
    | inr e ↦ inr (o, at_old (EntryIdentifier.container c) e ∙ g)
  ]

  -- Entering an entry whose parent is known keeps a map closed: its entries stand under the
  -- parents of their identifiers, and it knows the parents of what it knows.
  pub set-IsClosed : IsKnown map p → IsClosed map → IsClosed (set j name folder map).0
  set-IsClosed known closed = record { by_identifier = entered; has_parent = above }
    where
      entered :
          (k : EntryIdentifier) (l : Location)
          → location (set j name folder map).0 k ≡ some l
          → parent k ≡ some l.parent
      entered k l g = elim (set-cases k l g) [
        | inl (e, m) ↦
            subst (λ i. parent i ≡ some l.parent) e
              (h ∙ ap (λ (o : Location). some o.parent) (sym m))
        | inr o ↦ closed.by_identifier k l o
      ]

      above :
          (k : EntryIdentifier) (l : Location)
          → location (set j name folder map).0 k ≡ some l
          → IsKnown (set j name folder map).0 l.parent
      above k l g = elim (set-cases k l g) [
        | inl (e, m) ↦
            subst (λ (o : Location). IsKnown (set j name folder map).0 o.parent) (sym m)
              (set_keeps p known)
        | inr o ↦ set_keeps l.parent (closed.has_parent k l o)
      ]
