-- ===== src/Plan/Listing.antt =====
-- crates/cfapi/src/plan.rs: what a listing is that `check_list` lets through.
use mathlib.Core.Path.{subst}
use elasticdms_desktop.Prelude.{
  ◌≡◌, ◌≢◌, refl, ap, Bool, true, false, not, ◌||◌, Option, none, some, List, [], ◌∷◌,
  if◌then◌else◌, All, arith, Result, ok, err,
}
use elasticdms_desktop.Text.{Text, text_eq, text_eq_refl}
use elasticdms_desktop.Namespace.{Container, EntryIdentifier}
use elasticdms_desktop.Namespace.EntryIds.{parent, container}
use elasticdms_desktop.Namespace.Order.{id_eq, id_eq_iff}
use elasticdms_desktop.Namespace.Entries.{Entry, is_folder}
use elasticdms_desktop.PathMap.{is_some}
use elasticdms_desktop.Checks.{NameError, check_name}
use elasticdms_desktop.Plan.{same_kind, has_form}
use elasticdms_desktop.Plan.Inspection.{
  ListError, wrong_location, wrong_kind, duplicate_name, duplicate_identifier, is_under, has_id,
  after_name, check_entries, check_list,
}

-- An entry of the container, of the kind of its identifier, with a name that Windows takes.
abbrev pub FitsIn : Container → Entry → Type 0
FitsIn c e =
    (parent e.identifier ≡ some c)
    × (is_folder e ≡ is_some (container e.identifier))
    × (check_name e.name ≡ ok tt)

-- No two entries have one name, in the form in which names are compared, or one identifier.
abbrev pub AreDistinct : (Text → Text) → List Entry → Type 0
AreDistinct fold [] = Unit
AreDistinct fold (e ∷ es) =
    All (λ f. (fold e.name ≢ fold f.name) × (e.identifier ≢ f.identifier)) es × AreDistinct fold es

-- An entry whose name and identifier were not seen before.
abbrev IsFresh : (Text → Text) → List Text → List EntryIdentifier → Entry → Type 0
IsFresh fold names ids f =
    (has_form (fold f.name) names ≡ false) × (has_id f.identifier ids ≡ false)

judged :
    Bool
    → Bool
    → Result NameError (Unit {0})
    → Bool
    → Bool
    → Entry
    → Container
    → Result ListError (Unit {0})
    → Result ListError (Unit {0})
judged under kind name used id e c rest =
    if not under
    then err (wrong_location e.identifier c)
    else if not kind
    then err (wrong_kind e.identifier)
    else after_name name (
        if used
        then err (duplicate_name e.name)
        else if id
        then err (duplicate_identifier e.identifier)
        else rest)

judged-eq-ok :
    (under kind : Bool) (name : Result NameError (Unit {0})) (used id : Bool) (e : Entry)
    (c : Container) (rest : Result ListError (Unit {0}))
    → judged under kind name used id e c rest ≡ ok tt
    → (under ≡ true)
      × (kind ≡ true)
      × (name ≡ ok tt)
      × (used ≡ false)
      × (id ≡ false)
      × (rest ≡ ok tt)
unfolding judged
judged-eq-ok false kind name used id e c rest h = absurd cc
judged-eq-ok true false name used id e c rest h = absurd cc
judged-eq-ok true true (err x) used id e c rest h = absurd cc
judged-eq-ok true true (ok tt) true id e c rest h = absurd cc
judged-eq-ok true true (ok tt) false true e c rest h = absurd cc
judged-eq-ok true true (ok tt) false false e c rest h = (refl, refl, refl, refl, refl, h)

is_under→eq : (o : Option Container) (c : Container) → is_under o c ≡ true → o ≡ some c
unfolding container
is_under→eq none c h = absurd cc
is_under→eq (some p) c h =
    ap (λ (k : EntryIdentifier). container k)
      ((id_eq_iff (EntryIdentifier.container p) (EntryIdentifier.container c)).0 h)

same_kind→eq : (a b : Bool) → same_kind a b ≡ true → a ≡ b
same_kind→eq a b h = ground arith

not_refl : (b : Bool) → b ≡ true → b ≡ false → ⊥
not_refl b h g = ground arith

-- What is fresh after one more entry was fresh before it, and differs from that entry.
IsFresh-behind :
    (fold : Text → Text) (names : List Text) (ids : List EntryIdentifier) (e f : Entry)
    → IsFresh fold (fold e.name ∷ names) (e.identifier ∷ ids) f
    → IsFresh fold names ids f × ((fold e.name ≢ fold f.name) × (e.identifier ≢ f.identifier))
IsFresh-behind fold names ids e f (h, g) =
    let name = or_false (text_eq (fold e.name) (fold f.name)) (has_form (fold f.name) names) h in
    let id = or_false (id_eq e.identifier f.identifier) (has_id f.identifier ids) g in
    (
      (name.1, id.1),
      (
        λ q.
            not_refl (text_eq (fold e.name) (fold f.name))
              (subst (λ t. text_eq (fold e.name) t ≡ true) q (text_eq_refl (fold e.name))) name.0,
        λ q.
            not_refl (id_eq e.identifier f.identifier) ((id_eq_iff e.identifier f.identifier).1 q)
              id.0,
      ),
    )
  where
    or_false : (a b : Bool) → (a || b) ≡ false → (a ≡ false) × (b ≡ false)
    or_false a b h = ground arith

-- The two halves of what `IsFresh-behind` says of every later entry.
All-IsFresh_behind :
    (fold : Text → Text) (names : List Text) (ids : List EntryIdentifier) (e : Entry)
    (es : List Entry)
    → All (IsFresh fold (fold e.name ∷ names) (e.identifier ∷ ids)) es
    → All (IsFresh fold names ids) es
      × All (λ f. (fold e.name ≢ fold f.name) × (e.identifier ≢ f.identifier)) es
All-IsFresh_behind fold names ids e [] h = (tt, tt)
All-IsFresh_behind fold names ids e (f ∷ es) h =
    let one = IsFresh-behind fold names ids e f h.0 in
    let rest = All-IsFresh_behind fold names ids e es h.1 in ((one.0, rest.0), (one.1, rest.1))

-- A listing that `check_list` lets through
check_entries_sound :
    (fold : Text → Text) (c : Container) (names : List Text) (ids : List EntryIdentifier)
    (es : List Entry)
    → check_entries fold c names ids es ≡ ok tt
    → All (FitsIn c) es × AreDistinct fold es × All (IsFresh fold names ids) es
unfolding check_entries judged
check_entries_sound fold c names ids [] h = (tt, tt, tt)
check_entries_sound fold c names ids (e ∷ es) h =
    let parts =
      judged-eq-ok (is_under (parent e.identifier) c)
        (same_kind (is_folder e) (is_some (container e.identifier))) (check_name e.name)
        (has_form (fold e.name) names) (has_id e.identifier ids) e c
        (check_entries fold c (fold e.name ∷ names) (e.identifier ∷ ids) es) h in
    let rest = check_entries_sound fold c (fold e.name ∷ names) (e.identifier ∷ ids) es parts.5 in
    let later = All-IsFresh_behind fold names ids e es rest.2 in
    (
      (
        (
          is_under→eq (parent e.identifier) c parts.0,
          same_kind→eq (is_folder e) (is_some (container e.identifier)) parts.1,
          parts.2,
        ),
        rest.0,
      ),
      (later.1, rest.1),
      ((parts.3, parts.4), later.0),
    )

-- A listing that `check_list` lets through has only entries of the container, each of the kind of
-- its identifier and with a name that Windows takes, and no two of them have one identifier or one
-- name in the form in which names are compared.
pub check_list_sound :
    (fold : Text → Text) (c : Container) (listing : List Entry)
    → check_list fold c listing ≡ ok tt
    → All (FitsIn c) listing × AreDistinct fold listing
unfolding check_list
check_list_sound fold c listing h =
    let all = check_entries_sound fold c [] [] listing h in (all.0, all.1)
