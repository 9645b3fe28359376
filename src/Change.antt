-- ===== src/Change.antt =====
-- crates/core/src/change.rs: the difference between a remembered and a freshly fetched listing.
pub mod Index
pub mod Compare
pub mod Reasons
use Prim.Native.Nat.{Ordering}
use elasticdms_desktop.Prelude.{
  ℕ, ◌==◌, Bool, true, false, not, ◌&&◌, ◌||◌, Option, none, some, List, [], ◌∷◌, ◌++◌,
  if◌then◌else◌,
}
use elasticdms_desktop.Text.{text_eq}
use elasticdms_desktop.Namespace.{EntryIdentifier}
use elasticdms_desktop.Namespace.Order.{compare_ids, id_eq}
use elasticdms_desktop.Namespace.Entries.{Entry, FileDetails, file_of, entry_eq, option_eq}

pub data Change : Type 0 where
  new : Entry → Change
  changed : Entry → Entry → Change
  removed : Entry → Change

-- `Change::identifier`
unfoldable pub identifier : Change → EntryIdentifier
identifier (new entry) = entry.identifier
identifier (changed before after) = after.identifier
identifier (removed entry) = entry.identifier

-- `Change::after`
unfoldable pub after_of : Change → Option Entry
after_of (new entry) = some entry
after_of (changed before after) = some after
after_of (removed entry) = none

abbrev pub stale_details : Option FileDetails → Option FileDetails → Bool
stale_details (some a) (some b) =
    not (text_eq a.version b.version)
    || (not (option_eq a.sha256 b.sha256) || not (a.size == b.size))
stale_details none none = false
stale_details _ _ = true

-- `Change::content_stale`
unfoldable pub content_stale : Change → Bool
content_stale (changed before after) = stale_details (file_of before) (file_of after)
content_stale (new _) = false
content_stale (removed _) = false

-- `Change::renamed`
unfoldable pub renamed : Change → Bool
renamed (changed before after) = not (text_eq before.name after.name)
renamed _ = false

-- A `BTreeMap<EntryIdentifier, &Entry>`: the entries in ascending order of their identifiers,
-- which are the keys. An insertion under a key that is there replaces the entry.
unfoldable pub insert : Entry → List Entry → List Entry
insert e [] = e ∷ []
insert e (f ∷ m) = elim (compare_ids e.identifier f.identifier) [
  | Ordering.lt ↦ e ∷ f ∷ m
  | Ordering.eq ↦ e ∷ m
  | Ordering.gt ↦ f ∷ insert e m
]

-- `get`
unfoldable pub get : EntryIdentifier → List Entry → Option Entry
get k [] = none
get k (f ∷ m) = if id_eq f.identifier k then some f else get k m

-- `entries.iter().map(|e| (e.identifier, e)).collect()`
unfoldable pub index_from : List Entry → List Entry → List Entry
unfolding insert
index_from m [] = m
index_from m (e ∷ es) = index_from (insert e m) es

unfoldable pub index : List Entry → List Entry
unfolding index_from
index es = index_from [] es

-- The loop over the old listing, which fills `removed` and `changed`.
unfoldable pub old_changes : List Entry → List Entry → List Change × List Change
unfolding get
old_changes now [] = ([], [])
old_changes now (before ∷ old) =
    let (removals, changes) = old_changes now old in
    elim (get before.identifier now) [
      | none ↦ (removed before ∷ removals, changes)
      | some after ↦
          if not (entry_eq after before)
          then (removals, changed before after ∷ changes)
          else (removals, changes)
    ]

-- The loop over the new listing, which fills `added`.
unfoldable pub additions : List Entry → List Entry → List Change
unfolding get
additions old [] = []
additions old (entry ∷ now) =
    let rest = additions old now in
    elim (get entry.identifier old) [ none ↦ new entry ∷ rest | some _ ↦ rest ]

-- `compare`
unfoldable pub compare : List Entry → List Entry → List Change
unfolding index old_changes additions
compare old now =
    let old_map = index old in
    let new_map = index now in
    let (removals, changes) = old_changes new_map old_map in
    removals ++ (changes ++ additions old_map new_map)
