-- ===== src/PathMap/Lookup.antt =====
-- crates/cfapi/src/path_map.rs: what a lookup finds after an entry or a renaming.
use elasticdms_desktop.Prelude.{◌≡◌, refl, Bool, true, some, List, [], ◌∷◌, if◌then◌else◌, arith}
use elasticdms_desktop.Text.{Text}
use elasticdms_desktop.Namespace.{Container, EntryIdentifier}
use elasticdms_desktop.Namespace.EntryIds.{parent}
use elasticdms_desktop.Namespace.Order.{id_eq, id_eq_iff}
use elasticdms_desktop.PathMap.{Location, PathMap, put, find, set, location, rename}

find-put :
    (k j : EntryIdentifier) (l : Location) (m : List (EntryIdentifier × Location))
    → find k (put j l m) ≡ (if id_eq j k then some l else find k m)
unfolding find put
find-put k j l [] = refl
find-put k j l ((i, o) ∷ m) =
    ground (arith, find-put k j l m, id_eq_iff i j, id_eq_iff j k, id_eq_iff i k)

-- After `set` of an entry that has a parent, the entry has its name and kind under that parent,
-- and every other entry lies where it lay.
pub location-set :
    (k j : EntryIdentifier) (name : Text) (folder : Bool) (map : PathMap) (p : Container)
    → parent j ≡ some p
    → (location (set j name folder map).0 k ≡ (
        if id_eq j k
        then some (record { parent = p; name = name; folder = folder })
        else location map k))
      × ((set j name folder map).1 ≡ true)
unfolding set location
location-set k j name folder map p h =
    rw h (find-put k j (record { parent = p; name = name; folder = folder }) map.locations, refl)

-- `rename` of a known entry keeps its parent and its kind, gives it the name, and touches no other
-- entry.
pub location-rename :
    (k j : EntryIdentifier) (name : Text) (map : PathMap) (l : Location)
    → location map j ≡ some l
    → (location (rename j name map).0 k ≡ (
        if id_eq j k
        then some (record { parent = l.parent; name = name; folder = l.folder })
        else location map k))
      × ((rename j name map).1 ≡ true)
unfolding rename location
location-rename k j name map l h = rw h (
  find-put k j (record { parent = l.parent; name = name; folder = l.folder }) map.locations,
  refl,
)
