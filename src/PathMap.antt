-- ===== src/PathMap.antt =====
-- crates/cfapi/src/path_map.rs: where every entry lies, and `connect` of crates/cfapi/src/path.rs.
-- The hash map is an association list with one pair per key, the hash set a list; the case folding
-- of `edms_core::filename::comparison_form` is an argument.
pub mod Lookup
pub mod Depth
use elasticdms_desktop.Prelude.{
  ℕ, zero, suc, ◌+◌, Bool, true, false, not, ◌&&◌, ◌||◌, ◌==◌, Option, none, some, List, [], ◌∷◌,
  ◌++◌, if◌then◌else◌, length,
}
use elasticdms_desktop.Text.{Text, text_eq}
use elasticdms_desktop.Namespace.{Container, EntryIdentifier}
use elasticdms_desktop.Namespace.EntryIds.{root, parent, container}
use elasticdms_desktop.Namespace.Order.{id_eq}
use elasticdms_desktop.Filename.{trim_start, trim_end}

-- `Location`
pub record Location : Type 0 where
  pub parent : Container
  pub name : Text
  pub folder : Bool

-- `PathMap`
pub record PathMap : Type 0 where
  pub locations : List (EntryIdentifier × Location)
  pub populated : List Container

-- `MAX_DEPTH`
abbrev pub max_depth : ℕ
max_depth = 8

-- `HashMap::insert`
unfoldable pub put :
    EntryIdentifier
    → Location
    → List (EntryIdentifier × Location)
    → List (EntryIdentifier × Location)
put k l [] = (k, l) ∷ []
put k l ((j, o) ∷ m) = if id_eq j k then (k, l) ∷ m else (j, o) ∷ put k l m

-- `HashMap::get`
unfoldable pub find : EntryIdentifier → List (EntryIdentifier × Location) → Option Location
find k [] = none
find k ((j, o) ∷ m) = if id_eq j k then some o else find k m

abbrev pub is_some {ℓ} : {A : Type ℓ} → Option A → Bool
is_some none = false
is_some (some _) = true

-- `PathMap::set`; the Boolean is what it returns
abbrev pub set_under : Option Container → EntryIdentifier → Text → Bool → PathMap → PathMap × Bool
set_under none identifier name folder map = (map, false)
set_under (some p) identifier name folder map = (
  record {
    locations = put identifier (record { parent = p; name = name; folder = folder }) map.locations;
    populated = map.populated;
  },
  true,
)

unfoldable pub set : EntryIdentifier → Text → Bool → PathMap → PathMap × Bool
set identifier name folder map = set_under (parent identifier) identifier name folder map

-- `PathMap::location`
unfoldable pub location : PathMap → EntryIdentifier → Option Location
unfolding find
location map identifier = find identifier map.locations

-- `PathMap::knows`
unfoldable pub knows : PathMap → EntryIdentifier → Bool
unfolding find
knows map identifier = is_some (find identifier map.locations)

-- `connect`
unfoldable pub connect : Text → Text → Text
unfolding trim_start trim_end
connect base part =
    let b = trim_end (λ c. c == b'\\') base in
    let p = trim_start (λ c. c == b'\\') part in
    if length b == 0 then p else if length p == 0 then b else b ++ b'\\' ∷ p

abbrev pub push_name : Text → Option (List Text) → Option (List Text)
push_name name none = none
push_name name (some names) = some (name ∷ names)

-- The loop of `PathMap::path`: the names from the entry up to the root, at most `n` of them.
unfoldable pub parts : ℕ → PathMap → EntryIdentifier → Option (List Text)
unfolding location
parts zero map k = if id_eq k root then some [] else none
parts (suc n) map k = if id_eq k root then some [] else elim (location map k) [
  | none ↦ none
  | some l ↦ push_name l.name (parts n map (EntryIdentifier.container l.parent))
]

-- The fold over the reversed names.
unfoldable pub join : List Text → Text
unfolding connect
join [] = []
join (name ∷ names) = connect (join names) name

-- `PathMap::path`
abbrev pub joined : Option (List Text) → Option Text
joined none = none
joined (some names) = some (join names)

unfoldable pub path : PathMap → EntryIdentifier → Option Text
path map identifier = joined (parts max_depth map identifier)

-- `PathMap::container_path`
unfoldable pub container_path : PathMap → Container → Option Text
unfolding path
container_path map c = path map (EntryIdentifier.container c)

-- `PathMap::rename`
abbrev pub rename_at : Option Location → EntryIdentifier → Text → PathMap → PathMap × Bool
rename_at none identifier name map = (map, false)
rename_at (some l) identifier name map = (
  record {
    locations =
        put identifier (record { parent = l.parent; name = name; folder = l.folder }) map.locations;
    populated = map.populated;
  },
  true,
)

unfoldable pub rename : EntryIdentifier → Text → PathMap → PathMap × Bool
rename identifier name map = rename_at (find identifier map.locations) identifier name map

abbrev same_container : Container → Container → Bool
same_container a b = id_eq (EntryIdentifier.container a) (EntryIdentifier.container b)

abbrev has_container : Container → List Container → Bool
has_container c [] = false
has_container c (d ∷ ds) = same_container d c || has_container c ds

abbrev without_container : Container → List Container → List Container
without_container c [] = []
without_container c (d ∷ ds) =
    let rest = without_container c ds in if same_container d c then rest else d ∷ rest

-- `PathMap::mark_populated`
unfoldable pub mark_populated : Container → PathMap → PathMap
mark_populated c map = record {
  locations = map.locations;
  populated = if has_container c map.populated then map.populated else c ∷ map.populated;
}

-- `PathMap::is_populated`
unfoldable pub is_populated : PathMap → Container → Bool
is_populated map c = has_container c map.populated

-- `PathMap::forget_population`
unfoldable pub forget_population : Container → PathMap → PathMap
forget_population c map = record {
  locations = map.locations;
  populated = without_container c map.populated;
}

-- `PathMap::count`
unfoldable pub count : PathMap → ℕ
count map = length map.locations

-- `PathMap::empty`
unfoldable pub empty : PathMap → PathMap
empty map = record { locations = []; populated = [] }

-- `PathMap::search_name`
unfoldable pub search_in :
    (Text → Text) → Container → Text → List (EntryIdentifier × Location) → Option EntryIdentifier
search_in fold c wanted [] = none
search_in fold c wanted ((k, o) ∷ m) =
    if same_container o.parent c && text_eq (fold o.name) wanted
    then some k
    else search_in fold c wanted m

unfoldable pub search_name : (Text → Text) → PathMap → Container → Text → Option EntryIdentifier
unfolding search_in
search_name fold map c name = search_in fold c (fold name) map.locations
