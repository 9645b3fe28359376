-- ===== src/Plan/Inspection.antt =====
-- crates/cfapi/src/plan.rs: the check of a listing before it reaches Windows. `comparison_form` is an
-- argument.
use elasticdms_desktop.Prelude.{
  Bool, false, not, ◌||◌, Option, none, some, List, [], ◌∷◌, if◌then◌else◌, Result, ok, err,
}
use elasticdms_desktop.Text.{Text}
use elasticdms_desktop.Namespace.{Container, EntryIdentifier}
use elasticdms_desktop.Namespace.EntryIds.{parent, container}
use elasticdms_desktop.Namespace.Order.{id_eq}
use elasticdms_desktop.Namespace.Entries.{Entry, is_folder}
use elasticdms_desktop.PathMap.{is_some}
use elasticdms_desktop.Checks.{NameError, check_name}
use elasticdms_desktop.Plan.{same_kind, has_form}

-- The errors of `MirrorError` that a listing meets
pub data ListError : Type 0 where
  wrong_location : EntryIdentifier → Container → ListError
  wrong_kind : EntryIdentifier → ListError
  invalid_name : NameError → ListError
  duplicate_name : Text → ListError
  duplicate_identifier : EntryIdentifier → ListError

abbrev pub is_under : Option Container → Container → Bool
is_under none c = false
is_under (some p) c = id_eq (EntryIdentifier.container p) (EntryIdentifier.container c)

abbrev pub has_id : EntryIdentifier → List EntryIdentifier → Bool
has_id k [] = false
has_id k (j ∷ js) = id_eq j k || has_id k js

-- The loop of `check_list`, with the names and identifiers seen so far
abbrev pub after_name :
    Result NameError (Unit {0}) → Result ListError (Unit {0}) → Result ListError (Unit {0})
after_name (err e) rest = err (invalid_name e)
after_name (ok _) rest = rest

unfoldable pub check_entries :
    (Text → Text)
    → Container
    → List Text
    → List EntryIdentifier
    → List Entry
    → Result ListError (Unit {0})
unfolding check_name
check_entries fold c names ids [] = ok tt
check_entries fold c names ids (e ∷ es) =
    let rest = check_entries fold c (fold e.name ∷ names) (e.identifier ∷ ids) es in
    if not (is_under (parent e.identifier) c)
    then err (wrong_location e.identifier c)
    else if not (same_kind (is_folder e) (is_some (container e.identifier)))
    then err (wrong_kind e.identifier)
    else after_name (check_name e.name) (
        if has_form (fold e.name) names
        then err (duplicate_name e.name)
        else if has_id e.identifier ids
        then err (duplicate_identifier e.identifier)
        else rest)

-- `check_list`
unfoldable pub check_list : (Text → Text) → Container → List Entry → Result ListError (Unit {0})
unfolding check_entries
check_list fold c listing = check_entries fold c [] [] listing
