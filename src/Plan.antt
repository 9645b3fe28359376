-- ===== src/Plan.antt =====
-- crates/cfapi/src/plan.rs: the steps on disk for a list of changes. The names that `staging_name`
-- returns one after the other are an argument, a sequence.
pub mod Directory
pub mod Inspection
pub mod Stages
pub mod Sequence
pub mod Listing
use elasticdms_desktop.Prelude.{
  ℕ, zero, suc, ◌+◌, Bool, true, false, not, ◌&&◌, ◌||◌, ◌==◌, Option, none, some, List, [], ◌∷◌,
  ◌++◌, if◌then◌else◌, Result, ok, err,
}
use elasticdms_desktop.Text.{Text, text_eq}
use elasticdms_desktop.Namespace.{Container, EntryIdentifier}
use elasticdms_desktop.Namespace.EntryIds.{parent, container}
use elasticdms_desktop.Namespace.Order.{id_eq}
use elasticdms_desktop.Namespace.Entries.{Entry, FileDetails, is_folder, file_of, details_eq}
use elasticdms_desktop.Change.{Change, new, changed, removed, identifier, content_stale}
use elasticdms_desktop.PathMap.{Location, PathMap, location, knows, is_populated, is_some}
use elasticdms_desktop.Checks.{NameError, check_name}

pub data Step : Type 0 where
  remove : EntryIdentifier → Step
  staging_name : EntryIdentifier → Text → Step
  final_name : EntryIdentifier → Text → Step
  update : Entry → Bool → Step
  create : Entry → Step

-- `Plan`; `asked` counts the calls of `staging_name`
pub record Plan : Type 0 where
  pub removals : List Step
  pub between : List Step
  pub finals : List Step
  pub updates : List Step
  pub creations : List Step
  pub asked : ℕ

-- The third arm of `Plan::should`: the entry is known and of the same kind.
abbrev pub staging : (ℕ → Text) → Entry → Plan → Plan
staging names e p = record {
  removals = p.removals;
  between = p.between ++ staging_name e.identifier (names p.asked) ∷ [];
  finals = p.finals ++ final_name e.identifier e.name ∷ [];
  updates = p.updates;
  creations = p.creations;
  asked = p.asked + 1;
}

abbrev pub renaming : (ℕ → Text) → Entry → Location → Plan → Plan
renaming names e l p = if text_eq l.name e.name then p else staging names e p

abbrev pub push_update : Entry → Bool → Plan → Plan
push_update e stale p = record {
  removals = p.removals;
  between = p.between;
  finals = p.finals;
  updates = p.updates ++ update e stale ∷ [];
  creations = p.creations;
  asked = p.asked;
}

abbrev pub updating : Entry → Bool → Bool → Plan → Plan
updating e stale details_changed p =
    if not (is_folder e) && (stale || details_changed) then push_update e stale p else p

abbrev pub creating : Entry → Plan → Plan
creating e p = record {
  removals = p.removals;
  between = p.between;
  finals = p.finals;
  updates = p.updates;
  creations = p.creations ++ create e ∷ [];
  asked = p.asked;
}

abbrev pub removing : EntryIdentifier → Plan → Plan
removing k p = record {
  removals = p.removals ++ remove k ∷ [];
  between = p.between;
  finals = p.finals;
  updates = p.updates;
  creations = p.creations;
  asked = p.asked;
}

abbrev pub same_kind : Bool → Bool → Bool
same_kind a b = (a && b) || (not a && not b)

-- `Plan::should`
abbrev pub should_at : Option Location → (ℕ → Text) → Entry → Bool → Bool → Plan → Plan
should_at none names e stale details_changed p = creating e p
should_at (some l) names e stale details_changed p =
    if same_kind l.folder (is_folder e)
    then updating e stale details_changed (renaming names e l p)
    else creating e (removing e.identifier p)

unfoldable pub should : (ℕ → Text) → PathMap → Entry → Bool → Bool → Plan → Plan
should names map e stale details_changed p =
    should_at (location map e.identifier) names e stale details_changed p

abbrev pub same_details : Option FileDetails → Option FileDetails → Bool
same_details none none = true
same_details (some a) (some b) = details_eq a b
same_details _ _ = false

-- The `match` in the loop of `plan`
unfoldable pub plan_change : (ℕ → Text) → PathMap → Change → Plan → Plan
unfolding should
plan_change names map (removed e) p = if knows map e.identifier then removing e.identifier p else p
plan_change names map (new e) p = should names map e false true p
plan_change names map (changed before after) p =
    should names map after (content_stale (changed before after))
      (not (same_details (file_of before) (file_of after))) p

abbrev pub lies_in_populated : PathMap → Option Container → Bool
lies_in_populated map none = false
lies_in_populated map (some c) = is_populated map c

-- The loop of `plan`
unfoldable pub plan_all : (ℕ → Text) → PathMap → List Change → Plan → Plan
unfolding plan_change
plan_all names map [] p = p
plan_all names map (c ∷ cs) p =
    plan_all names map cs
      (if lies_in_populated map (parent (identifier c)) then plan_change names map c p else p)

abbrev pub no_steps : Plan
no_steps = record {
  removals = [];
  between = [];
  finals = [];
  updates = [];
  creations = [];
  asked = 0;
}

abbrev pub steps_of : Plan → List Step
steps_of p = p.removals ++ (p.between ++ (p.finals ++ (p.updates ++ p.creations)))

-- `plan`
unfoldable pub plan : (ℕ → Text) → PathMap → List Change → List Step
unfolding plan_all
plan names map changes = steps_of (plan_all names map changes no_steps)

abbrev pub has_form : Text → List Text → Bool
has_form f [] = false
has_form f (g ∷ gs) = text_eq g f || has_form f gs
