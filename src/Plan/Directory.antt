-- ===== src/Plan/Directory.antt =====
-- crates/cfapi/src/plan.rs: the reconciliation of a listing with a directory. `comparison_form` is
-- an argument; a hash map by name is the list of what went into it.
use elasticdms_desktop.Prelude.{Bool, Option, none, some, List, [], ◌∷◌, ◌++◌, if◌then◌else◌}
use elasticdms_desktop.Text.{Text, text_eq}
use elasticdms_desktop.Namespace.Entries.{Entry, is_folder}
use elasticdms_desktop.Plan.{same_kind, has_form}

pub record FoundOnDisk : Type 0 where
  pub name : Text
  pub folder : Bool

pub data FollowUp : Type 0 where
  delete : Text → Bool → FollowUp
  check : Text → Entry → FollowUp
  create : Entry → FollowUp

-- The hash map `by_name`: of two names with one form, the later one
unfoldable pub by_form : (Text → Text) → Text → List FoundOnDisk → Option FoundOnDisk
by_form fold form [] = none
by_form fold form (v ∷ vs) = elim (by_form fold form vs) [
  | some u ↦ some u
  | none ↦ if text_eq (fold v.name) form then some v else none
]

-- The five lists that `reconcile` fills
pub record Matching : Type 0 where
  pub transfer : List Entry
  pub matched : List Text
  pub deletions : List FollowUp
  pub checks : List FollowUp
  pub creations : List FollowUp

-- One round of the first loop of `reconcile`
abbrev pub match_entry : Option FoundOnDisk → Text → Entry → Matching → Matching
match_entry none form e m = record {
  transfer = m.transfer ++ e ∷ [];
  matched = m.matched;
  deletions = m.deletions;
  checks = m.checks;
  creations = m.creations;
}
match_entry (some v) form e m =
    if same_kind v.folder (is_folder e)
    then record {
      transfer = m.transfer;
      matched = form ∷ m.matched;
      deletions = m.deletions;
      checks = m.checks ++ FollowUp.check v.name e ∷ [];
      creations = m.creations;
    }
    else record {
      transfer = m.transfer;
      matched = form ∷ m.matched;
      deletions = m.deletions ++ FollowUp.delete v.name v.folder ∷ [];
      checks = m.checks;
      creations = m.creations ++ FollowUp.create e ∷ [];
    }

unfoldable pub match_entries : (Text → Text) → List FoundOnDisk → List Entry → Matching → Matching
unfolding by_form
match_entries fold found [] m = m
match_entries fold found (e ∷ es) m =
    match_entries fold found es (match_entry (by_form fold (fold e.name) found) (fold e.name) e m)

-- The second loop of `reconcile`
unfoldable pub leftovers : (Text → Text) → List Text → List FoundOnDisk → List FollowUp
leftovers fold matched [] = []
leftovers fold matched (v ∷ vs) =
    let rest = leftovers fold matched vs in
    if has_form (fold v.name) matched then rest else FollowUp.delete v.name v.folder ∷ rest

-- `reconcile`: what is transferred, and the work that follows
unfoldable pub reconcile :
    (Text → Text) → List FoundOnDisk → List Entry → List Entry × List FollowUp
unfolding match_entries leftovers
reconcile fold found listing =
    let m =
      match_entries fold found listing
        (record { transfer = []; matched = []; deletions = []; checks = []; creations = [] }) in
    (m.transfer, (m.deletions ++ leftovers fold m.matched found) ++ (m.checks ++ m.creations))
