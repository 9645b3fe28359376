-- ===== src/Engine/Platform.antt =====
-- crates/core/src/port.rs and crates/engine/src/delivery.rs: the calls of the platform that a dehydration
-- makes, and what comes together meanwhile.
use elasticdms_desktop.Prelude.{
  ℕ, ◌+◌, Bool, true, false, Option, none, some, List, [], ◌∷◌, if◌then◌else◌, Result,
}
use elasticdms_desktop.Text.{Text}
use elasticdms_desktop.Namespace.{Container, EntryIdentifier}
use elasticdms_desktop.Namespace.Order.{id_eq}
use elasticdms_desktop.Change.{Change}
use elasticdms_desktop.Delivery.{applied, not_applicable, failed}
use elasticdms_desktop.Wire.Envelope.{Acknowledgement, acknowledgement}
use elasticdms_desktop.Store.Contents.{Contents}

-- `LocalState`, and its default
pub record LocalState : Type 0 where
  pub present : Bool
  pub hydrated : Bool
  pub pinned : Bool

abbrev pub absent : LocalState
absent = record { present = false; hydrated = false; pinned = false }

-- `PlatformError`
pub data PlatformError : Type 0 where
  not_ready : PlatformError
  not_found : EntryIdentifier → PlatformError
  in_use : EntryIdentifier → PlatformError
  operating_system : Text → PlatformError
  not_supported : Text → PlatformError

-- The calls of the port that a dehydration makes, on whatever the platform is.
pub record FileSystem (F : Type 0) : Type 0 where
  pub state : EntryIdentifier → F → Result PlatformError LocalState
  pub dehydrate : EntryIdentifier → Bool → F → Result PlatformError (Unit {0}) × F
  pub remove : EntryIdentifier → F → Result PlatformError (Unit {0}) × F
  pub report_change : List Change → F → F
  pub text : PlatformError → Text

-- What was asked of the platform: a release with the state that was read and whether the pin was to be
-- lifted, and a removal.
pub data Call : Type 0 where
  released : EntryIdentifier → LocalState → Bool → Call
  removes : EntryIdentifier → Call

-- `DehydrateSituation`; the set of containers is the list without repetition
pub record Situation : Type 0 where
  pub effective : Bool
  pub released : ℕ
  pub error : Option Text
  pub to_trigger : List Container

abbrev pub untouched : Situation
untouched = record { effective = false; released = 0; error = none; to_trigger = [] }

abbrev pub first_error : Text → Option Text → Option Text
first_error reason none = some reason
first_error reason (some e) = some e

-- `remember`
unfoldable pub remember : Text → Situation → Situation
remember reason s = record s { error = first_error reason s.error }

-- `acknowledgement`
abbrev pub judged : Option Text → Bool → Acknowledgement
judged (some reason) effective = acknowledgement failed (some reason)
judged none true = acknowledgement applied none
judged none false = acknowledgement not_applicable none

-- What the function works on: the platform, the calls to it (the latest first), the store.
pub record Desk (F : Type 0) : Type 0 where
  pub platform : F
  pub calls : List Call
  pub contents : Contents
  pub situation : Situation

-- Whether the database answers, for one document: `placements`, `remove_document_everywhere`,
-- `redact`; and the text of its complaint.
pub record Answers : Type 0 where
  pub reads : Bool
  pub removal : Bool
  pub redaction : Bool
  pub complaint : Text

abbrev pub with_situation : {F : Type 0} → (Situation → Situation) → Desk F → Desk F
with_situation f w = record w { situation = f w.situation }

-- `usize::from(state.hydrated)`
abbrev pub count_one : Bool → ℕ → ℕ
count_one true n = n + 1
count_one false n = n

-- `set.insert`
unfoldable pub insert_container : Container → List Container → List Container
insert_container c [] = c ∷ []
insert_container c (d ∷ set) =
    let rest = insert_container c set in
    if id_eq (EntryIdentifier.container c) (EntryIdentifier.container d) then d ∷ set else d ∷ rest
