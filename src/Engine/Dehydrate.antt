-- ===== src/Engine/Dehydrate.antt =====
-- crates/engine/src/delivery.rs: the command `DEHYDRATE`, from the placements of its documents to the
-- acknowledgement. `FileSystem` is the port of crates/core/src/port.rs; the sentences of the
-- catalogue are arguments.
use elasticdms_desktop.Prelude.{
  ℕ, ◌==◌, Bool, true, false, not, ◌||◌, some, List, [], ◌∷◌, ◌++◌, if◌then◌else◌, Result, ok, err,
}
use elasticdms_desktop.Prelude.Int.{ℤ}
use elasticdms_desktop.Text.{Text}
use elasticdms_desktop.Namespace.{Container, EntryIdentifier}
use elasticdms_desktop.Namespace.Containers.{from_location}
use elasticdms_desktop.Change.{Change}
use elasticdms_desktop.Log.{LogEntry, LogKind, plain, erased_by_order_entry}
use elasticdms_desktop.Delivery.{Reason, erasure, access_revoked, space_reclaim, Actions, actions}
use elasticdms_desktop.Wire.Envelope.{Acknowledgement, acknowledgement}
use elasticdms_desktop.Store.Journal.{JournalEntry, JournalError}
use elasticdms_desktop.Store.Contents.{Contents, placements, remove_document_everywhere, redact_log}
use elasticdms_desktop.Engine.Platform.{
  LocalState, absent, PlatformError, FileSystem, Call, Situation, untouched, remember, judged, Desk,
  Answers, with_situation, count_one, insert_container, not_ready, not_found, released, removes,
}

module _ {F : Type 0} (fs : FileSystem F) where
  -- After `file_system.dehydrate`
  abbrev pub after_release :
      LocalState → Result PlatformError (Unit {0}) × F → Call → Desk F → Desk F
  after_release st (ok _, f) call w = record w {
    platform = f;
    calls = call ∷ w.calls;
    situation = record w.situation { released = count_one st.hydrated w.situation.released };
  }
  after_release st (err e, f) call w = record w {
    platform = f;
    calls = call ∷ w.calls;
    situation = remember (fs.text e) w.situation;
  }

  abbrev pub release : EntryIdentifier → LocalState → Actions → Desk F → Desk F
  release k st action w =
      if action.dehydrate || action.unpin
      then after_release st (fs.dehydrate k action.unpin w.platform) (released k st action.unpin) w
      else w

  -- After `file_system.remove`
  abbrev pub after_remove : Result PlatformError (Unit {0}) × F → Call → Desk F → Desk F
  after_remove (ok _, f) call w = record w { platform = f; calls = call ∷ w.calls }
  after_remove (err e, f) call w = record w {
    platform = f;
    calls = call ∷ w.calls;
    situation = remember (fs.text e) w.situation;
  }

  abbrev pub remove_entry : EntryIdentifier → Actions → Desk F → Desk F
  remove_entry k action w =
      if action.remove_entry then after_remove (fs.remove k w.platform) (removes k) w else w

  abbrev pub free_in : EntryIdentifier → Reason → LocalState → Desk F → Desk F
  free_in k reason st w =
      remove_entry k (actions reason st.pinned) (release k st (actions reason st.pinned) w)

  abbrev pub free_by_state :
      EntryIdentifier → Reason → Result PlatformError LocalState → Desk F → Desk F
  free_by_state k reason (ok st) w = free_in k reason st w
  free_by_state k reason (err (not_found _)) w = free_in k reason absent w
  free_by_state k reason (err not_ready) w = free_in k reason absent w
  free_by_state k reason (err e) w = with_situation (remember (fs.text e)) w

  -- `give_location_free`
  unfoldable pub give_location_free : EntryIdentifier → Reason → Desk F → Desk F
  unfolding actions remember
  give_location_free k reason w = free_by_state k reason (fs.state k w.platform) w

  -- The set of containers whose listing is fetched anew
  abbrev pub triggered : Reason → EntryIdentifier → List Container → List Container
  triggered reason (EntryIdentifier.document location d) set =
      if (actions reason false).trigger_reconcile
      then insert_container (from_location location) set
      else set
  triggered reason _ set = set

  -- One turn of the loop over the placements; `mounted` is whether the platform has registered.
  abbrev pub free_one : Bool → Reason → EntryIdentifier → Desk F → Desk F
  free_one mounted reason k w =
      let w' = with_situation (λ s. record s { to_trigger = triggered reason k s.to_trigger }) w in
      if mounted then give_location_free k reason w' else w'

  unfoldable pub free_all : Bool → Reason → List EntryIdentifier → Desk F → Desk F
  unfolding give_location_free
  free_all mounted reason [] w = w
  free_all mounted reason (k ∷ locations) w =
      free_all mounted reason locations (free_one mounted reason k w)

  abbrev changes_of : List JournalEntry → List Change
  changes_of [] = []
  changes_of (e ∷ entries) = e.change ∷ changes_of entries

  -- `register_with_platform`
  abbrev pub register_with_platform : Bool → List JournalEntry → Desk F → Desk F
  register_with_platform mounted entries w =
      if mounted
      then record w { platform = fs.report_change (changes_of entries) w.platform }
      else w

  abbrev pub after_removal :
      Bool → Text → Result JournalError (List JournalEntry × Contents) → Desk F → Desk F
  after_removal mounted complaint (err _) w = with_situation (remember complaint) w
  after_removal mounted complaint (ok (entries, contents)) w =
      register_with_platform mounted entries
        (record w { contents = contents; situation = record w.situation { effective = true } })

  -- `if without_pinning.remove_entry`
  abbrev pub remove_document : Bool → Answers → Reason → ℕ → ℤ → ℕ → Desk F → Desk F
  remove_document mounted a reason d now limit w =
      if (actions reason false).remove_entry
      then (if a.removal
          then after_removal mounted a.complaint (remove_document_everywhere d now limit w.contents)
              w
          else with_situation (remember a.complaint) w)
      else w

  -- `if without_pinning.redact_log`
  abbrev pub redact_document : Answers → Reason → ℕ → Desk F → Desk F
  redact_document a reason d w =
      if (actions reason false).redact_log
      then (if a.redaction
          then record w { contents = record w.contents { log = redact_log d w.contents.log } }
          else with_situation (remember a.complaint) w)
      else w

  abbrev is_nonempty : List EntryIdentifier → Bool
  is_nonempty [] = false
  is_nonempty (_ ∷ _) = true

  -- One turn of the loop over the documents
  unfoldable pub dehydrate_one : Bool → Reason → ℤ → ℕ → Answers × ℕ → Desk F → Desk F
  unfolding free_all
  dehydrate_one mounted reason now limit (a, d) w =
      if a.reads
      then (let locations = placements d w.contents in
          redact_document a reason d (
            remove_document mounted a reason d now limit (
              free_all mounted reason locations (
                with_situation (λ s. record s { effective = s.effective || is_nonempty locations })
                  w))))
      else with_situation (remember a.complaint) w

  unfoldable pub dehydrate_all : Bool → Reason → ℤ → ℕ → List (Answers × ℕ) → Desk F → Desk F
  unfolding dehydrate_one
  dehydrate_all mounted reason now limit [] w = w
  dehydrate_all mounted reason now limit (document ∷ documents) w =
      dehydrate_all mounted reason now limit documents
        (dehydrate_one mounted reason now limit document w)

-- The rows of `write_row`, the sentences with their number being arguments
abbrev rows_of : Reason → ℤ → ℕ → Text → List LogEntry
rows_of erasure now freed sentence = erased_by_order_entry now ∷ []
rows_of access_revoked now freed sentence = plain now LogKind.access_revoked (some sentence) ∷ []
rows_of space_reclaim now freed sentence =
    if freed == 0 then [] else plain now LogKind.space_reclaimed (some sentence) ∷ []

-- `write_row`
unfoldable pub write_row : Reason → ℤ → Text → Situation → List LogEntry → List LogEntry
write_row reason now sentence s log =
    if not s.effective then log else log ++ rows_of reason now s.released sentence

-- `dehydrate`, with the acknowledgement and what it leaves; `to_trigger` is what `trigger` fetches.
unfoldable pub dehydrate :
    {F : Type 0}
    → FileSystem F
    → Bool
    → ℤ
    → ℕ
    → Text
    → Reason
    → List (Answers × ℕ)
    → F
    → Contents
    → Acknowledgement × Desk F
unfolding dehydrate_all write_row acknowledgement
dehydrate fs mounted now limit sentence reason documents f c =
    let w =
      dehydrate_all fs mounted reason now limit documents
        (record { platform = f; calls = []; contents = c; situation = untouched }) in
    (
      judged w.situation.error w.situation.effective,
      record w {
        contents = record w.contents {
          log = write_row reason now sentence w.situation w.contents.log;
        };
      },
    )
