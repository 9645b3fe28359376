-- ===== src/Engine/Quiet.antt =====
-- crates/engine/src/delivery.rs and crates/store/src: the parts of a dehydration that leave the store
-- alone, and what the store forgets.
use elasticdms_desktop.Prelude.{
  ℕ, ◌≡◌, ◌≢◌, ◌⊎◌, inl, inr, refl, Bool, true, false, ◌||◌, Option, none, some, List, [], ◌∷◌,
  arith, Result, ok, err, All, Bool-cases, Option-cases,
}
use elasticdms_desktop.Text.{Text}
use elasticdms_desktop.Namespace.{EntryIdentifier}
use elasticdms_desktop.Namespace.EntryIds.{document}
use elasticdms_desktop.Namespace.Entries.{Entry}
use elasticdms_desktop.Log.{LogEntry, redacted}
use elasticdms_desktop.Delivery.{Reason, actions, Actions}
use elasticdms_desktop.Store.Journal.{is_document}
use elasticdms_desktop.Store.Contents.{
  EntryRow, Contents, placements, read_placed, insert_by_text, delete_document, redact_log,
  names_document,
}
use elasticdms_desktop.Engine.Platform.{
  LocalState, absent, PlatformError, not_found, not_ready, in_use, operating_system, not_supported,
  FileSystem, Call, Situation, remember, first_error, Desk, with_situation, released, removes,
}
use elasticdms_desktop.Engine.Dehydrate.{
  after_release, release, after_remove, remove_entry, free_in, free_by_state, give_location_free,
  free_one, triggered, free_all,
}

-- No row of the usage log names the document.
abbrev pub IsNameless : ℕ → List LogEntry → Type 0
IsNameless d log = All (λ row. names_document d row.subject ≡ false) log

-- No place of the document is left, and no row that names it.
abbrev pub IsErased : ℕ → Contents → Type 0
IsErased d c = (placements d c ≡ []) × IsNameless d c.log

-- The document is erased, or something went wrong.
abbrev pub Fine : {F : Type 0} → ℕ → Desk F → Type 0
Fine d w = (w.situation.error ≢ none) ⊎ IsErased d w.contents

pub read_placed-delete_document :
    (d : ℕ) (rows : List EntryRow) → read_placed d (delete_document d rows) ≡ []
unfolding read_placed delete_document
read_placed-delete_document d [] = refl
read_placed-delete_document d (row ∷ rows) =
    elim (Bool-cases (is_document d (document row.entry.identifier))) [
      | inl e ↦ rw e (read_placed-delete_document d rows)
      | inr e ↦ rw (e, e) (read_placed-delete_document d rows)
    ]

insert_by_text_nonempty : (e : Entry) (entries : List Entry) → insert_by_text e entries ≢ []
unfolding insert_by_text
insert_by_text_nonempty e [] h = ground arith
insert_by_text_nonempty e (f ∷ entries) h = ground arith

-- Deleting another document brings none back.
pub read_placed_keep :
    (d e : ℕ) (rows : List EntryRow)
    → read_placed d rows ≡ []
    → read_placed d (delete_document e rows) ≡ []
unfolding read_placed delete_document
read_placed_keep d e [] h = refl
read_placed_keep d e (row ∷ rows) h =
    elim (Bool-cases (is_document d (document row.entry.identifier))) [
      | inl p ↦ absurd (insert_by_text_nonempty row.entry (read_placed d rows) (rw p at h))
      | inr p ↦ elim (Bool-cases (is_document e (document row.entry.identifier))) [
        | inl q ↦ rw q (read_placed_keep d e rows (rw p at h))
        | inr q ↦ rw (q, p) (read_placed_keep d e rows (rw p at h))
      ]
    ]

redacted_nameless : (d : ℕ) (row : LogEntry) → names_document d (redacted row).subject ≡ false
unfolding redacted
redacted_nameless d row = elim (Option-cases row.subject) [
  | inl e ↦ rw e refl
  | inr (subject, e) ↦ rw e refl
]

pub redact_log-IsNameless : (d : ℕ) (log : List LogEntry) → IsNameless d (redact_log d log)
unfolding redact_log redacted
redact_log-IsNameless d [] = tt
redact_log-IsNameless d (row ∷ rows) = elim (Bool-cases (names_document d row.subject)) [
  | inl e ↦ rw e (redacted_nameless d row, redact_log-IsNameless d rows)
  | inr e ↦ rw e (e, redact_log-IsNameless d rows)
]

pub redact_log_keep :
    (d e : ℕ) (log : List LogEntry) → IsNameless d log → IsNameless d (redact_log e log)
unfolding redact_log redacted
redact_log_keep d e [] h = tt
redact_log_keep d e (row ∷ rows) h = elim (Bool-cases (names_document e row.subject)) [
  | inl q ↦ rw q (redacted_nameless d row, redact_log_keep d e rows h.1)
  | inr q ↦ rw q (h.0, redact_log_keep d e rows h.1)
]

some_error : (t : Text) (e : Option Text) → first_error t e ≢ none
some_error t none h = ground arith
some_error t (some u) h = ground arith

pub remembered : (t : Text) (s : Situation) → (remember t s).error ≢ none
unfolding remember
remembered t s = some_error t s.error

module _ {F : Type 0} where
  -- A step that leaves the store alone and forgets no error.
  pub record Quiet (w w' : Desk F) : Type 0 where
    pub same : w'.contents ≡ w.contents
    pub keeps : w.situation.error ≢ none → w'.situation.error ≢ none

  pub Quiet-refl : (w : Desk F) → Quiet w w
  Quiet-refl w = record { same = refl; keeps = λ h. h }

  Quiet-trans : (u v w : Desk F) → Quiet u v → Quiet v w → Quiet u w
  Quiet-trans u v w p q = record { same = cc (p.same, q.same); keeps = λ h. q.keeps (p.keeps h) }

  pub Quiet-Fine : (d : ℕ) (w w' : Desk F) → Quiet w w' → Fine d w → Fine d w'
  Quiet-Fine d w w' q (inl h) = inl (q.keeps h)
  Quiet-Fine d w w' q (inr h) = inr (rw q.same h)

module _ {F : Type 0} (fs : FileSystem F) where
  after_release-Quiet :
      (st : LocalState) (r : Result PlatformError (Unit {0}) × F) (call : Call) (w : Desk F)
      → Quiet w (after_release fs st r call w)
  after_release-Quiet st (ok _, f) call w = record { same = refl; keeps = λ h. h }
  after_release-Quiet st (err e, f) call w = record {
    same = refl;
    keeps = λ h. remembered (fs.text e) w.situation;
  }

  after_remove-Quiet :
      (r : Result PlatformError (Unit {0}) × F) (call : Call) (w : Desk F)
      → Quiet w (after_remove fs r call w)
  after_remove-Quiet (ok _, f) call w = record { same = refl; keeps = λ h. h }
  after_remove-Quiet (err e, f) call w = record {
    same = refl;
    keeps = λ h. remembered (fs.text e) w.situation;
  }

  release-Quiet :
      (k : EntryIdentifier) (st : LocalState) (action : Actions) (w : Desk F)
      → Quiet w (release fs k st action w)
  release-Quiet k st action w = elim (Bool-cases (action.dehydrate || action.unpin)) [
    | inl e ↦ rw e (
        after_release-Quiet st (fs.dehydrate k action.unpin w.platform) (released k st action.unpin)
          w)
    | inr e ↦ rw e (Quiet-refl w)
  ]

  remove_entry-Quiet :
      (k : EntryIdentifier) (action : Actions) (w : Desk F) → Quiet w (remove_entry fs k action w)
  remove_entry-Quiet k action w = elim (Bool-cases action.remove_entry) [
    | inl e ↦ rw e (after_remove-Quiet (fs.remove k w.platform) (removes k) w)
    | inr e ↦ rw e (Quiet-refl w)
  ]

  free_in-Quiet :
      (k : EntryIdentifier) (reason : Reason) (st : LocalState) (w : Desk F)
      → Quiet w (free_in fs k reason st w)
  free_in-Quiet k reason st w =
      let action = actions reason st.pinned in
      Quiet-trans w (release fs k st action w) (remove_entry fs k action (release fs k st action w))
        (release-Quiet k st action w) (remove_entry-Quiet k action (release fs k st action w))

  with_remember-Quiet : (t : Text) (w : Desk F) → Quiet w (with_situation (remember t) w)
  with_remember-Quiet t w = record { same = refl; keeps = λ h. remembered t w.situation }

  free_by_state-Quiet :
      (k : EntryIdentifier) (reason : Reason) (r : Result PlatformError LocalState) (w : Desk F)
      → Quiet w (free_by_state fs k reason r w)
  free_by_state-Quiet k reason (ok st) w = free_in-Quiet k reason st w
  free_by_state-Quiet k reason (err (not_found _)) w = free_in-Quiet k reason absent w
  free_by_state-Quiet k reason (err not_ready) w = free_in-Quiet k reason absent w
  free_by_state-Quiet k reason (err (in_use u)) w = with_remember-Quiet (fs.text (in_use u)) w
  free_by_state-Quiet k reason (err (operating_system u)) w =
      with_remember-Quiet (fs.text (operating_system u)) w
  free_by_state-Quiet k reason (err (not_supported u)) w =
      with_remember-Quiet (fs.text (not_supported u)) w

  free_one-Quiet :
      (mounted : Bool) (reason : Reason) (k : EntryIdentifier) (w : Desk F)
      → Quiet w (free_one fs mounted reason k w)
  unfolding give_location_free
  free_one-Quiet false reason k w = record { same = refl; keeps = λ h. h }
  free_one-Quiet true reason k w =
      let w' =
        with_situation (λ s. record s { to_trigger = triggered fs reason k s.to_trigger }) w in
      Quiet-trans w w' (free_by_state fs k reason (fs.state k w.platform) w')
        (record { same = refl; keeps = λ h. h })
        (free_by_state-Quiet k reason (fs.state k w.platform) w')

  pub free_all-Quiet :
      (mounted : Bool) (reason : Reason) (locations : List EntryIdentifier) (w : Desk F)
      → Quiet w (free_all fs mounted reason locations w)
  unfolding free_all
  free_all-Quiet mounted reason [] w = Quiet-refl w
  free_all-Quiet mounted reason (k ∷ locations) w =
      Quiet-trans w (free_one fs mounted reason k w)
        (free_all fs mounted reason locations (free_one fs mounted reason k w))
        (free_one-Quiet mounted reason k w)
        (free_all-Quiet mounted reason locations (free_one fs mounted reason k w))
