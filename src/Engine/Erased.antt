-- ===== src/Engine/Erased.antt =====
-- crates/engine/src/delivery.rs and crates/store/src: what an erasure that was not reported as failed
-- has erased.
use elasticdms_desktop.Prelude.{
  ℕ, ◌≡◌, ◌≢◌, ◌⊎◌, inl, inr, refl, Bool, true, false, Option, none, some, List, [], ◌∷◌, ◌++◌,
  arith, Result, ok, err, Bool-cases, Result-cases,
}
use elasticdms_desktop.Prelude.Int.{ℤ}
use elasticdms_desktop.Text.{Text}
use elasticdms_desktop.Namespace.Entries.{Entry}
use elasticdms_desktop.Log.{LogEntry, erased_by_order_entry}
use elasticdms_desktop.Delivery.{erasure, actions, failed}
use elasticdms_desktop.Wire.Envelope.{acknowledgement}
use elasticdms_desktop.Store.Journal.{JournalEntry, JournalError, is_document, journal}
use elasticdms_desktop.Store.Journal
use elasticdms_desktop.Store.Contents.{
  Contents, placements, identifiers, read_placed, delete_document, remove_document_everywhere,
  names_document, removals, redacted_journal,
}
use elasticdms_desktop.Engine.Platform.{untouched, FileSystem, Situation, judged, Desk, Answers}
use elasticdms_desktop.Engine.Dehydrate.{
  register_with_platform, after_removal, remove_document, redact_document, dehydrate_one,
  dehydrate_all, write_row, dehydrate,
}
use elasticdms_desktop.Engine.Quiet.{
  IsNameless, IsErased, Fine, read_placed-delete_document, read_placed_keep, redact_log-IsNameless,
  redact_log_keep, remembered, Quiet, Quiet-refl, Quiet-Fine, free_all-Quiet,
}

-- What a removal leaves of the document in the store.
remove_everywhere :
    (d : ℕ) (now : ℤ) (limit : ℕ) (c c' : Contents) (entries : List JournalEntry)
    → remove_document_everywhere d now limit c ≡ ok (entries, c')
    → (c'.entries ≡ delete_document d c.entries) × (c'.log ≡ c.log)
unfolding remove_document_everywhere
remove_everywhere d now limit c c' entries h =
    elim (Result-cases (
      journal (removals (read_placed d c.entries)) now limit Journal.JournalForm.redacted
        (redacted_journal d c.journal))) [
          | inl (written, e) ↦ ground arith
          | inr (u, e) ↦ ground arith
        ]

identifiers_nil : (entries : List Entry) → identifiers entries ≡ [] → entries ≡ []
identifiers_nil [] h = refl
identifiers_nil (e ∷ entries) h = absurd (ground arith)

module _ {F : Type 0} (fs : FileSystem F) (mounted : Bool) (a : Answers) (now : ℤ)
    (limit d : ℕ) where
  register-Quiet :
      (entries : List JournalEntry) (w : Desk F)
      → Quiet w (register_with_platform fs mounted entries w)
  register-Quiet entries w = elim (Bool-cases mounted) [
    | inl e ↦ rw e (record { same = refl; keeps = λ h. h })
    | inr e ↦ rw e (Quiet-refl w)
  ]

  -- After the removal the document has no place, or there is an error.
  abbrev GoneOr : Desk F → Type 0
  GoneOr w = (w.situation.error ≢ none) ⊎ (placements d w.contents ≡ [])

  after_removal-GoneOr :
      (r : Result JournalError (List JournalEntry × Contents)) (w : Desk F)
      → remove_document_everywhere d now limit w.contents ≡ r
      → GoneOr (after_removal fs mounted a.complaint r w)
  unfolding placements
  after_removal-GoneOr (err u) w h = inl (remembered a.complaint w.situation)
  after_removal-GoneOr (ok (entries, contents)) w h =
      let (gone, _) = remove_everywhere d now limit w.contents contents entries h in
      let w' = record w {
        contents = contents;
        situation = record w.situation { effective = true };
      } in
      inr (
        rw
          ((register-Quiet entries w').same, gone, read_placed-delete_document d w.contents.entries)
          refl)

  remove_document-GoneOr :
      (w : Desk F) → GoneOr (remove_document fs mounted a erasure d now limit w)
  unfolding actions
  remove_document-GoneOr w = elim (Bool-cases a.removal) [
    | inl e ↦ rw e (after_removal-GoneOr (remove_document_everywhere d now limit w.contents) w refl)
    | inr e ↦ rw e (inl (remembered a.complaint w.situation))
  ]

  redact_document-Fine : (w : Desk F) → GoneOr w → Fine d (redact_document fs a erasure d w)
  unfolding actions placements
  redact_document-Fine w h = elim (Bool-cases a.redaction) [
    | inl e ↦ rw e (elim h [
      | inl wrong ↦ inl wrong
      | inr gone ↦ inr (gone, redact_log-IsNameless d w.contents.log)
    ])
    | inr e ↦ rw e (inl (remembered a.complaint w.situation))
  ]

  -- What is erased stays erased while another document is dealt with.
  after_removal_keep :
      (b : ℕ) (r : Result JournalError (List JournalEntry × Contents)) (w : Desk F)
      → remove_document_everywhere d now limit w.contents ≡ r
      → Fine b w
      → Fine b (after_removal fs mounted a.complaint r w)
  unfolding placements
  after_removal_keep b (err u) w h fine = inl (remembered a.complaint w.situation)
  after_removal_keep b (ok (entries, contents)) w h fine =
      let (gone, log) = remove_everywhere d now limit w.contents contents entries h in
      let w' = record w {
        contents = contents;
        situation = record w.situation { effective = true };
      } in
      Quiet-Fine b w' (register_with_platform fs mounted entries w') (register-Quiet entries w')
        (elim fine [
          | inl wrong ↦ inl wrong
          | inr (none_left, nameless) ↦
              let none_read = identifiers_nil (read_placed b w.contents.entries) none_left in
              inr
                (rw (gone, read_placed_keep b d w.contents.entries none_read) refl, rw log nameless)
        ])

  remove_document_keep :
      (b : ℕ) (w : Desk F) → Fine b w → Fine b (remove_document fs mounted a erasure d now limit w)
  unfolding actions
  remove_document_keep b w fine = elim (Bool-cases a.removal) [
    | inl e ↦
        rw e (after_removal_keep b (remove_document_everywhere d now limit w.contents) w refl fine)
    | inr e ↦ rw e (inl (remembered a.complaint w.situation))
  ]

  redact_document_keep : (b : ℕ) (w : Desk F) → Fine b w → Fine b (redact_document fs a erasure d w)
  unfolding actions placements
  redact_document_keep b w fine = elim (Bool-cases a.redaction) [
    | inl e ↦ rw e (elim fine [
      | inl wrong ↦ inl wrong
      | inr (gone, nameless) ↦ inr (gone, redact_log_keep b d w.contents.log nameless)
    ])
    | inr e ↦ rw e (inl (remembered a.complaint w.situation))
  ]

  dehydrate_one-Fine : (w : Desk F) → Fine d (dehydrate_one fs mounted erasure now limit (a, d) w)
  unfolding dehydrate_one
  dehydrate_one-Fine w = elim (Bool-cases a.reads) [
    | inl e ↦ rw e (redact_document-Fine _ (remove_document-GoneOr _))
    | inr e ↦ rw e (inl (remembered a.complaint w.situation))
  ]

  dehydrate_one_keep :
      (b : ℕ) (w : Desk F) → Fine b w → Fine b (dehydrate_one fs mounted erasure now limit (a, d) w)
  unfolding dehydrate_one
  dehydrate_one_keep b w fine = elim (Bool-cases a.reads) [
    | inl e ↦ rw e (
        redact_document_keep b _ (
          remove_document_keep b _ (
            Quiet-Fine b _ _ (free_all-Quiet fs mounted erasure (placements d w.contents) _) fine)))
    | inr e ↦ rw e (inl (remembered a.complaint w.situation))
  ]

-- The documents of the command
abbrev pub IsAmong : ℕ → List (Answers × ℕ) → Type 0
IsAmong b [] = ⊥
IsAmong b ((_, d) ∷ documents) = (d ≡ b) ⊎ IsAmong b documents

module _ {F : Type 0} (fs : FileSystem F) (mounted : Bool) (now : ℤ) (limit : ℕ) where
  dehydrate_all_keep :
      (b : ℕ) (documents : List (Answers × ℕ)) (w : Desk F)
      → Fine b w
      → Fine b (dehydrate_all fs mounted erasure now limit documents w)
  unfolding dehydrate_all
  dehydrate_all_keep b [] w fine = fine
  dehydrate_all_keep b ((a, d) ∷ documents) w fine =
      dehydrate_all_keep b documents (dehydrate_one fs mounted erasure now limit (a, d) w)
        (dehydrate_one_keep fs mounted a now limit d b w fine)

  dehydrate_all-Fine :
      (b : ℕ) (documents : List (Answers × ℕ)) (w : Desk F)
      → IsAmong b documents
      → Fine b (dehydrate_all fs mounted erasure now limit documents w)
  unfolding dehydrate_all
  dehydrate_all-Fine b [] w among = absurd among
  dehydrate_all-Fine b ((a, d) ∷ documents) w (inl same) =
      dehydrate_all_keep b documents (dehydrate_one fs mounted erasure now limit (a, d) w)
        (rw⁻¹ same (dehydrate_one-Fine fs mounted a now limit d w))
  dehydrate_all-Fine b ((a, d) ∷ documents) w (inr among) =
      dehydrate_all-Fine b documents (dehydrate_one fs mounted erasure now limit (a, d) w) among

IsNameless-row :
    (d : ℕ) (log : List LogEntry) (row : LogEntry)
    → IsNameless d log
    → names_document d row.subject ≡ false
    → IsNameless d (log ++ row ∷ [])
IsNameless-row d [] row h k = (k, tt)
IsNameless-row d (other ∷ log) row h k = (h.0, IsNameless-row d log row h.1 k)

write_row-IsNameless :
    (d : ℕ) (now : ℤ) (sentence : Text) (s : Situation) (log : List LogEntry)
    → IsNameless d log
    → IsNameless d (write_row erasure now sentence s log)
unfolding write_row erased_by_order_entry
write_row-IsNameless d now sentence s log h = elim (Bool-cases s.effective) [
  | inl e ↦ rw e (IsNameless-row d log (erased_by_order_entry now) h refl)
  | inr e ↦ rw e h
]

judged_failed :
    (error : Option Text) (effective : Bool)
    → (judged error effective).outcome ≢ failed
    → error ≡ none
unfolding acknowledgement
judged_failed none effective h = refl
judged_failed (some t) effective h = absurd (h refl)

-- An erasure that is not reported as failed has erased each of its documents.
pub dehydrate-IsErased :
    {F : Type 0} (fs : FileSystem F) (mounted : Bool) (now : ℤ) (limit : ℕ) (sentence : Text)
    (documents : List (Answers × ℕ)) (f : F) (c : Contents) (b : ℕ)
    → IsAmong b documents
    → (dehydrate fs mounted now limit sentence erasure documents f c).0.outcome ≢ failed
    → IsErased b (dehydrate fs mounted now limit sentence erasure documents f c).1.contents
unfolding dehydrate placements
dehydrate-IsErased {F = F} fs mounted now limit sentence documents f c b among done =
    let start : Desk F = record { platform = f; calls = []; contents = c; situation = untouched } in
    let w = dehydrate_all fs mounted erasure now limit documents start in
    elim (dehydrate_all-Fine fs mounted now limit b documents start among) [
      | inl wrong ↦ absurd (wrong (judged_failed w.situation.error w.situation.effective done))
      | inr (gone, nameless) ↦
          (gone, write_row-IsNameless b now sentence w.situation w.contents.log nameless)
    ]
