-- ===== src/Store/Contents.antt =====
-- crates/store/src/namespace.rs and crates/store/src/log.rs: the entries of the mirror, the tombstones
-- and the usage log, as far as an erasure changes them.
use elasticdms_desktop.Prelude.{
  ℕ, Bool, true, false, Option, none, some, List, [], ◌∷◌, ltb, ◌==◌, if◌then◌else◌, Result, ok,
  ◌>>=◌,
}
use elasticdms_desktop.Prelude.Int.{ℤ, int_max}
use elasticdms_desktop.Text.{Text}
use elasticdms_desktop.Namespace.{Container, EntryIdentifier}
use elasticdms_desktop.Namespace.EntryIds.{document}
use elasticdms_desktop.Namespace.Texts.{display_entry}
use elasticdms_desktop.Namespace.Entries.{Entry}
use elasticdms_desktop.Change.{Change, removed}
use elasticdms_desktop.Log.{LogEntry, Subject, redacted}
use elasticdms_desktop.Store.Journal.{
  Journal, JournalEntry, JournalError, JournalForm, journal, redact_rows, is_document,
}

-- A row of the table `entry`; its column `document` is that of the identifier.
pub record EntryRow : Type 0 where
  pub entry : Entry
  pub parent : Container
  pub rank : ℕ

-- The tables that an erasure changes: `entry`, `erased`, the journal and `log`
pub record Contents : Type 0 where
  pub entries : List EntryRow
  pub erased : List (ℕ × ℤ)
  pub journal : Journal
  pub log : List LogEntry

-- `ORDER BY identifier`, byte by byte
unfoldable text_before : Text → Text → Bool
text_before [] [] = false
text_before [] (b ∷ t) = true
text_before (a ∷ s) [] = false
text_before (a ∷ s) (b ∷ t) =
    let rest = text_before s t in if ltb a b then true else if a == b then rest else false

unfoldable pub insert_by_text : Entry → List Entry → List Entry
unfolding text_before display_entry
insert_by_text e [] = e ∷ []
insert_by_text e (f ∷ entries) =
    let rest = insert_by_text e entries in
    if text_before (display_entry e.identifier) (display_entry f.identifier)
    then e ∷ f ∷ entries
    else f ∷ rest

-- `read_placed`: `SELECT .. WHERE document = ? ORDER BY identifier`
unfoldable pub read_placed : ℕ → List EntryRow → List Entry
unfolding insert_by_text document
read_placed d [] = []
read_placed d (row ∷ rows) =
    let rest = read_placed d rows in
    if is_document d (document row.entry.identifier) then insert_by_text row.entry rest else rest

abbrev pub identifiers : List Entry → List EntryIdentifier
identifiers [] = []
identifiers (e ∷ entries) = e.identifier ∷ identifiers entries

-- `placements`
unfoldable pub placements : ℕ → Contents → List EntryIdentifier
unfolding read_placed
placements d c = identifiers (read_placed d c.entries)

-- `DELETE FROM entry WHERE document = ?`
unfoldable pub delete_document : ℕ → List EntryRow → List EntryRow
unfolding document
delete_document d [] = []
delete_document d (row ∷ rows) =
    let rest = delete_document d rows in
    if is_document d (document row.entry.identifier) then rest else row ∷ rest

-- `INSERT INTO erased .. ON CONFLICT (document) DO UPDATE SET time = max(time, excluded.time)`
unfoldable pub set_erased : ℕ → ℤ → List (ℕ × ℤ) → List (ℕ × ℤ)
set_erased d now [] = (d, now) ∷ []
set_erased d now ((e, time) ∷ erased) =
    if e == d then (e, int_max time now) ∷ erased else (e, time) ∷ set_erased d now erased

abbrev pub removals : List Entry → List Change
removals [] = []
removals (e ∷ entries) = removed e ∷ removals entries

abbrev pub redacted_journal : ℕ → Journal → Journal
redacted_journal d j = record j { rows = redact_rows d j.rows }

-- `remove_document_everywhere`; `limit` is the length of the journal
unfoldable pub remove_document_everywhere :
    ℕ → ℤ → ℕ → Contents → Result JournalError (List JournalEntry × Contents)
unfolding read_placed delete_document set_erased
remove_document_everywhere d now limit c = do
  written ←
      journal (removals (read_placed d c.entries)) now limit JournalForm.redacted
        (redacted_journal d c.journal)
  ok (
    written.0,
    record {
      entries = delete_document d c.entries;
      erased = set_erased d now c.erased;
      journal = written.1;
      log = c.log;
    },
  )

abbrev pub names_document : ℕ → Option Subject → Bool
names_document d none = false
names_document d (some s) = is_document d s.document

-- `redact`: the update of the four columns is `LogEntry::redacted`
unfoldable pub redact_log : ℕ → List LogEntry → List LogEntry
unfolding redacted
redact_log d [] = []
redact_log d (row ∷ rows) =
    (if names_document d row.subject then redacted row else row) ∷ redact_log d rows
