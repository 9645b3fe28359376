-- ===== src/Store/Journal.antt =====
-- crates/store/src/namespace.rs: the journal of changes. The rows stand in the order of their
-- sequence numbers, the key of the table. A change is stored as itself: `encode` and `decode` are
-- JSON by `serde`. Times are signed milliseconds.
use elasticdms_desktop.Prelude.{
  ℕ, ◌+◌, ◌-◌, ◌^◌, Bool, false, not, ◌&&◌, Option, none, some, List, [], ◌∷◌, ◌++◌, ltb, leb, ◌==◌,
  if◌then◌else◌, length, take, Result, ok, err, ◌>>=◌,
}
use elasticdms_desktop.Prelude.Int.{ℤ, pos}
use elasticdms_desktop.Text.{Text, codes}
use elasticdms_desktop.Namespace.{EntryIdentifier}
use elasticdms_desktop.Namespace.EntryIds.{document}
use elasticdms_desktop.Namespace.Entries.{EntryContent, FileDetails}
use elasticdms_desktop.Change.{Change, removed, identifier}
use elasticdms_desktop.Log.{marker}

-- `JournalEntry`, and a row of the table `journal` with its two columns beside it
pub record JournalEntry : Type 0 where
  pub sequence : ℕ
  pub change : Change

pub record Row : Type 0 where
  pub entry : JournalEntry
  pub time : ℤ
  pub document : Option ℕ

-- The tables `journal` and `journal_state`
pub record Journal : Type 0 where
  pub rows : List Row
  pub last : ℕ
  pub lower_limit : ℕ

-- `StoreError`, as far as the journal raises it
pub data JournalError : Type 0 where
  number_too_large : ℕ → JournalError
  anchor_expired : ℕ → ℕ → JournalError
  anchor_unknown : ℕ → ℕ → JournalError
  empty_page : JournalError
  gap : ℕ → ℕ → JournalError
  missing : ℕ → ℕ → JournalError

pub data JournalForm : Type 0 where
  complete redacted : JournalForm

-- `JournalState::oldest_sequence`
unfoldable pub oldest_sequence : Journal → ℕ
oldest_sequence j = j.lower_limit + 1

-- The largest number of SQLite
abbrev pub max_number : ℕ
max_number = 2 ^ 63 - 1

-- `next` and `from_u64`: what does not fit a number of the database is an error. The sum cannot
-- overflow, since the number before it did fit.
abbrev stored_number : ℕ → Result JournalError ℕ
stored_number n = if leb n max_number then ok n else err (number_too_large n)

-- `MEDIA_TYPE_REDACTED`
abbrev media_type_redacted : Text
media_type_redacted = codes "application/octet-stream"

abbrev redacted_details : FileDetails
redacted_details = record {
  size = 0;
  sha256 = none;
  version = [];
  created = pos 0;
  changed = pos 0;
  media_type = media_type_redacted;
}

-- `redacted_removal`
unfoldable pub redacted_removal : EntryIdentifier → Change
redacted_removal k =
    removed (record { identifier = k; name = marker; content = EntryContent.file redacted_details })

abbrev pub stored_form : JournalForm → Change → Change
stored_form complete change = change
stored_form redacted change = redacted_removal (identifier change)

-- The loop of `journal`: the rows to insert, and what is returned
abbrev with_first : Row × JournalEntry → List Row × List JournalEntry → List Row × List JournalEntry
with_first (row, entry) (rows, entries) = (row ∷ rows, entry ∷ entries)

unfoldable pub number_changes :
    JournalForm → ℤ → ℕ → List Change → Result JournalError (List Row × List JournalEntry)
number_changes form time last [] = ok ([], [])
number_changes form time last (change ∷ changes) = do
  sequence ← stored_number (last + 1)
  rest ← number_changes form time (last + 1) changes
  ok (
      with_first
        (
          record {
            entry = record { sequence = sequence; change = stored_form form change };
            time = time;
            document = document (identifier change);
          },
          record { sequence = sequence; change = change },
        )
        rest)

-- `DELETE FROM journal WHERE sequence <= ?`
unfoldable pub drop_until : ℕ → List Row → List Row
drop_until bound [] = []
drop_until bound (row ∷ rows) =
    let rest = drop_until bound rows in if leb row.entry.sequence bound then rest else row ∷ rest

-- `truncate_journal`
unfoldable pub truncate_journal : ℕ → Journal → Journal
unfolding drop_until
truncate_journal limit j = if leb (j.last - j.lower_limit) limit then j else record {
  rows = drop_until (j.last - limit) j.rows;
  last = j.last;
  lower_limit = j.last - limit;
}

abbrev pub written : ℕ → ℕ → Journal → List Row × List JournalEntry → List JournalEntry × Journal
written count limit j (rows, entries) = (
  entries,
  truncate_journal limit
      (record { rows = j.rows ++ rows; last = j.last + count; lower_limit = j.lower_limit }),
)

-- `journal`: what is returned, and the journal afterwards
unfoldable pub journal :
    List Change → ℤ → ℕ → JournalForm → Journal → Result JournalError (List JournalEntry × Journal)
unfolding number_changes truncate_journal
journal [] time limit form j = ok ([], j)
journal (c ∷ changes) time limit form j = do
  numbered ← number_changes form time j.last (c ∷ changes)
  ok (written (length (c ∷ changes)) limit j numbered)

abbrev pub is_document : ℕ → Option ℕ → Bool
is_document d none = false
is_document d (some e) = e == d

abbrev redact_row : Row → Row
redact_row row = record {
  entry = record {
    sequence = row.entry.sequence;
    change = redacted_removal (identifier row.entry.change);
  };
  time = row.time;
  document = row.document;
}

-- `redact_journal`
unfoldable pub redact_rows : ℕ → List Row → List Row
redact_rows d [] = []
redact_rows d (row ∷ rows) =
    (if is_document d row.document then redact_row row else row) ∷ redact_rows d rows

-- `SELECT .. WHERE sequence > ? ORDER BY sequence`
unfoldable pub rows_after : ℕ → List Row → List Row
rows_after sequence [] = []
rows_after sequence (row ∷ rows) =
    let rest = rows_after sequence rows in
    if ltb sequence row.entry.sequence then row ∷ rest else rest

-- `ChangeState`
pub record ChangeState : Type 0 where
  pub changes : List JournalEntry
  pub until_sequence : ℕ
  pub more : Bool

-- The loop of `changes_since` over the rows that were read
unfoldable pub read_rows : ℕ → List Row → Result JournalError (List JournalEntry)
read_rows before [] = ok []
read_rows before (row ∷ rows) =
    let rest = read_rows (before + 1) rows in
    if not (row.entry.sequence == before + 1)
    then err (gap (before + 1) row.entry.sequence)
    else (do entries ← rest; ok (row.entry ∷ entries))

-- `changes.last().map_or(sequence, |entry| entry.sequence)`
abbrev pub last_sequence : ℕ → List JournalEntry → ℕ
last_sequence sequence [] = sequence
last_sequence sequence (entry ∷ entries) = last_sequence entry.sequence entries

abbrev page_of : ℕ → ℕ → Journal → List JournalEntry → Result JournalError ChangeState
page_of sequence max j changes =
    let until = last_sequence sequence changes in
    if ltb until j.last && ltb (length changes) max
    then err (missing until j.last)
    else ok (record { changes = changes; until_sequence = until; more = ltb until j.last })

-- `changes_since`; the page size is capped to a number of the database, which no table exceeds.
unfoldable pub changes_since : ℕ → ℕ → Journal → Result JournalError ChangeState
unfolding rows_after read_rows
changes_since sequence max j =
    if max == 0
    then err empty_page
    else if ltb sequence j.lower_limit
    then err (anchor_expired sequence (oldest_sequence j))
    else if ltb j.last sequence
    then err (anchor_unknown sequence j.last)
    else (do
      changes ← read_rows sequence (take max (rows_after sequence j.rows))
      page_of sequence max j changes)

-- The part of `empty_namespace` that concerns the journal
unfoldable empty_journal : Journal → Result JournalError Journal
empty_journal j = do
  new ← stored_number (j.last + 1)
  ok (record { rows = []; last = new; lower_limit = new })
