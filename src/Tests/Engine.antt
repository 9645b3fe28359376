-- ===== src/Tests/Engine.antt =====
-- The engine and the store at concrete inputs.
use elasticdms_desktop.Prelude.{
  ℕ, zero, suc, ◌+◌, ◌≡◌, ◌≢◌, ◌≤◌, ◌⊎◌, ◌↔◌, refl, Bool, true, false, Option, none, some, List, [],
  ◌∷◌, inl, inr, arith, Result, ok, err,
}
use elasticdms_desktop.Prelude.Int.{pos}
use elasticdms_desktop.Text.{codes, text_eq}
use elasticdms_desktop.Identifier.{Kind}
use elasticdms_desktop.Identifier
use elasticdms_desktop.Namespace.{Container, Location, EntryIdentifier}
use elasticdms_desktop.Namespace.Entries.{EntryContent}
use elasticdms_desktop.Log.{LogEntry, LogKind}
use elasticdms_desktop.Delivery.{Command, erasure, applied}
use elasticdms_desktop.Wire.Envelope.{
  Json, Fields, string, object, field, end, Reading, CommandEnvelope, Acknowledgement,
  acknowledgement, unreadable,
}
use elasticdms_desktop.Store.Commands.{CommandState}
use elasticdms_desktop.Store.Journal.{Journal}
use elasticdms_desktop.Store.Contents.{Contents, EntryRow}
use elasticdms_desktop.Engine.Process.{Environment, Circumstances, Channel, accepted, process}
use elasticdms_desktop.Engine.Effects.{runs, sents}
use elasticdms_desktop.Engine.Platform.{FileSystem, Answers}
use elasticdms_desktop.Engine.Quiet.{IsNameless}
use elasticdms_desktop.Store.Contents.{placements}
use elasticdms_desktop.Engine.Run.{World, run_from, process-IsErased}
use elasticdms_desktop.Wire.Envelope.{
  from_value, text_field, get, from_wire_value, wire_value, read_payload, first_duplicate,
  seen_before, command,
}
use elasticdms_desktop.Store.Commands.{
  accept_command, command_state, from_run, update, set_outcome, mark_acknowledged,
}
use elasticdms_desktop.Store.Journal.{
  journal, number_changes, truncate_journal, drop_until, redact_rows, redacted_removal,
}
use elasticdms_desktop.Store.Contents.{
  read_placed, insert_by_text, delete_document, set_erased, remove_document_everywhere, redact_log,
}
use elasticdms_desktop.Engine.RateLimit.{take, retain}
use elasticdms_desktop.Engine.Process.{acknowledge, complete}
use elasticdms_desktop.Engine.Platform.{remember, insert_container}
use elasticdms_desktop.Engine.Dehydrate.{
  dehydrate, dehydrate_all, dehydrate_one, free_all, give_location_free, write_row,
}
use elasticdms_desktop.Delivery.{actions, check}
use elasticdms_desktop.Namespace.EntryIds.{document}
use elasticdms_desktop.Log.{redacted, erased_by_order_entry}
use elasticdms_desktop.Change.{identifier}
use elasticdms_desktop.Namespace.Containers.{from_location}
use elasticdms_desktop.Prelude
use elasticdms_desktop.Delivery.{space_reclaim}
use elasticdms_desktop.Change.{removed}
use elasticdms_desktop.Wire.Strict.{IsOrder, command_iff}
use elasticdms_desktop.Store.Outcomes.{is_settled, outcome_of}
use elasticdms_desktop.Store.Journal.{Row, JournalForm, rows_after}
use elasticdms_desktop.Store.Consecutive.{IsSound, numbered, journal_fit}
use elasticdms_desktop.Store.Pages.{entries_of, catch_up, catch_up_all}
use elasticdms_desktop.Engine.RateLimit.{
  granted, count_from, max_commands_per_minute, granted_bound,
}
use elasticdms_desktop.Engine.Process.{process_all}
use elasticdms_desktop.Engine.Processed.{Authorizes}
use elasticdms_desktop.Engine.Settled.{process-runs, process-Truthful}
use elasticdms_desktop.Engine.Final.{count_runs, process_all-settled, process_all-frozen}
use elasticdms_desktop.Engine.Outbox.{empty_outbox, GoesThrough, open_row, empty_outbox_delivers}
use elasticdms_desktop.Engine.Decided.{process_decides, process_unreadable_new}
use elasticdms_desktop.Engine.Pins.{IsLawful, dehydrate-IsLawful}
use elasticdms_desktop.Engine.Hydration.{
  SourceError, internal, ContentReceipt, ContentSink, Received, Load, Surroundings, stream_in_file,
  hand_over_from, hand_over, load_and_check,
}
use elasticdms_desktop.Engine.Checked.{IsChecked, load_and_check-IsChecked}

-- A platform that counts its calls.
abbrev counting : FileSystem ℕ
counting = record {
  state = λ k n. ok (record { present = true; hydrated = true; pinned = true });
  dehydrate = λ k unpin n. (ok tt, suc n);
  remove = λ k n. (ok tt, suc n);
  report_change = λ changes n. n;
  text = λ e. codes "?";
}

abbrev no_others : Command → World ℕ → Acknowledgement × World ℕ
no_others c w = (acknowledgement applied none, w)

abbrev always : ℕ → Answers
always d = record { reads = true; removal = true; redaction = true; complaint = codes "?" }

abbrev letter : EntryRow
letter = record {
  entry = record {
    identifier = EntryIdentifier.document (Location.search 3) 7;
    name = codes "letter";
    content = EntryContent.folder;
  };
  parent = Container.search 3;
  rank = 0;
}

abbrev opened_letter : LogEntry
opened_letter = record {
  time = pos 5;
  kind = LogKind.opened;
  subject = some (record { name = codes "letter"; document = some 7; location = none });
  detail = none;
}

abbrev shelf : Contents
shelf = record {
  entries = letter ∷ [];
  erased = [];
  journal = record { rows = []; last = 0; lower_limit = 0 };
  log = opened_letter ∷ [];
}

abbrev desk_world : World ℕ
desk_world = record {
  platform = 0;
  mounted = true;
  contents = shelf;
  now = pos 9;
  limit = 100;
  answers = always;
  sentence = codes "one";
}

abbrev start : Channel (World ℕ)
start = record { table = []; rate = []; world = desk_world; deeds = [] }

abbrev reading : Reading
reading = record {
  is_timestamp = λ t. true;
  dehydrate_payload = λ p. some (7 ∷ [], erasure);
  reconcile_payload = λ p. none;
  empty_payload = λ p. false;
}

-- The command 5 for the device 1, an erasure of the document 7.
abbrev fields : Fields
fields = field (codes "commandId") (string (codes "cmd_00000000000000000000000005")) (
    field (codes "deviceId") (string (codes "dev_00000000000000000000000001")) (
      field (codes "kind") (string (codes "DEHYDRATE")) (
        field (codes "issuedAt") (string (codes "now")) (
          field (codes "payload") (string (codes "7"))
            (field (codes "serverSignature") (string (codes "s")) end)))))

abbrev env : Environment (World ℕ) ℕ
env = record {
  reading = reading;
  own_device = 1;
  check_signature = λ raw keys. none;
  envelope_text = λ e. codes "?";
  read_text = λ e. codes "?";
  rate_text = codes "?";
  run_from = run_from counting no_others;
}

abbrev good : Circumstances ℕ
good = record {
  received = 1000;
  now_millis = 1000;
  accepts = true;
  records = true;
  notes = true;
  key_set = ok 1;
  token = true;
  key = true;
  answer = accepted;
}

erasure_runs :
    runs (process env good (object fields) start).deeds
    ≡ (5, Command.dehydrate (7 ∷ []) erasure) ∷ []
unfolding process run_from placements acknowledgement from_value text_field get from_wire_value
    wire_value read_payload first_duplicate seen_before command accept_command command_state
    from_run update set_outcome mark_acknowledged journal number_changes truncate_journal drop_until
    redact_rows redacted_removal read_placed insert_by_text delete_document set_erased
    remove_document_everywhere redact_log take retain acknowledge complete remember insert_container
    dehydrate dehydrate_all dehydrate_one free_all give_location_free write_row actions check
    Identifier.parse Identifier.decode Identifier.decode_from Identifier.position document redacted
    erased_by_order_entry identifier from_location
erasure_runs = refl

erasure_sends :
    sents (process env good (object fields) start).deeds ≡ (5, acknowledgement applied none) ∷ []
unfolding process run_from placements acknowledgement from_value text_field get from_wire_value
    wire_value read_payload first_duplicate seen_before command accept_command command_state
    from_run update set_outcome mark_acknowledged journal number_changes truncate_journal drop_until
    redact_rows redacted_removal read_placed insert_by_text delete_document set_erased
    remove_document_everywhere redact_log take retain acknowledge complete remember insert_container
    dehydrate dehydrate_all dehydrate_one free_all give_location_free write_row actions check
    Identifier.parse Identifier.decode Identifier.decode_from Identifier.position document redacted
    erased_by_order_entry identifier from_location
erasure_sends = refl

process-IsErased_example :
    (placements 7 (process env good (object fields) start).world.contents ≡ [])
    × IsNameless 7 (process env good (object fields) start).world.contents.log
unfolding acknowledgement
process-IsErased_example =
    process-IsErased counting no_others env refl good (object fields) start 5 5 (7 ∷ [])
      (acknowledgement applied none) 7 erasure_runs erasure_sends (λ h. ground arith) (inl refl)

-- The theorems at these inputs
process-runs_example :
    (runs (process env good (object fields) start).deeds ≡ [])
    ⊎ ((e : CommandEnvelope) × (c : Command) × Authorizes env good (object fields) start e c
        × (runs (process env good (object fields) start).deeds ≡ (e.command_id, c) ∷ []))
process-runs_example = process-runs env good (object fields) start

process-Truthful_example :
    (sents (process env good (object fields) start).deeds ≡ [])
    ⊎ ((c : ℕ) × (a : Acknowledgement) × (sents (process env good (object fields) start).deeds
          ≡ (c, a) ∷ [])
        × (outcome_of c (process env good (object fields) start).table ≡ some a.outcome))
process-Truthful_example = process-Truthful env good (object fields) start

-- A command that is done, and one whose acknowledgement is still to be sent.
abbrev done_row : Bool → CommandState
done_row acknowledged = record {
  command = 5;
  received = 1;
  outcome = some applied;
  acknowledged = acknowledged;
}

abbrev settled : Bool → Channel (World ℕ)
settled acknowledged = record {
  table = done_row acknowledged ∷ [];
  rate = [];
  world = desk_world;
  deeds = [];
}

abbrev twice : List (Circumstances ℕ × Json)
twice = (good, object fields) ∷ (good, object fields) ∷ []

process_all-settled_example :
    (is_settled 5 (process_all env twice (settled false)).table ≡ true)
    × (count_runs 5 (runs (process_all env twice (settled false)).deeds) ≡ 0)
unfolding command_state
process_all-settled_example = process_all-settled env 5 twice (settled false) refl

process_all-frozen_example :
    command_state 5 (process_all env twice (settled true)).table ≡ some (done_row true)
unfolding command_state
process_all-frozen_example = process_all-frozen env 5 twice (settled true) refl

granted_bound_example :
    count_from 0 (granted [] (1000 ∷ 1000 ∷ 59000 ∷ [])) ≤ max_commands_per_minute
granted_bound_example =
    granted_bound 0 (1000 ∷ 1000 ∷ 59000 ∷ []) (omega arith, (omega arith, (omega arith, tt)))

empty_outbox_delivers_example :
    (s : Channel (World ℕ)) × (empty_outbox true (λ d. good) (settled false) ≡ ok s)
    × ((d : ℕ) → GoesThrough good → open_row (command_state d s.table) ≡ false)
empty_outbox_delivers_example = empty_outbox_delivers (λ d. good) (settled false)

abbrev envelope : CommandEnvelope
envelope = record {
  raw = fields;
  command_id = 5;
  device_id = 1;
  kind = codes "DEHYDRATE";
  issued_at = codes "now";
  payload = string (codes "7");
  server_signature = some (codes "s");
}

envelope_read : from_value reading (object fields) ≡ ok envelope
unfolding from_value text_field get Identifier.parse Identifier.decode Identifier.decode_from
    Identifier.position
envelope_read = refl

process_decides_example : outcome_of 5 (process env good (object fields) start).table ≢ none
unfolding command_state
process_decides_example =
    process_decides env good (object fields) start envelope envelope_read refl refl tt

-- An entry with an identifier and nothing else
abbrev bare : Json
bare = object (field (codes "commandId") (string (codes "cmd_00000000000000000000000005")) end)

bare_read : from_value reading bare ≡ err (unreadable 5)
unfolding from_value text_field get Identifier.parse Identifier.decode Identifier.decode_from
    Identifier.position
bare_read = refl

process_unreadable_new_example : process env good bare start ≡ start
unfolding command_state
process_unreadable_new_example = process_unreadable_new env good bare start 5 bare_read refl

dehydrate-IsLawful_example :
    IsLawful space_reclaim
      (dehydrate counting true
        (pos 9)
        100
        (codes "one")
        space_reclaim
        ((always 7, 7) ∷ [])
        0
        shelf).1.calls
dehydrate-IsLawful_example =
    dehydrate-IsLawful counting true space_reclaim (pos 9) 100 (codes "one") ((always 7, 7) ∷ []) 0
      shelf

command_iff_example :
    (command reading 1 envelope ≡ ok (Command.dehydrate (7 ∷ []) erasure))
    ↔ IsOrder reading 1 envelope (Command.dehydrate (7 ∷ []) erasure)
command_iff_example = command_iff reading 1 envelope (Command.dehydrate (7 ∷ []) erasure)

-- A journal of three removals, whose first has been trimmed away.
abbrev removal : ℕ → Row
removal n = record {
  entry = record { sequence = n; change = removed letter.entry };
  time = pos 1;
  document = some 7;
}

abbrev trimmed : Journal
trimmed = record { rows = removal 2 ∷ removal 3 ∷ []; last = 3; lower_limit = 1 }

catch_up_all_example : catch_up 3 1 1 trimmed ≡ ok (entries_of (rows_after 1 trimmed.rows))
catch_up_all_example =
    catch_up_all 3 1 1 trimmed (refl, (refl, refl)) (omega arith) (omega arith) (omega arith)
      (omega arith)

journal_fit_example :
    (j : Journal) × (journal (removed letter.entry ∷ []) (pos 1) 2 JournalForm.redacted trimmed
      ≡ ok (numbered 3 (removed letter.entry ∷ []), j))
    × IsSound j
    × (j.last ≡ 3 + 1)
journal_fit_example =
    journal_fit (removed letter.entry ∷ []) (pos 1) 2 JournalForm.redacted trimmed (omega arith)
      (refl, (refl, refl))

-- A sink that takes everything, and a checksum that is the first byte.
abbrev taking : ContentSink ℕ
taking = record { write = λ offset bytes n. ok (suc n); cancelled = λ n. false }

abbrev first_byte : List ℕ → List ℕ
first_byte bytes = Prelude.take 1 bytes

abbrev load : List ℕ → Load
load bytes = record { created = true; delivered = bytes; report = ok 3; flushed = true }

-- Reads of two bytes at most; a second read that fails, and a scratch file that cannot be opened
abbrev answers : Bool → (ℕ → Option ℕ) → Surroundings
answers opened reads = record {
  token = ok true;
  permit = ok tt;
  prepared = ok tt;
  first = load (1 ∷ 2 ∷ 3 ∷ []);
  refreshed = false;
  again = load [];
  opened = opened;
  reads = reads;
}

abbrev by_twos : ℕ → Option ℕ
by_twos offset = some 1

abbrev failing : ℕ → Option ℕ
failing offset = elim offset [ zero ↦ some 1 | suc _ ↦ none ]

abbrev nothing_received : Received ℕ
nothing_received = record { state = 0; writes = [] }

abbrev outcome : Surroundings → Result SourceError ContentReceipt × Received ℕ
outcome w = load_and_check first_byte (codes "?") taking 3 (1 ∷ []) w nothing_received

load_and_check_whole : outcome (answers true by_twos) ≡ (
  ok (record { size = 3; sha256 = some (1 ∷ []) }),
  record { state = 2; writes = (2, 3 ∷ []) ∷ (0, 1 ∷ 2 ∷ []) ∷ [] },
)
unfolding load_and_check stream_in_file hand_over hand_over_from text_eq
load_and_check_whole = refl

load_and_check_broken :
    outcome (answers true failing)
    ≡ (err (internal (codes "?")), record { state = 1; writes = (0, 1 ∷ 2 ∷ []) ∷ [] })
unfolding load_and_check stream_in_file hand_over hand_over_from text_eq
load_and_check_broken = refl

load_and_check_unopened :
    outcome (answers false by_twos) ≡ (err (internal (codes "?")), nothing_received)
unfolding load_and_check stream_in_file hand_over text_eq
load_and_check_unopened = refl

load_and_check-IsChecked_example : IsChecked first_byte 3 (1 ∷ []) (outcome (answers true failing))
load_and_check-IsChecked_example =
    load_and_check-IsChecked first_byte (codes "?") taking 3 (1 ∷ []) (answers true failing)
      nothing_received refl
