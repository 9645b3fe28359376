-- ===== src/Lib.antt =====
-- A verification library for elasticdms desktop: the mirror of a document archive as a folder on
-- Windows (Cloud Filter API) and macOS (file provider). It models the parts that decide what stands
-- in the mirror and what happens to it, as functions with their branches, and
-- states what they promise.
--
-- How the parts interact. The core names the entries of the mirror by identifiers (Identifier,
-- Namespace), makes the file names that the user sees (Filename), and turns two listings into a list
-- of changes (Change). The Windows mirror keeps a map from identifiers to places (PathMap, Paths),
-- plans steps on disk from the changes (Plan), checks names and listings before they reach Windows
-- (Checks, Plan/Inspection), answers callbacks from a pool of threads (WorkerPool), and hands content
-- over in aligned blocks (Blocks). The macOS file provider writes its place in a listing as anchors
-- and page markers (Anchor). Commands of the delivery channel follow a table (Delivery), and what
-- they do is noted in a log that an erasure empties of names (Log). They come as raw values (Wire);
-- the engine takes each up in the table of commands (Store/Commands), checks it, runs it on the
-- platform and the store (Engine/Process, Engine/Run, Engine/Dehydrate, Store/Contents), records the
-- outcome and acknowledges it. What changes in the mirror gets a number in a journal (Store/Journal),
-- and content is loaded and checked before the platform gets a byte (Engine/Hydration). The extension
-- that macOS starts and the app speak in frames (Bridge).
--
-- Files and code:
--   Prelude, Prelude/*      shared names: Boolean tests, Result, lists by native length, byte fields
--   Text                    str as the list of its characters, with the operations that the crates use
--   Identifier, /*          crates/core/src/identifier.rs: encode, decode, Display, FromStr, UUID text
--   Namespace, /*           crates/core/src/namespace.rs: Container, EntryIdentifier, their order and
--                           text form, Entry
--   Change, /*              crates/core/src/change.rs: Change, compare
--   Filename, /*            crates/core/src/filename.rs: sanitize, assemble, extension_for, name
--   Delivery, /*            crates/core/src/delivery.rs: actions, check
--   Log, /*                 crates/core/src/log.rs: LogEntry and its constructors, redacted
--   Blocks, /*              crates/cfapi/src/blocks.rs: BlockBuffer::take (take_chunk), complete
--   Checks, /*              crates/cfapi/src/checks.rs: check_name, the checks of a sync root
--   WorkerPool, /*          crates/cfapi/src/worker_pool.rs: WorkGroup::give, stop, work as steps
--   PathMap, /*             crates/cfapi/src/path_map.rs: PathMap; connect of path.rs
--   Paths, /*               crates/cfapi/src/path.rs: unify, PathKey::is_below
--   Plan, /*                crates/cfapi/src/plan.rs: plan, reconcile, check_list
--   Anchor, /*              crates/fileprovider/src/anchor.rs: Anchor, PageMarker
--   Wire, /*                crates/wire/src/delivery.rs: CommandEnvelope, Acknowledgement
--   Store/Commands          crates/store/src/delivery.rs: accept_command, set_outcome,
--                           mark_acknowledged, open_acknowledgement, clear_delivery
--   Store/Outcomes, Marks   lemmas on their rows
--   Store/Journal           crates/store/src/namespace.rs: journal, changes_since, redact_journal
--   Store/Consecutive       its invariant; Store/Pages: what pages give
--   Store/Contents          crates/store/src/namespace.rs: placements, remove_document_everywhere;
--                           crates/store/src/log.rs: redact
--   Engine/RateLimit        crates/engine/src/delivery.rs: RateLimit
--   Engine/Process          crates/engine/src/delivery.rs: process, complete, acknowledge
--   Engine/Effects, Processed, Settled, Final, Decided
--                           what they change, the ways in which process ends, what follows
--   Engine/Outbox           crates/engine/src/delivery.rs: empty_outbox
--   Engine/Platform         crates/core/src/port.rs: FileSystem; DehydrateSituation
--   Engine/Dehydrate        crates/engine/src/delivery.rs: dehydrate, give_location_free, write_row
--   Engine/Quiet, Erased, Pins
--                           what a dehydration keeps, erases and asks of the platform
--   Engine/Run              crates/engine/src/delivery.rs: run_from
--   Engine/Hydration        crates/engine/src/hydration.rs: load_and_check; Engine/HandedOver, Checked:
--                           what the platform gets of a file, and of a load
--   Bridge/Frame            crates/bridge/src/frame.rs: read_inbox, write_json, write_data
--   Bridge/Header, Parts, Chunks
--                           what is written is read back; Bridge/Limits: what the limits keep out
--   Tests, /*               the definitions and the theorems at concrete inputs
--
-- Conventions. Numbers are natural numbers; a width is written out where the code relies on it
-- (2 ^ 128 for an identifier, 2 ^ 64 for offsets). Mutable state is passed and returned. A text is
-- the list of its characters. The bodies of error messages are left out, their values kept. A
-- transaction of SQLite is a function on the tables; a Boolean says whether the database answers, and
-- one that does not leaves the tables. What the calls out of one run of a function answer (the clock,
-- the server, the database, the platform) is a record that it takes, so that a theorem for all such
-- records holds whatever they answer. Times are milliseconds: integers, and in the delivery channel
-- natural numbers, since 1970.
--
-- Bounds and fuel. The loop over whole chunks in Blocks has as many rounds as bytes are left, which is
-- enough for a chunk of at least one byte; for a chunk of 0, which only a wrapped size gives, the loop
-- of the source does not end. The loop of PathMap::path stops after eight names as in the code. The
-- loop of hand_over has a round for every byte and one more, and the last round is the one that finds
-- the end of the file. read_inbox has a round for every byte and one more, and every frame takes at
-- least five bytes; write_json has a round for every byte, and every part takes some.
--
-- Arguments that stand for other code: Unicode normalization and lower case, the callback of a
-- BlockBuffer, the staging names, the sentences of the catalogue; what serde_json makes of a payload,
-- the reading of a time, the signature check of edms-crypto, SHA-256, the platform behind FileSystem
-- and ContentSink, and what the commands other than DEHYDRATE do.
--
-- Not modelled: the rest of the engine (the beat of the channel, session, ingest, reconciliation) and
-- of the store (listings and their tombstones, schema), the network, the other wire types,
-- cryptography, the rest of the bridge (deadlines, cancellation, sockets, messages), the window and the installer; and calls into
-- Windows and macOS themselves. The usage log is not trimmed per account.
pub mod Prelude
pub mod Text
pub mod Identifier
pub mod Namespace
pub mod Anchor
pub mod Delivery
pub mod Log
pub mod Blocks
pub mod Change
pub mod Filename
pub mod Checks
pub mod WorkerPool
pub mod Paths
pub mod PathMap
pub mod Plan
pub mod Wire
pub mod Store
pub mod Engine
pub mod Bridge
pub mod Tests
