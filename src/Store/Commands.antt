-- ===== src/Store/Commands.antt =====
-- crates/store/src/delivery.rs: the table of accepted commands, which is the outbox of their
-- acknowledgements too. Times are milliseconds since 1970.
use elasticdms_desktop.Prelude.{
  ℕ, ◌-◌, Bool, true, false, not, ◌&&◌, ◌||◌, Option, none, some, List, [], ◌∷◌, ◌++◌, ltb, ◌==◌,
  if◌then◌else◌, length, Result, ok, err,
}
use elasticdms_desktop.Delivery.{CommandOutcome, failed}

-- `Acceptance`
pub data Acceptance : Type 0 where
  new interrupted repeat : Acceptance
  done : CommandOutcome → Bool → Acceptance

-- `Acceptance::from_run`
unfoldable pub from_run : Acceptance → Bool
from_run (done _ _) = false
from_run _ = true

-- `CommandState`, a row of the table `delivery`
pub record CommandState : Type 0 where
  pub command : ℕ
  pub received : ℕ
  pub outcome : Option CommandOutcome
  pub acknowledged : Bool

pub data StoreError : Type 0 where
  database : StoreError
  command_unknown command_acknowledged command_without_outcome : ℕ → StoreError

abbrev pub Table : Type 0
Table = List CommandState

-- `read_command_state`, and `command_state`
unfoldable pub command_state : ℕ → Table → Option CommandState
command_state command [] = none
command_state command (row ∷ table) =
    if row.command == command then some row else command_state command table

-- `UPDATE delivery SET .. WHERE command = ?`
unfoldable pub update : (CommandState → CommandState) → ℕ → Table → Table
update set command [] = []
update set command (row ∷ table) =
    (if row.command == command then set row else row) ∷ update set command table

abbrev pub fresh_row : ℕ → ℕ → CommandState
fresh_row command received = record {
  command = command;
  received = received;
  outcome = none;
  acknowledged = false;
}

abbrev pub reset : CommandState → CommandState
reset row = record row { outcome = none; acknowledged = false }

abbrev pub with_outcome : CommandOutcome → CommandState → CommandState
with_outcome outcome row = record row { outcome = some outcome }

abbrev pub as_acknowledged : CommandState → CommandState
as_acknowledged row = record row { acknowledged = true }

-- The branches of `accept_command` by the row
abbrev accept_row : ℕ → ℕ → Table → Option CommandOutcome → Bool → Acceptance × Table
accept_row command received table none acknowledged = (interrupted, table)
accept_row command received table (some failed) acknowledged = (repeat, update reset command table)
accept_row command received table (some outcome) acknowledged = (done outcome acknowledged, table)

abbrev accept_found : ℕ → ℕ → Table → Option CommandState → Acceptance × Table
accept_found command received table none = (new, table ++ fresh_row command received ∷ [])
accept_found command received table (some row) =
    accept_row command received table row.outcome row.acknowledged

-- `accept_command`
unfoldable pub accept_command : Bool → ℕ → ℕ → Table → Result StoreError (Acceptance × Table)
accept_command answers command received table =
    if answers
    then ok (accept_found command received table (command_state command table))
    else err database

abbrev set_found : CommandOutcome → ℕ → Table → Option CommandState → Result StoreError Table
set_found outcome command table none = err (command_unknown command)
set_found outcome command table (some row) =
    if row.acknowledged
    then err (command_acknowledged command)
    else ok (update (with_outcome outcome) command table)

-- `set_outcome`
unfoldable pub set_outcome : Bool → ℕ → CommandOutcome → Table → Result StoreError Table
set_outcome answers command outcome table =
    if answers then set_found outcome command table (command_state command table) else err database

abbrev mark_row : ℕ → Table → Option CommandOutcome → Result StoreError Table
mark_row command table none = err (command_without_outcome command)
mark_row command table (some _) = ok (update as_acknowledged command table)

abbrev mark_found : ℕ → Table → Option CommandState → Result StoreError Table
mark_found command table none = err (command_unknown command)
mark_found command table (some row) = mark_row command table row.outcome

-- `mark_acknowledged`
unfoldable pub mark_acknowledged : Bool → ℕ → Table → Result StoreError Table
mark_acknowledged answers command table =
    if answers then mark_found command table (command_state command table) else err database

abbrev has_outcome : Option CommandOutcome → Bool
has_outcome none = false
has_outcome (some _) = true

-- `WHERE outcome IS NOT NULL AND acknowledged = 0`
abbrev pub is_open : CommandState → Bool
is_open row = has_outcome row.outcome && not row.acknowledged

-- `ORDER BY received, command`: the text of a command is ordered as its value.
abbrev pub comes_before : CommandState → CommandState → Bool
comes_before a b =
    ltb a.received b.received || (a.received == b.received && ltb a.command b.command)

unfoldable pub insert_ordered : CommandState → Table → Table
insert_ordered row [] = row ∷ []
insert_ordered row (other ∷ table) =
    if comes_before row other then row ∷ other ∷ table else other ∷ insert_ordered row table

unfoldable pub select_open : Table → Table
unfolding insert_ordered
select_open [] = []
select_open (row ∷ table) =
    let rest = select_open table in if is_open row then insert_ordered row rest else rest

-- `open_acknowledgement`
unfoldable pub open_acknowledgement : Bool → Table → Result StoreError Table
unfolding select_open
open_acknowledgement answers table = if answers then ok (select_open table) else err database

-- `DELETE .. WHERE acknowledged = 1 AND received < ?`
unfoldable keep_from : ℕ → Table → Table
keep_from before [] = []
keep_from before (row ∷ table) =
    let rest = keep_from before table in
    if row.acknowledged && ltb row.received before then rest else row ∷ rest

-- `clear_delivery`, with the number of rows removed
unfoldable pub clear_delivery : Bool → ℕ → Table → Result StoreError (ℕ × Table)
unfolding keep_from
clear_delivery answers before table =
    if answers
    then ok (length table - length (keep_from before table), keep_from before table)
    else err database
