-- ===== src/Store/Outcomes.antt =====
-- crates/store/src/delivery.rs: what the transactions do to the row of a command.
use elasticdms_desktop.Prelude.{
  ℕ, ◌≡◌, ◌≢◌, inl, inr, refl, not, Bool, true, false, Option, none, some, [], ◌∷◌, ◌++◌, arith, ok,
  Option-cases, Bool-cases,
}
use elasticdms_desktop.Delivery.{CommandOutcome, failed}
use elasticdms_desktop.Store.Commands.{
  Acceptance, done, from_run, CommandState, Table, command_state, update, fresh_row, reset,
  accept_command,
}

-- An outcome that stays: the server does not deliver again.
abbrev pub is_final : Option CommandOutcome → Bool
is_final none = false
is_final (some failed) = false
is_final (some _) = true

abbrev pub row_outcome : Option CommandState → Option CommandOutcome
row_outcome none = none
row_outcome (some row) = row.outcome

-- The outcome in the table
abbrev pub outcome_of : ℕ → Table → Option CommandOutcome
outcome_of command table = row_outcome (command_state command table)

-- Whether the table has a final outcome for the command.
abbrev pub is_settled : ℕ → Table → Bool
is_settled command table = is_final (outcome_of command table)

-- What the store knows before the outcome is the server's.
abbrev pub SoundRow : Option CommandState → Type 0
SoundRow none = Unit
SoundRow (some row) = row.acknowledged ≡ true → row.outcome ≢ none

abbrev map_row : (CommandState → CommandState) → Option CommandState → Option CommandState
map_row f none = none
map_row f (some row) = some (f row)

-- An update keeps the key of the row.
abbrev KeepsKey : (CommandState → CommandState) → Type 0
KeepsKey f = (row : CommandState) → (f row).command ≡ row.command

pub state-update_self :
    (f : CommandState → CommandState) (c : ℕ) (table : Table)
    → KeepsKey f
    → command_state c (update f c table) ≡ map_row f (command_state c table)
unfolding command_state update
state-update_self f c [] keeps = refl
state-update_self f c (row ∷ table) keeps =
    ground (arith, keeps row, state-update_self f c table keeps)

pub state-update_ne :
    (f : CommandState → CommandState) (c d : ℕ) (table : Table)
    → KeepsKey f
    → c ≢ d
    → command_state d (update f c table) ≡ command_state d table
unfolding command_state update
state-update_ne f c d [] keeps ne = refl
state-update_ne f c d (row ∷ table) keeps ne =
    ground (arith, keeps row, state-update_ne f c d table keeps ne)

state-append_self :
    (row : CommandState) (table : Table)
    → command_state row.command table ≡ none
    → command_state row.command (table ++ row ∷ []) ≡ some row
unfolding command_state
state-append_self row [] h = ground arith
state-append_self row (other ∷ table) h = ground (arith, state-append_self row table)

state-append_ne :
    (d : ℕ) (row : CommandState) (table : Table)
    → row.command ≢ d
    → command_state d (table ++ row ∷ []) ≡ command_state d table
unfolding command_state
state-append_ne d row [] ne = ground arith
state-append_ne d row (other ∷ table) ne = ground (arith, state-append_ne d row table ne)

-- What an acceptance leaves in the row.
abbrev accepted_old : CommandState → Option CommandOutcome → CommandState
accepted_old row (some failed) = reset row
accepted_old row _ = row

abbrev accepted_row : ℕ → ℕ → Option CommandState → CommandState
accepted_row command received none = fresh_row command received
accepted_row command received (some row) = accepted_old row row.outcome

accepted_old_ne :
    (row : CommandState) (o : CommandOutcome) → o ≢ failed → accepted_old row (some o) ≡ row
accepted_old_ne row CommandOutcome.failed ne = absurd (ne refl)
accepted_old_ne row _ ne = refl

is_final_ne : (o : CommandOutcome) → o ≢ failed → is_final (some o) ≡ true
is_final_ne CommandOutcome.failed ne = absurd (ne refl)
is_final_ne _ ne = refl

-- The row and the answer of an acceptance, by the row before.
data Accepted (c received : ℕ) (table after : Table) (a : Acceptance) : Type 0 where
  anew :
      command_state c table ≡ none
      → after ≡ table ++ fresh_row c received ∷ []
      → a ≡ Acceptance.new
      → Accepted c received table after a
  again :
      (row : CommandState)
      → command_state c table ≡ some row
      → row.outcome ≡ none
      → after ≡ table
      → a ≡ Acceptance.interrupted
      → Accepted c received table after a
  retried :
      (row : CommandState)
      → command_state c table ≡ some row
      → row.outcome ≡ some failed
      → after ≡ update reset c table
      → a ≡ Acceptance.repeat
      → Accepted c received table after a
  finished :
      (row : CommandState) (o : CommandOutcome)
      → command_state c table ≡ some row
      → row.outcome ≡ some o
      → o ≢ failed
      → after ≡ table
      → a ≡ done o row.acknowledged
      → Accepted c received table after a

accept_command-Accepted :
    (answers : Bool) (c received : ℕ) (table after : Table) (a : Acceptance)
    → accept_command answers c received table ≡ ok (a, after)
    → Accepted c received table after a
unfolding accept_command
accept_command-Accepted false c received table after a h = absurd (ground arith)
accept_command-Accepted true c received table after a h =
    elim (Option-cases (command_state c table)) [
      | inl e ↦ anew e (ground arith) (ground arith)
      | inr (row, e) ↦ elim (Option-cases row.outcome) [
        | inl u ↦ again row e u (ground arith) (ground arith)
        | inr (CommandOutcome.failed, u) ↦ retried row e u (ground arith) (ground arith)
        | inr (CommandOutcome.applied, u) ↦
            finished row CommandOutcome.applied e u (ground arith) (ground arith) (ground arith)
        | inr (CommandOutcome.not_applicable, u) ↦
            finished row CommandOutcome.not_applicable e u (ground arith) (ground arith)
              (ground arith)
        | inr (CommandOutcome.rejected, u) ↦
            finished row CommandOutcome.rejected e u (ground arith) (ground arith) (ground arith)
      ]
    ]

-- An acceptance touches no other row, and its own as the row says.
pub accept_command_others :
    (answers : Bool) (c d received : ℕ) (table after : Table) (a : Acceptance)
    → c ≢ d
    → accept_command answers c received table ≡ ok (a, after)
    → command_state d after ≡ command_state d table
accept_command_others answers c d received table after a ne h =
    elim (accept_command-Accepted answers c received table after a h) [
      | anew e t k ↦ rw t (state-append_ne d (fresh_row c received) table ne)
      | again row e u t k ↦ rw t refl
      | retried row e u t k ↦ rw t (state-update_ne reset c d table (λ r. refl) ne)
      | finished row o e u n t k ↦ rw t refl
    ]

accept_command_row :
    (answers : Bool) (c received : ℕ) (table after : Table) (a : Acceptance)
    → accept_command answers c received table ≡ ok (a, after)
    → command_state c after ≡ some (accepted_row c received (command_state c table))
accept_command_row answers c received table after a h =
    elim (accept_command-Accepted answers c received table after a h) [
      | anew e t k ↦ rw (t, e) (state-append_self (fresh_row c received) table e)
      | again row e u t k ↦ rw (t, e, u) refl
      | retried row e u t k ↦
          let updated = state-update_self reset c table (λ r. refl) in ground (arith, updated)
      | finished row o e u n t k ↦ ground (arith, accepted_old_ne row o n)
    ]

-- It is to be run exactly if the command has no final outcome.
pub accept_command-from_run :
    (answers : Bool) (c received : ℕ) (table after : Table) (a : Acceptance)
    → accept_command answers c received table ≡ ok (a, after)
    → not (is_settled c table) ≡ from_run a
unfolding from_run
accept_command-from_run answers c received table after a h =
    elim (accept_command-Accepted answers c received table after a h) [
      | anew e t k ↦ rw (e, k) refl
      | again row e u t k ↦ rw (e, u, k) refl
      | retried row e u t k ↦ rw (e, u, k) refl
      | finished row o e u n t k ↦ rw (e, u, k, is_final_ne o n) refl
    ]

-- A command that is done has its row untouched, with a final outcome.
pub accept_command-done :
    (answers b : Bool) (c received : ℕ) (table after : Table) (o : CommandOutcome)
    → accept_command answers c received table ≡ ok (done o b, after)
    → (after ≡ table) × (outcome_of c table ≡ some o) × (is_final (some o) ≡ true)
accept_command-done answers b c received table after o h =
    elim (accept_command-Accepted answers c received table after (done o b) h) [
      | anew e t k ↦ absurd (ground arith)
      | again row e u t k ↦ absurd (ground arith)
      | retried row e u t k ↦ absurd (ground arith)
      | finished row p e u n t k ↦
          let same : o ≡ p = ground arith in (t, rw e (cc (u, same)), rw same (is_final_ne p n))
    ]

-- A row that is sound stays so when its command is accepted.
pub accept_command-SoundRow :
    (answers : Bool) (c received : ℕ) (table after : Table) (a : Acceptance)
    → accept_command answers c received table ≡ ok (a, after)
    → SoundRow (command_state c table)
    → SoundRow (command_state c after)
accept_command-SoundRow answers c received table after a h sound =
    elim (accept_command-Accepted answers c received table after a h) [
      | anew e t k ↦ rw (accept_command_row answers c received table after a h, e) (ground arith)
      | again row e u t k ↦ rw t sound
      | retried row e u t k ↦
          rw (accept_command_row answers c received table after a h, e, u) (ground arith)
      | finished row o e u n t k ↦ rw t sound
    ]

-- A command that is to be run stands in the table, and the server does not have an outcome of it.
pub accept_command_unsent :
    (answers : Bool) (c received : ℕ) (table after : Table) (a : Acceptance)
    → accept_command answers c received table ≡ ok (a, after)
    → from_run a ≡ true
    → SoundRow (command_state c table)
    → (row : CommandState) × (command_state c after ≡ some row) × (row.acknowledged ≡ false)
unfolding from_run
accept_command_unsent answers c received table after a h run sound =
    let now = accept_command_row answers c received table after a h in
    elim (accept_command-Accepted answers c received table after a h) [
      | anew e t k ↦ (fresh_row c received, rw e at now, refl)
      | again row e u t k ↦ (row, rw t e, unsent_of row u (rw e at sound))
      | retried row e u t k ↦ (reset row, ground (arith, now), refl)
      | finished row o e u n t k ↦ absurd (ground arith)
    ]
  where
    unsent_of :
        (row : CommandState) → row.outcome ≡ none → SoundRow (some row) → row.acknowledged ≡ false
    unsent_of row u s = elim (Bool-cases row.acknowledged) [ inl e ↦ absurd (s e u) | inr e ↦ e ]
