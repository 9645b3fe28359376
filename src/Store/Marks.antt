-- ===== src/Store/Marks.antt =====
-- crates/store/src/delivery.rs: what recording an outcome and noting an acknowledgement do to the row.
use elasticdms_desktop.Prelude.{
  ℕ, ◌≡◌, ◌≢◌, inl, inr, refl, Bool, true, false, some, arith, ok, Option-cases,
}
use elasticdms_desktop.Delivery.{CommandOutcome}
use elasticdms_desktop.Store.Commands.{
  CommandState, Table, command_state, update, with_outcome, as_acknowledged, set_outcome,
  mark_acknowledged,
}
use elasticdms_desktop.Store.Outcomes.{outcome_of, state-update_self, state-update_ne}

-- An outcome is recorded only for a row whose outcome the server does not have yet.
pub set_outcome_row :
    (answers : Bool) (c : ℕ) (o : CommandOutcome) (table after : Table)
    → set_outcome answers c o table ≡ ok after
    → (row : CommandState) × (command_state c table ≡ some row)
      × (row.acknowledged ≡ false)
      × (after ≡ update (with_outcome o) c table)
      × (command_state c after ≡ some (with_outcome o row))
unfolding set_outcome
set_outcome_row false c o table after h = absurd (ground arith)
set_outcome_row true c o table after h = elim (Option-cases (command_state c table)) [
  | inl e ↦ absurd (ground arith)
  | inr (row, e) ↦
      let updated = state-update_self (with_outcome o) c table (λ r. refl) in
      (row, e, ground arith, ground arith, ground (arith, updated))
]

pub set_outcome_others :
    (answers : Bool) (c d : ℕ) (o : CommandOutcome) (table after : Table)
    → c ≢ d
    → set_outcome answers c o table ≡ ok after
    → command_state d after ≡ command_state d table
set_outcome_others answers c d o table after ne h =
    let (row, e, unsent, t, now) = set_outcome_row answers c o table after h in
    rw t (state-update_ne (with_outcome o) c d table (λ r. refl) ne)

-- A noted acknowledgement is that of a row with an outcome, which stays.
pub mark_acknowledged_row :
    (answers : Bool) (c : ℕ) (table after : Table)
    → mark_acknowledged answers c table ≡ ok after
    → (row : CommandState) × (o : CommandOutcome) × (command_state c table ≡ some row)
      × (row.outcome ≡ some o)
      × (after ≡ update as_acknowledged c table)
      × (command_state c after ≡ some (as_acknowledged row))
unfolding mark_acknowledged
mark_acknowledged_row false c table after h = absurd (ground arith)
mark_acknowledged_row true c table after h = elim (Option-cases (command_state c table)) [
  | inl e ↦ absurd (ground arith)
  | inr (row, e) ↦ elim (Option-cases row.outcome) [
    | inl u ↦ absurd (ground arith)
    | inr (o, u) ↦
        let updated = state-update_self as_acknowledged c table (λ r. refl) in
        (row, o, e, u, ground arith, ground (arith, updated))
  ]
]

pub mark_acknowledged_others :
    (answers : Bool) (c d : ℕ) (table after : Table)
    → c ≢ d
    → mark_acknowledged answers c table ≡ ok after
    → command_state d after ≡ command_state d table
mark_acknowledged_others answers c d table after ne h =
    let (row, o, e, u, t, now) = mark_acknowledged_row answers c table after h in
    rw t (state-update_ne as_acknowledged c d table (λ r. refl) ne)

-- A row with an outcome can be marked.
pub mark_acknowledged_known :
    (c : ℕ) (table : Table) (row : CommandState) {o : CommandOutcome}
    → command_state c table ≡ some row
    → row.outcome ≡ some o
    → (after : Table) × (mark_acknowledged true c table ≡ ok after)
      × (command_state c after ≡ some (as_acknowledged row))
unfolding mark_acknowledged
mark_acknowledged_known c table row e u =
    let updated = state-update_self as_acknowledged c table (λ r. refl) in
    (update as_acknowledged c table, rw (e, u) refl, rw e at updated)

-- An outcome that the server does not have can be recorded.
pub set_outcome_known :
    (c : ℕ) (o : CommandOutcome) (table : Table) (row : CommandState)
    → command_state c table ≡ some row
    → row.acknowledged ≡ false
    → (after : Table) × (set_outcome true c o table ≡ ok after) × (outcome_of c after ≡ some o)
unfolding set_outcome
set_outcome_known c o table row e u =
    let updated = state-update_self (with_outcome o) c table (λ r. refl) in
    (update (with_outcome o) c table, rw (e, u) refl, rw (updated, e) refl)
