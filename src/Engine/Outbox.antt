-- ===== src/Engine/Outbox.antt =====
-- crates/engine/src/delivery.rs: the acknowledgements that an earlier run could not get rid of, and what
-- becomes of an entry.
use elasticdms_desktop.Prelude.{
  ℕ, ◌≡◌, ◌≢◌, ◌⊎◌, inl, inr, refl, sym, Bool, true, false, Option, none, some, [], ◌∷◌, arith,
  Result, ok, err, Bool-cases, Option-cases, ℕ-cases,
}
use elasticdms_desktop.Delivery.{CommandOutcome}
use elasticdms_desktop.Wire.Envelope.{Acknowledgement, acknowledgement}
use elasticdms_desktop.Store.Commands.{
  CommandState, Table, StoreError, command_state, select_open, insert_ordered, open_acknowledgement,
  is_open, as_acknowledged, comes_before,
}
use elasticdms_desktop.Store.Marks.{mark_acknowledged_known}
use elasticdms_desktop.Engine.Process.{Circumstances, Channel, is_success, acknowledge}
use elasticdms_desktop.Engine.Effects.{acknowledge-Sends}

module _ {W KeySet : Type 0} where
  abbrev pub send_row : Circumstances KeySet → ℕ → Option CommandOutcome → Channel W → Channel W
  send_row z command none s = s
  send_row z command (some outcome) s = acknowledge z command (acknowledgement outcome none) s

  -- The loop of `empty_outbox`; each command has its own circumstances.
  unfoldable pub send_open : (ℕ → Circumstances KeySet) → Table → Channel W → Channel W
  send_open z [] s = s
  send_open z (row ∷ rows) s = send_open z rows (send_row (z row.command) row.command row.outcome s)

  abbrev pub send_listed :
      (ℕ → Circumstances KeySet)
      → Result StoreError Table
      → Channel W
      → Result StoreError (Channel W)
  send_listed z (err e) s = err e
  send_listed z (ok rows) s = ok (send_open z rows s)

  -- `empty_outbox`
  unfoldable pub empty_outbox :
      Bool → (ℕ → Circumstances KeySet) → Channel W → Result StoreError (Channel W)
  unfolding send_open
  empty_outbox answers z s = send_listed z (open_acknowledgement answers s.table) s

abbrev pub open_row : Option CommandState → Bool
open_row none = false
open_row (some row) = is_open row

-- The server takes every acknowledgement, and the database notes it.
pub record GoesThrough {KeySet : Type 0} (z : Circumstances KeySet) : Type 0 where
  pub token : z.token ≡ true
  pub key : z.key ≡ true
  pub success : is_success z.answer ≡ true
  pub notes : z.notes ≡ true

module _ {W : Type 0} where
  -- The acknowledgement of the command, if it has an outcome, is with the server.
  abbrev ClosedAt : ℕ → Channel W → Type 0
  ClosedAt d s = open_row (command_state d s.table) ≡ false

module _ {W KeySet : Type 0} where
  acknowledge_notes :
      (z : Circumstances KeySet) (c : ℕ) (a : Acknowledgement) (s : Channel W) (row : CommandState)
      (o : CommandOutcome)
      → GoesThrough z
      → command_state c s.table ≡ some row
      → row.outcome ≡ some o
      → command_state c (acknowledge z c a s).table ≡ some (as_acknowledged row)
  unfolding acknowledge
  acknowledge_notes z c a s row o good found outcome =
      let (after, marked, now) = mark_acknowledged_known c s.table row {o = o} found outcome in
      rw (good.token, good.key, good.success, good.notes, marked) now

  send_row-ClosedAt :
      (z : Circumstances KeySet) (c d : ℕ) (o : Option CommandOutcome) (s : Channel W)
      → ClosedAt d s
      → ClosedAt d (send_row z c o s)
  send_row-ClosedAt z c d none s closed = closed
  send_row-ClosedAt z c d (some o) s closed =
      let sends = acknowledge-Sends z c (acknowledgement o none) s in
      elim (ℕ-cases c d) [
        | inr ne ↦ rw (sends.others d ne) closed
        | inl same ↦ elim sends.marked [
          | inl unmarked ↦ rw (sym same) (rw unmarked (rw (sym same) at closed))
          | inr (row, found, _, now) ↦ rw (sym same) (rw now (ground arith))
        ]
      ]

  send_open-ClosedAt :
      (z : ℕ → Circumstances KeySet) (d : ℕ) (rows : Table) (s : Channel W)
      → ClosedAt d s
      → ClosedAt d (send_open z rows s)
  unfolding send_open
  send_open-ClosedAt z d [] s closed = closed
  send_open-ClosedAt z d (row ∷ rows) s closed =
      send_open-ClosedAt z d rows (send_row (z row.command) row.command row.outcome s)
        (send_row-ClosedAt (z row.command) row.command d row.outcome s closed)

-- Whether a row of the list is that of the command and has an outcome.
abbrev IsListed : ℕ → Table → Type 0
IsListed d [] = ⊥
IsListed d (row ∷ rows) = ((row.command ≡ d) × (row.outcome ≢ none)) ⊎ IsListed d rows

insert_ordered-IsListed :
    (d : ℕ) (row : CommandState) (rows : Table)
    → ((row.command ≡ d) × (row.outcome ≢ none)) ⊎ IsListed d rows
    → IsListed d (insert_ordered row rows)
unfolding insert_ordered
insert_ordered-IsListed d row [] h = h
insert_ordered-IsListed d row (other ∷ rows) h = elim (Bool-cases (comes_before row other)) [
  | inl e ↦ rw e h
  | inr e ↦ rw e (elim h [
    | inl own ↦ inr (insert_ordered-IsListed d row rows (inl own))
    | inr (inl own) ↦ inl own
    | inr (inr rest) ↦ inr (insert_ordered-IsListed d row rows (inr rest))
  ])
]

select_open-IsListed :
    (d : ℕ) (table : Table)
    → open_row (command_state d table) ≡ true
    → IsListed d (select_open table)
unfolding select_open command_state
select_open-IsListed d [] h = ground arith
select_open-IsListed d (row ∷ table) h = elim (ℕ-cases row.command d) [
  | inl same ↦
      let here : is_open row ≡ true = ground arith in
      rw here (insert_ordered-IsListed d row (select_open table) (inl (same, ground arith)))
  | inr ne ↦
      let later : IsListed d (select_open table) = select_open-IsListed d table (ground arith) in
      elim (Bool-cases (is_open row)) [
        | inl e ↦ rw e (insert_ordered-IsListed d row (select_open table) (inr later))
        | inr e ↦ rw e later
      ]
]

open_row_found :
    (r : Option CommandState)
    → open_row r ≡ true
    → (row : CommandState) × (o : CommandOutcome) × (r ≡ some row) × (row.outcome ≡ some o)
open_row_found none h = absurd (ground arith)
open_row_found (some row) h = elim (Option-cases row.outcome) [
  | inl e ↦ absurd (ground arith)
  | inr (o, e) ↦ (row, o, refl, e)
]

module _ {W KeySet : Type 0} where
  send_row_listed :
      (z : ℕ → Circumstances KeySet) (d : ℕ) (row : CommandState) (s : Channel W)
      → GoesThrough (z d)
      → row.command ≡ d
      → row.outcome ≢ none
      → open_row (command_state d s.table) ≡ true
      → ClosedAt d (send_row (z row.command) row.command row.outcome s)
  send_row_listed z d row s good same known unsent =
      let (found, p, at_d, has) = open_row_found (command_state d s.table) unsent in
      elim (Option-cases row.outcome) [
        | inl u ↦ absurd (known u)
        | inr (o, u) ↦
            rw (u, same)
              (rw (acknowledge_notes (z d) d (acknowledgement o none) s found p good at_d has)
                (ground arith))
      ]

  send_open_listed :
      (z : ℕ → Circumstances KeySet) (d : ℕ) (rows : Table) (s : Channel W)
      → GoesThrough (z d)
      → IsListed d rows
      → ClosedAt d (send_open z rows s)
  unfolding send_open
  send_open_listed z d [] s good listed = absurd listed
  send_open_listed z d (row ∷ rows) s good (inr listed) =
      send_open_listed z d rows (send_row (z row.command) row.command row.outcome s) good listed
  send_open_listed z d (row ∷ rows) s good (inl (same, known)) =
      send_open-ClosedAt z d rows (send_row (z row.command) row.command row.outcome s)
        (elim (Bool-cases (open_row (command_state d s.table))) [
          | inr closed ↦ send_row-ClosedAt (z row.command) row.command d row.outcome s closed
          | inl unsent ↦ send_row_listed z d row s good same known unsent
        ])

  -- With a database that answers, emptying the outbox succeeds, and no command is left open whose
  -- acknowledgement the server takes and the database notes.
  pub empty_outbox_delivers :
      (z : ℕ → Circumstances KeySet) (s : Channel W)
      → (s' : Channel W) × (empty_outbox true z s ≡ ok s')
        × ((d : ℕ) → GoesThrough (z d) → open_row (command_state d s'.table) ≡ false)
  unfolding empty_outbox open_acknowledgement
  empty_outbox_delivers z s = (
    send_open z (select_open s.table) s,
    refl,
    λ d good. elim (Bool-cases (open_row (command_state d s.table))) [
      | inl unsent ↦
          send_open_listed z d (select_open s.table) s good (select_open-IsListed d s.table unsent)
      | inr closed ↦ send_open-ClosedAt z d (select_open s.table) s closed
    ],
  )
