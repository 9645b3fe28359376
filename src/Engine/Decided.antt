-- ===== src/Engine/Decided.antt =====
-- crates/engine/src/delivery.rs: whether an entry of a page leaves an outcome.
use elasticdms_desktop.Prelude.{
  ℕ, ◌≡◌, ◌≢◌, inl, inr, refl, sym, ap, Bool, true, false, Option, none, some, [], ◌∷◌, arith,
  Result, ok, err, Bool-cases,
}
use elasticdms_desktop.Delivery.{CommandOutcome}
use elasticdms_desktop.Wire.Envelope.{
  Json, CommandEnvelope, unreadable, acknowledgeable, from_value, Acknowledgement, acknowledgement,
}
use elasticdms_desktop.Store.Commands.{
  CommandState, Table, StoreError, command_state, open_acknowledgement, set_outcome, accept_command,
}
use elasticdms_desktop.Store.Outcomes.{
  outcome_of, SoundRow, accept_command-done, accept_command_unsent,
}
use elasticdms_desktop.Store.Marks.{set_outcome_known}
use elasticdms_desktop.Engine.Process.{
  Environment, Circumstances, Channel, acknowledge, complete, with_table, process,
}
use elasticdms_desktop.Engine.Effects.{acknowledge-Sends}
use elasticdms_desktop.Engine.Processed.{
  Processed, idle, warns, refuses, repeats, keeps, decides, process-Processed,
}

module _ {W KeySet : Type 0} where
  abbrev pub send_row : Circumstances KeySet → ℕ → Option CommandOutcome → Channel W → Channel W
  send_row z command none s = s
  send_row z command (some outcome) s = acknowledge z command (acknowledgement outcome none) s

  -- The loop of `empty_outbox`; each command has its own circumstances.
  unfoldable pub send_open : (ℕ → Circumstances KeySet) → Table → Channel W → Channel W
  send_open z [] s = s
  send_open z (row ∷ rows) s = send_open z rows (send_row (z row.command) row.command row.outcome s)

  abbrev pub send_listed :
      (ℕ → Circumstances KeySet)
      → Result StoreError Table
      → Channel W
      → Result StoreError (Channel W)
  send_listed z (err e) s = err e
  send_listed z (ok rows) s = ok (send_open z rows s)

  -- `empty_outbox`
  unfoldable pub empty_outbox :
      Bool → (ℕ → Circumstances KeySet) → Channel W → Result StoreError (Channel W)
  unfolding send_open
  empty_outbox answers z s = send_listed z (open_acknowledgement answers s.table) s

module _ {W KeySet : Type 0} (env : Environment W KeySet) (z : Circumstances KeySet) (value : Json)
    (s : Channel W) where
  complete_records :
      (c : ℕ) (a : Acknowledgement) (s' : Channel W) (row : CommandState)
      → z.records ≡ true
      → command_state c s'.table ≡ some row
      → row.acknowledged ≡ false
      → outcome_of c (complete z c a s').table ≢ none
  unfolding complete
  complete_records c a s' row answers found unsent =
      let (after, set, now) = set_outcome_known c a.outcome s'.table row found unsent in
      let kept = (acknowledge-Sends z c a (with_table s' after)).same_outcome in
      rw (answers, set) (ground (arith, rw now at kept))

  Processed-decides :
      (s' : Channel W) (e : CommandEnvelope)
      → from_value env.reading value ≡ ok e
      → z.accepts ≡ true
      → z.records ≡ true
      → SoundRow (command_state e.command_id s.table)
      → Processed env z value s s'
      → outcome_of e.command_id s'.table ≢ none
  unfolding accept_command
  Processed-decides s' e read accepts records sound (idle e' u h) = absurd (ground arith)
  Processed-decides s' e read accepts records sound (warns u h) = absurd (ground arith)
  Processed-decides s' e read accepts records sound (refuses u c a unread v o) =
      absurd (ground arith)
  Processed-decides s' e read accepts records sound (repeats e' o t read' h) =
      let one : e' ≡ e = ground arith in
      let same : e'.command_id ≡ e.command_id = ap (λ x. x.command_id) one in
      let (kept, outcome, _) =
        accept_command-done z.accepts false e'.command_id z.received s.table t o h in
      let sends = acknowledge-Sends z e'.command_id (acknowledgement o none) (with_table s t) in
      rw (sym same, sends.same_outcome, kept, outcome) (ground arith)
  Processed-decides s' e read accepts records sound (keeps e' o t read' h) =
      let one : e' ≡ e = ground arith in
      let same : e'.command_id ≡ e.command_id = ap (λ x. x.command_id) one in
      let (kept, outcome, _) =
        accept_command-done z.accepts true e'.command_id z.received s.table t o h in
      rw (sym same, kept, outcome) (ground arith)
  Processed-decides s' e read accepts records sound
        (decides e' acceptance a s'' read' h fresh quiet may) =
      let one : e' ≡ e = ground arith in
      let same : e'.command_id ≡ e.command_id = ap (λ x. x.command_id) one in
      let (row, found, unsent) =
        accept_command_unsent z.accepts e'.command_id z.received s.table s''.table acceptance h
          fresh (rw (sym same) at sound) in
      rw (sym same) (complete_records e'.command_id a s'' row records found unsent)

  -- With a database that answers, and where the row of the command is acknowledged only with an
  -- outcome, an entry with a readable envelope leaves an outcome of its command.
  pub process_decides :
      (e : CommandEnvelope)
      → from_value env.reading value ≡ ok e
      → z.accepts ≡ true
      → z.records ≡ true
      → SoundRow (command_state e.command_id s.table)
      → outcome_of e.command_id (process env z value s).table ≢ none
  process_decides e read accepts records sound =
      Processed-decides (process env z value s) e read accepts records sound
        (process-Processed env z value s)

  -- An entry whose identifier can be read and the rest not, of a command that the store does not
  -- know, changes nothing: no outcome is recorded and no acknowledgement sent.
  pub process_unreadable_new :
      (c : ℕ)
      → from_value env.reading value ≡ err (unreadable c)
      → command_state c s.table ≡ none
      → process env z value s ≡ s
  unfolding process complete set_outcome acknowledgeable
  process_unreadable_new c unread new = elim (Bool-cases z.records) [
    | inl e ↦ rw (unread, e, new) refl
    | inr e ↦ rw (unread, e) refl
  ]
