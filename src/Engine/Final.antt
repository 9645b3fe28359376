-- ===== src/Engine/Final.antt =====
-- crates/engine/src/delivery.rs and crates/store/src/delivery.rs: a command that has its outcome keeps
-- it, and is not run again.
use elasticdms_desktop.Prelude.{
  ℕ, ◌+◌, ◌≡◌, ◌≢◌, inl, inr, refl, ap, sym, ◌∙◌, Bool, true, false, ◌==◌, ◌&&◌, Option, none, some,
  List, [], ◌∷◌, if◌then◌else◌, arith, ok, ℕ-cases,
}
use elasticdms_desktop.Delivery.{Command, CommandOutcome}
use elasticdms_desktop.Wire.Envelope.{Json, CommandEnvelope, Acknowledgement, acknowledgement}
use elasticdms_desktop.Store.Commands.{
  Acceptance, from_run, CommandState, Table, command_state, accept_command, as_acknowledged,
}
use elasticdms_desktop.Store.Outcomes.{
  is_final, is_settled, row_outcome, SoundRow, accept_command_others, accept_command-from_run,
  accept_command-done, accept_command-SoundRow,
}
use elasticdms_desktop.Engine.Process.{
  Environment, Circumstances, Channel, with_table, complete, process, process_all,
}
use elasticdms_desktop.Engine.Effects.{runs, acknowledge-Sends, complete_cases}
use elasticdms_desktop.Engine.Processed.{
  Processed, idle, warns, refuses, repeats, keeps, decides, process-Processed,
}
use elasticdms_desktop.Engine.Settled.{complete_others, process-runs}

-- How often a command was run.
abbrev pub count_runs : ℕ → List (ℕ × Command) → ℕ
count_runs d [] = 0
count_runs d ((c, _) ∷ runs) = let rest = count_runs d runs in if c == d then 1 + rest else rest

-- A row that the server has, with a final outcome.
abbrev frozen_row : Option CommandState → Bool
frozen_row none = false
frozen_row (some row) = row.acknowledged && is_final row.outcome

has_outcome-SoundRow :
    (row : Option CommandState) {o : CommandOutcome} → row_outcome row ≡ some o → SoundRow row
has_outcome-SoundRow none h = tt
has_outcome-SoundRow (some row) h = ground arith

frozen-settled :
    (row : Option CommandState) → frozen_row row ≡ true → is_final (row_outcome row) ≡ true
frozen-settled none h = absurd (ground arith)
frozen-settled (some row) h = ground arith

as_acknowledged_same : (row : CommandState) → row.acknowledged ≡ true → as_acknowledged row ≡ row
as_acknowledged_same row h = ap (λ b. record row { acknowledged = b }) (sym h)

module _ {W KeySet : Type 0} where
  complete_settled :
      (z : Circumstances KeySet) (c : ℕ) (a : Acknowledgement) (s : Channel W)
      → is_final (some a.outcome) ≡ true
      → is_settled c s.table ≡ true
      → is_settled c (complete z c a s).table ≡ true
  complete_settled z c a s final settled = elim (complete_cases z c a s) [
    | inl same ↦ rw same settled
    | inr completed ↦ rw completed.outcome_now final
  ]

  complete_frozen :
      (z : Circumstances KeySet) (c d : ℕ) (a : Acknowledgement) (s : Channel W)
      → frozen_row (command_state d s.table) ≡ true
      → command_state d (complete z c a s).table ≡ command_state d s.table
  complete_frozen z c d a s frozen = elim (complete_cases z c a s) [
    | inl same ↦ rw same refl
    | inr completed ↦ elim (ℕ-cases c d) [
      | inr ne ↦ completed.others d ne
      | inl e ↦
          let known : command_state d s.table ≡ some completed.before = rw e at completed.known in
          absurd (ground (arith, rw known at frozen, completed.not_acknowledged))
    ]
  ]

  complete-SoundRow :
      (z : Circumstances KeySet) (c d : ℕ) (a : Acknowledgement) (s : Channel W)
      → SoundRow (command_state d s.table)
      → SoundRow (command_state d (complete z c a s).table)
  complete-SoundRow z c d a s sound = elim (complete_cases z c a s) [
    | inl same ↦ rw same sound
    | inr completed ↦ elim (ℕ-cases c d) [
      | inr ne ↦ rw (completed.others d ne) sound
      | inl e ↦
          rw (sym e)
            (has_outcome-SoundRow (command_state c (complete z c a s).table) completed.outcome_now)
    ]
  ]

module _ {W KeySet : Type 0} (env : Environment W KeySet) (z : Circumstances KeySet) (value : Json)
    (s : Channel W) (d : ℕ) where
  Processed-settled :
      (s' : Channel W)
      → is_settled d s.table ≡ true
      → Processed env z value s s'
      → (is_settled d s'.table ≡ true)
  Processed-settled s' settled (idle e u h) = settled
  Processed-settled s' settled (warns e h) = settled
  Processed-settled s' settled (refuses e c a read u o) = elim (ℕ-cases c d) [
    | inr ne ↦ rw (complete_others z c d a s ne) settled
    | inl same ↦ rw (sym same) (complete_settled z c a s (rw o refl) (rw (sym same) at settled))
  ]
  Processed-settled s' settled (repeats e o t read h) =
      let sends = acknowledge-Sends z e.command_id (acknowledgement o none) (with_table s t) in
      let (kept, _, _) =
        accept_command-done z.accepts false e.command_id z.received s.table t o h in
      elim (ℕ-cases e.command_id d) [
        | inr ne ↦ rw (sends.others d ne, kept) settled
        | inl same ↦ rw (sym same) (rw (sends.same_outcome, kept) (rw (sym same) at settled))
      ]
  Processed-settled s' settled (keeps e o t read h) =
      let (same, outcome, _) =
        accept_command-done z.accepts true e.command_id z.received s.table t o h in
      rw same settled
  Processed-settled s' settled (decides e acceptance a s'' read h fresh quiet may) =
      elim (ℕ-cases e.command_id d) [
        | inr ne ↦ rw (complete_others z e.command_id d a s'' ne) (
            rw
              (accept_command_others z.accepts e.command_id d z.received s.table s''.table
                acceptance ne h)
              settled)
        | inl same ↦
            let run =
              accept_command-from_run z.accepts e.command_id z.received s.table s''.table acceptance
                h in
            let before : is_settled e.command_id s.table ≡ true = rw (sym same) at settled in
            absurd (ground (arith, rw before at run))
      ]

  -- A command with a final outcome is not decided again.
  not_decided :
      (e : CommandEnvelope) (acceptance : Acceptance) (t : Table)
      → accept_command z.accepts e.command_id z.received s.table ≡ ok (acceptance, t)
      → from_run acceptance ≡ true
      → is_settled d s.table ≡ true
      → e.command_id ≢ d
  not_decided e acceptance t h fresh settled same =
      let run = accept_command-from_run z.accepts e.command_id z.received s.table t acceptance h in
      let before : is_settled e.command_id s.table ≡ true = rw (sym same) at settled in
      ground (arith, rw before at run)

  Processed-frozen :
      (s' : Channel W)
      → frozen_row (command_state d s.table) ≡ true
      → Processed env z value s s'
      → command_state d s'.table ≡ command_state d s.table
  Processed-frozen s' frozen (idle e u h) = refl
  Processed-frozen s' frozen (warns e h) = refl
  Processed-frozen s' frozen (refuses e c a read u o) = complete_frozen z c d a s frozen
  Processed-frozen s' frozen (repeats e o t read h) =
      let sends = acknowledge-Sends z e.command_id (acknowledgement o none) (with_table s t) in
      let (kept, _, _) =
        accept_command-done z.accepts false e.command_id z.received s.table t o h in
      elim (ℕ-cases e.command_id d) [
        | inr ne ↦ rw (sends.others d ne, kept) refl
        | inl same ↦ elim sends.marked [
          | inl unmarked ↦ rw (sym same) (rw (unmarked, kept) refl)
          | inr (row, found, _, now) ↦
              let known : command_state e.command_id s.table ≡ some row = rw kept at found in
              let whole : frozen_row (command_state e.command_id s.table) ≡ true =
                rw (sym same) at frozen in
              let noted : row.acknowledged ≡ true = ground (arith, rw known at whole) in
              rw (sym same) (now ∙ ap some (as_acknowledged_same row noted) ∙ sym known)
        ]
      ]
  Processed-frozen s' frozen (keeps e o t read h) =
      let (same, _, _) = accept_command-done z.accepts true e.command_id z.received s.table t o h in
      rw same refl
  Processed-frozen s' frozen (decides e acceptance a s'' read h fresh quiet may) =
      let ne =
        not_decided e acceptance s''.table h fresh
          (frozen-settled (command_state d s.table) frozen) in
      complete_others z e.command_id d a s'' ne
      ∙ accept_command_others z.accepts e.command_id d z.received s.table s''.table acceptance ne h

  Processed-SoundRow :
      (s' : Channel W)
      → SoundRow (command_state d s.table)
      → Processed env z value s s'
      → SoundRow (command_state d s'.table)
  Processed-SoundRow s' sound (idle e u h) = sound
  Processed-SoundRow s' sound (warns e h) = sound
  Processed-SoundRow s' sound (refuses e c a read u o) = complete-SoundRow z c d a s sound
  Processed-SoundRow s' sound (repeats e o t read h) =
      let sends = acknowledge-Sends z e.command_id (acknowledgement o none) (with_table s t) in
      let (kept, outcome, _) =
        accept_command-done z.accepts false e.command_id z.received s.table t o h in
      elim (ℕ-cases e.command_id d) [
        | inr ne ↦ rw (sends.others d ne, kept) sound
        | inl same ↦ rw (sym same) (
            has_outcome-SoundRow (command_state e.command_id s'.table) {o = o}
              (sends.same_outcome ∙ rw kept outcome))
      ]
  Processed-SoundRow s' sound (keeps e o t read h) =
      let (same, _, _) = accept_command-done z.accepts true e.command_id z.received s.table t o h in
      rw same sound
  Processed-SoundRow s' sound (decides e acceptance a s'' read h fresh quiet may) =
      complete-SoundRow z e.command_id d a s'' (elim (ℕ-cases e.command_id d) [
        | inr ne ↦
            rw
              (accept_command_others z.accepts e.command_id d z.received s.table s''.table
                acceptance ne h)
              sound
        | inl same ↦ rw (sym same) (
            accept_command-SoundRow z.accepts e.command_id z.received s.table s''.table acceptance h
              (rw (sym same) at sound))
      ])

  count_process :
      is_settled d s.table ≡ true
      → count_runs d (runs (process env z value s).deeds) ≡ count_runs d (runs s.deeds)
  count_process settled = elim (process-runs env z value s) [
    | inl same ↦ rw same refl
    | inr (e, c, authorized, now) ↦ elim (ℕ-cases e.command_id d) [
      | inl same ↦
          let unsettled : is_settled d s.table ≡ false = rw same at authorized.unsettled in
          absurd (ground arith)
      | inr ne ↦ rw now (ground arith)
    ]
  ]

module _ {W KeySet : Type 0} (env : Environment W KeySet) (d : ℕ) where
  -- A command whose outcome is final (not FAILED) keeps a final outcome over any number of entries
  -- and is run by none of them, under all circumstances.
  pub process_all-settled :
      (entries : List (Circumstances KeySet × Json)) (s : Channel W)
      → is_settled d s.table ≡ true
      → let s' = process_all env entries s in
        (is_settled d s'.table ≡ true)
        × (count_runs d (runs s'.deeds) ≡ count_runs d (runs s.deeds))
  unfolding process_all
  process_all-settled [] s settled = (settled, refl)
  process_all-settled ((z, value) ∷ entries) s settled =
      let next = process env z value s in
      let (later, same) =
        process_all-settled entries next
          (Processed-settled env z value s d next settled (process-Processed env z value s)) in
      (later, same ∙ count_process env z value s d settled)

  -- A row with a final outcome that the server has is the same after any number of entries, under
  -- all circumstances.
  pub process_all-frozen :
      (entries : List (Circumstances KeySet × Json)) (s : Channel W)
      → frozen_row (command_state d s.table) ≡ true
      → command_state d (process_all env entries s).table ≡ command_state d s.table
  unfolding process_all
  process_all-frozen [] s frozen = refl
  process_all-frozen ((z, value) ∷ entries) s frozen =
      let same =
        Processed-frozen env z value s d (process env z value s) frozen
          (process-Processed env z value s) in
      process_all-frozen entries (process env z value s) (rw same frozen) ∙ same

  process_all-SoundRow :
      (entries : List (Circumstances KeySet × Json)) (s : Channel W)
      → SoundRow (command_state d s.table)
      → SoundRow (command_state d (process_all env entries s).table)
  unfolding process_all
  process_all-SoundRow [] s sound = sound
  process_all-SoundRow ((z, value) ∷ entries) s sound =
      process_all-SoundRow entries (process env z value s) (
        Processed-SoundRow env z value s d (process env z value s) sound
          (process-Processed env z value s))
