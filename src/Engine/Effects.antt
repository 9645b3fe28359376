-- ===== src/Engine/Effects.antt =====
-- crates/engine/src/delivery.rs: what `acknowledge` and `complete` do to the table and which deeds they
-- add.
use elasticdms_desktop.Prelude.{
  ℕ, ◌≡◌, ◌≢◌, ◌⊎◌, inl, inr, refl, ◌∙◌, false, none, some, List, [], ◌∷◌, arith, Result, ok, err,
  Bool-cases,
}
use elasticdms_desktop.Delivery.{Command}
use elasticdms_desktop.Wire.Envelope.{Acknowledgement}
use elasticdms_desktop.Store.Commands.{
  CommandState, StoreError, Table, command_state, set_outcome, mark_acknowledged, as_acknowledged,
}
use elasticdms_desktop.Store.Outcomes.{outcome_of}
use elasticdms_desktop.Store.Marks.{
  set_outcome_row, set_outcome_others, mark_acknowledged_row, mark_acknowledged_others,
}
use elasticdms_desktop.Engine.Process.{
  Circumstances, Channel, Deed, ran, sent, acknowledge, complete, is_success, noted, with_deed,
  with_table, recorded,
}

-- The commands that were run, and the acknowledgements that were sent, the latest first.
abbrev pub runs : List Deed → List (ℕ × Command)
runs [] = []
runs (ran command c ∷ deeds) = (command, c) ∷ runs deeds
runs (_ ∷ deeds) = runs deeds

abbrev pub sents : List Deed → List (ℕ × Acknowledgement)
sents [] = []
sents (sent command a ∷ deeds) = (command, a) ∷ sents deeds
sents (_ ∷ deeds) = sents deeds

module _ {W : Type 0} where
  -- What an acknowledgement that goes out changes.
  pub record Sends (c : ℕ) (a : Acknowledgement) (s s' : Channel W) : Type 0 where
    pub same_runs : runs s'.deeds ≡ runs s.deeds
    pub same_world : s'.world ≡ s.world
    pub at_most_one : (sents s'.deeds ≡ sents s.deeds) ⊎ (sents s'.deeds ≡ (c, a) ∷ sents s.deeds)
    pub same_outcome : outcome_of c s'.table ≡ outcome_of c s.table
    pub others : (d : ℕ) → c ≢ d → command_state d s'.table ≡ command_state d s.table
    pub marked :
        (command_state c s'.table ≡ command_state c s.table)
        ⊎ ((row : CommandState) × (command_state c s.table ≡ some row)
            × (row.outcome ≢ none)
            × (command_state c s'.table ≡ some (as_acknowledged row)))

  Sends-idle : (c : ℕ) (a : Acknowledgement) (s : Channel W) → Sends c a s s
  Sends-idle c a s = record {
    same_runs = refl;
    same_world = refl;
    at_most_one = inl refl;
    same_outcome = refl;
    others = λ d ne. refl;
    marked = inl refl;
  }

  Sends-only : (c : ℕ) (a : Acknowledgement) (s : Channel W) → Sends c a s (with_deed (sent c a) s)
  Sends-only c a s = record {
    same_runs = refl;
    same_world = refl;
    at_most_one = inr refl;
    same_outcome = refl;
    others = λ d ne. refl;
    marked = inl refl;
  }

  -- What a completion changes, unless the outcome could not be recorded.
  pub record Completes (c : ℕ) (a : Acknowledgement) (s s' : Channel W) : Type 0 where
    pub same_runs : runs s'.deeds ≡ runs s.deeds
    pub same_world : s'.world ≡ s.world
    pub at_most_one : (sents s'.deeds ≡ sents s.deeds) ⊎ (sents s'.deeds ≡ (c, a) ∷ sents s.deeds)
    pub others : (d : ℕ) → c ≢ d → command_state d s'.table ≡ command_state d s.table
    pub before : CommandState
    pub known : command_state c s.table ≡ some before
    pub not_acknowledged : before.acknowledged ≡ false
    pub outcome_now : outcome_of c s'.table ≡ some a.outcome

module _ {W KeySet : Type 0} where
  Sends-noted :
      (z : Circumstances KeySet) (c : ℕ) (a : Acknowledgement) (s : Channel W)
      (r : Result StoreError Table)
      → mark_acknowledged z.notes c s.table ≡ r
      → Sends c a s (noted (with_deed (sent c a) s) r)
  Sends-noted z c a s (err _) h = Sends-only c a s
  Sends-noted z c a s (ok table) h =
      let (row, o, e, u, t, now) = mark_acknowledged_row z.notes c s.table table h in
      record {
        same_runs = refl;
        same_world = refl;
        at_most_one = inr refl;
        same_outcome = rw (now, e) refl;
        others = λ d ne. mark_acknowledged_others z.notes c d s.table table ne h;
        marked = inr (row, e, ground arith, now);
      }

  pub acknowledge-Sends :
      (z : Circumstances KeySet) (c : ℕ) (a : Acknowledgement) (s : Channel W)
      → Sends c a s (acknowledge z c a s)
  unfolding acknowledge
  acknowledge-Sends z c a s = elim (Bool-cases z.token) [
    | inr e ↦ rw e (Sends-idle c a s)
    | inl e ↦ elim (Bool-cases z.key) [
      | inr k ↦ rw (e, k) (Sends-idle c a s)
      | inl k ↦ elim (Bool-cases (is_success z.answer)) [
        | inr n ↦ rw (e, k, n) (Sends-only c a s)
        | inl n ↦ rw (e, k, n) (Sends-noted z c a s (mark_acknowledged z.notes c s.table) refl)
      ]
    ]
  ]

  recorded_cases :
      (z : Circumstances KeySet) (c : ℕ) (a : Acknowledgement) (s : Channel W)
      (r : Result StoreError Table)
      → set_outcome z.records c a.outcome s.table ≡ r
      → (recorded z c a s r ≡ s) ⊎ Completes c a s (recorded z c a s r)
  recorded_cases z c a s (err _) h = inl refl
  recorded_cases z c a s (ok table) h =
      let (row, e, unsent, t, now) = set_outcome_row z.records c a.outcome s.table table h in
      let sends = acknowledge-Sends z c a (with_table s table) in
      inr (record {
        same_runs = sends.same_runs;
        same_world = sends.same_world;
        at_most_one = sends.at_most_one;
        others = λ d ne.
            sends.others d ne ∙ set_outcome_others z.records c d a.outcome s.table table ne h;
        before = row;
        known = e;
        not_acknowledged = unsent;
        outcome_now = sends.same_outcome ∙ rw now refl;
      })

  pub complete_cases :
      (z : Circumstances KeySet) (c : ℕ) (a : Acknowledgement) (s : Channel W)
      → (complete z c a s ≡ s) ⊎ Completes c a s (complete z c a s)
  unfolding complete
  complete_cases z c a s = recorded_cases z c a s (set_outcome z.records c a.outcome s.table) refl
