-- ===== src/Engine/Settled.antt =====
-- crates/engine/src/delivery.rs: what holds of the commands over any number of pages.
use elasticdms_desktop.Prelude.{ℕ, ◌≡◌, ◌≢◌, ◌⊎◌, inl, inr, refl, ◌∙◌, false, none, some, ◌∷◌}
use elasticdms_desktop.Delivery.{Command}
use elasticdms_desktop.Wire.Envelope.{Json, CommandEnvelope, Acknowledgement, acknowledgement}
use elasticdms_desktop.Store.Commands.{command_state}
use elasticdms_desktop.Store.Outcomes.{outcome_of, accept_command-done}
use elasticdms_desktop.Engine.Process.{
  Environment, Circumstances, Channel, with_table, complete, process,
}
use elasticdms_desktop.Engine.Effects.{runs, sents, acknowledge-Sends, complete_cases}
use elasticdms_desktop.Engine.Processed.{
  Processed, idle, warns, refuses, repeats, keeps, decides, Authorizes, process-Processed,
}

module _ {W KeySet : Type 0} where
  pub runs-complete :
      (z : Circumstances KeySet) (c : ℕ) (a : Acknowledgement) (s : Channel W)
      → runs (complete z c a s).deeds ≡ runs s.deeds
  runs-complete z c a s = elim (complete_cases z c a s) [
    | inl same ↦ rw same refl
    | inr completed ↦ completed.same_runs
  ]

  pub complete_others :
      (z : Circumstances KeySet) (c d : ℕ) (a : Acknowledgement) (s : Channel W)
      → c ≢ d
      → command_state d (complete z c a s).table ≡ command_state d s.table
  complete_others z c d a s ne = elim (complete_cases z c a s) [
    | inl same ↦ rw same refl
    | inr completed ↦ completed.others d ne
  ]

module _ {W KeySet : Type 0} (env : Environment W KeySet) (z : Circumstances KeySet) (value : Json)
    (s : Channel W) where
  Processed-runs :
      (s' : Channel W)
      → Processed env z value s s'
      → (runs s'.deeds ≡ runs s.deeds)
        ⊎ ((e : CommandEnvelope) × (c : Command) × Authorizes env z value s e c
            × (runs s'.deeds ≡ (e.command_id, c) ∷ runs s.deeds))
  Processed-runs s' (idle e u h) = inl refl
  Processed-runs s' (warns e h) = inl refl
  Processed-runs s' (refuses e c a read u o) = inl (runs-complete z c a s)
  Processed-runs s' (repeats e o t read h) =
      inl (acknowledge-Sends z e.command_id (acknowledgement o none) (with_table s t)).same_runs
  Processed-runs s' (keeps e o t read h) = inl refl
  Processed-runs s' (decides e acceptance a s'' read h fresh quiet (inl same)) =
      inl (runs-complete z e.command_id a s'' ∙ same)
  Processed-runs s' (decides e acceptance a s'' read h fresh quiet (inr (c, authorized, now, _))) =
      inr (e, c, authorized, runs-complete z e.command_id a s'' ∙ now)

  -- An entry makes the engine run at most one command, and only if its envelope can be read, the
  -- store has no final outcome of it, its signature holds under the anchored keys, it is an order
  -- for this device, and the rate limit has a place.
  pub process-runs :
      (runs (process env z value s).deeds ≡ runs s.deeds)
      ⊎ ((e : CommandEnvelope) × (c : Command) × Authorizes env z value s e c
          × (runs (process env z value s).deeds ≡ (e.command_id, c) ∷ runs s.deeds))
  process-runs = Processed-runs (process env z value s) (process-Processed env z value s)

  -- The acknowledgement that goes out is the recorded one.
  abbrev Truthful : Channel W → Type 0
  Truthful s' =
      (sents s'.deeds ≡ sents s.deeds)
      ⊎ ((c : ℕ) × (a : Acknowledgement) × (sents s'.deeds ≡ (c, a) ∷ sents s.deeds)
          × (outcome_of c s'.table ≡ some a.outcome))

  complete-Truthful :
      (c : ℕ) (a : Acknowledgement) (s' : Channel W)
      → sents s'.deeds ≡ sents s.deeds
      → Truthful (complete z c a s')
  complete-Truthful c a s' quiet = elim (complete_cases z c a s') [
    | inl same ↦ inl (rw same quiet)
    | inr completed ↦ elim completed.at_most_one [
      | inl none_sent ↦ inl (none_sent ∙ quiet)
      | inr one_sent ↦ inr (c, a, rw quiet at one_sent, completed.outcome_now)
    ]
  ]

  Processed-Truthful : (s' : Channel W) → Processed env z value s s' → Truthful s'
  unfolding acknowledgement
  Processed-Truthful s' (idle e u h) = inl refl
  Processed-Truthful s' (warns e h) = inl refl
  Processed-Truthful s' (refuses e c a read u o) = complete-Truthful c a s refl
  Processed-Truthful s' (repeats e o t read h) =
      let sends = acknowledge-Sends z e.command_id (acknowledgement o none) (with_table s t) in
      let (same, outcome, _) =
        accept_command-done z.accepts false e.command_id z.received s.table t o h in
      elim sends.at_most_one [
        | inl none_sent ↦ inl none_sent
        | inr one_sent ↦
            inr
              (e.command_id, acknowledgement o none, one_sent, sends.same_outcome ∙ rw same outcome)
      ]
  Processed-Truthful s' (keeps e o t read h) = inl refl
  Processed-Truthful s' (decides e acceptance a s'' read h fresh quiet may) =
      complete-Truthful e.command_id a s'' quiet

  -- An entry makes the engine send at most one acknowledgement, and only with the outcome that the
  -- store has for that command.
  pub process-Truthful :
      (sents (process env z value s).deeds ≡ sents s.deeds)
      ⊎ ((c : ℕ) × (a : Acknowledgement) × (sents (process env z value s).deeds
            ≡ (c, a) ∷ sents s.deeds)
          × (outcome_of c (process env z value s).table ≡ some a.outcome))
  process-Truthful = Processed-Truthful (process env z value s) (process-Processed env z value s)
