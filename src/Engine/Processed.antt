-- ===== src/Engine/Processed.antt =====
-- crates/engine/src/delivery.rs: the ways in which `process` ends, by what it has checked on the way.
use elasticdms_desktop.Prelude.{
  ℕ, ◌≡◌, ◌⊎◌, inl, inr, refl, Bool, true, false, Option, none, some, List, ◌∷◌, arith, Result, ok,
  err, Bool-cases,
}
use elasticdms_desktop.Text.{Text}
use elasticdms_desktop.Delivery.{Command, CommandOutcome, rejected, failed}
use elasticdms_desktop.Wire.Envelope.{
  Json, object, CommandEnvelope, EnvelopeError, acknowledgeable, CommandReadError, from_value,
  command, Acknowledgement, acknowledgement,
}
use elasticdms_desktop.Wire.Strict.{IsOrder, command-IsOrder}
use elasticdms_desktop.Store.Commands.{
  Acceptance, done, from_run, StoreError, Table, accept_command,
}
use elasticdms_desktop.Store.Outcomes.{is_settled, accept_command-from_run}
use elasticdms_desktop.Engine.RateLimit.{take}
use elasticdms_desktop.Engine.Process.{
  Environment, Circumstances, Channel, warned, ran, acknowledge, complete, with_deed, with_table,
  process, received_as, no_envelope, taken_up, repeated, with_key_set, verified, translated,
  limited, announce_applied,
}
use elasticdms_desktop.Engine.Effects.{runs, sents}

module _ {W KeySet : Type 0} (env : Environment W KeySet) (z : Circumstances KeySet)
    (value : Json) where
  -- The value is an order that this device may carry out now: its envelope can be read, the store has
  -- no final outcome of it, its signature holds under the anchored keys, the strict reading makes it
  -- the command, and the rate limit has a place.
  pub record Authorizes (s : Channel W) (e : CommandEnvelope) (c : Command) : Type 0 where
    pub read : from_value env.reading value ≡ ok e
    pub unsettled : is_settled e.command_id s.table ≡ false
    pub keys : KeySet
    pub anchored : z.key_set ≡ ok keys
    pub signed : env.check_signature (object e.raw) keys ≡ none
    pub ordered : IsOrder env.reading env.own_device e c
    pub place : (take z.now_millis s.rate).0 ≡ true

  -- Nothing was run since, or just the authorized command, with this acknowledgement and world.
  abbrev MayRun : Channel W → CommandEnvelope → Acknowledgement → Channel W → Type 0
  MayRun s e a s' =
      (runs s'.deeds ≡ runs s.deeds)
      ⊎ ((c : Command) × Authorizes s e c
          × (runs s'.deeds ≡ (e.command_id, c) ∷ runs s.deeds)
          × (env.run_from c s.world ≡ (a, s'.world)))

  pub data Processed (s : Channel W) : Channel W → Type 0 where
    idle :
        (e : CommandEnvelope) (u : StoreError)
        → accept_command z.accepts e.command_id z.received s.table ≡ err u
        → Processed s s
    warns :
        (e : EnvelopeError)
        → from_value env.reading value ≡ err e
        → Processed s (with_deed warned s)
    refuses :
        (e : EnvelopeError) (c : ℕ) (a : Acknowledgement)
        → from_value env.reading value ≡ err e
        → acknowledgeable e ≡ some c
        → a.outcome ≡ rejected
        → Processed s (complete z c a s)
    repeats :
        (e : CommandEnvelope) (o : CommandOutcome) (t : Table)
        → from_value env.reading value ≡ ok e
        → accept_command z.accepts e.command_id z.received s.table ≡ ok (done o false, t)
        → Processed s (acknowledge z e.command_id (acknowledgement o none) (with_table s t))
    keeps :
        (e : CommandEnvelope) (o : CommandOutcome) (t : Table)
        → from_value env.reading value ≡ ok e
        → accept_command z.accepts e.command_id z.received s.table ≡ ok (done o true, t)
        → Processed s (with_table s t)
    decides :
        (e : CommandEnvelope) (acceptance : Acceptance) (a : Acknowledgement) (s' : Channel W)
        → from_value env.reading value ≡ ok e
        → accept_command z.accepts e.command_id z.received s.table ≡ ok (acceptance, s'.table)
        → from_run acceptance ≡ true
        → sents s'.deeds ≡ sents s.deeds
        → MayRun s e a s'
        → Processed s (complete z e.command_id a s')

  module _ (s : Channel W) (e : CommandEnvelope) (read : from_value env.reading value ≡ ok e) where
    repeated-Processed :
        (a : Acceptance) (t : Table)
        → accept_command z.accepts e.command_id z.received s.table ≡ ok (a, t)
        → from_run a ≡ false
        → Processed s (repeated z e.command_id a (with_table s t))
    unfolding from_run
    repeated-Processed (done o false) t h n = repeats e o t read h
    repeated-Processed (done o true) t h n = keeps e o t read h
    repeated-Processed Acceptance.new t h n = absurd (ground arith)
    repeated-Processed Acceptance.interrupted t h n = absurd (ground arith)
    repeated-Processed Acceptance.repeat t h n = absurd (ground arith)

    module _ (a : Acceptance) (t : Table)
        (accepted : accept_command z.accepts e.command_id z.received s.table ≡ ok (a, t))
        (fresh : from_run a ≡ true) where
      unsettled_before : is_settled e.command_id s.table ≡ false
      unsettled_before =
          let h = accept_command-from_run z.accepts e.command_id z.received s.table t a accepted in
          ground arith

      announced_runs :
          (c : Command) (o : CommandOutcome) (s' : Channel W)
          → runs (announce_applied c o s').deeds ≡ runs s'.deeds
      announced_runs c CommandOutcome.applied s' = refl
      announced_runs c _ s' = refl

      announced_sents :
          (c : Command) (o : CommandOutcome) (s' : Channel W)
          → sents (announce_applied c o s').deeds ≡ sents s'.deeds
      announced_sents c CommandOutcome.applied s' = refl
      announced_sents c _ s' = refl

      announced_world :
          (c : Command) (o : CommandOutcome) (s' : Channel W)
          → (announce_applied c o s').world ≡ s'.world
      announced_world c CommandOutcome.applied s' = refl
      announced_world c _ s' = refl

      announced_table :
          (c : Command) (o : CommandOutcome) (s' : Channel W)
          → (announce_applied c o s').table ≡ s'.table
      announced_table c CommandOutcome.applied s' = refl
      announced_table c _ s' = refl

      module _ (keys : KeySet) (anchored : z.key_set ≡ ok keys)
          (signed : env.check_signature (object e.raw) keys ≡ none) where
        limited-Processed :
            (c : Command) (place : Bool) (rate : List ℕ)
            → command env.reading env.own_device e ≡ ok c
            → take z.now_millis s.rate ≡ (place, rate)
            → Processed s (limited env z e.command_id c (place, rate) (with_table s t))
        limited-Processed c false rate h q =
            decides e a (acknowledgement failed (some env.rate_text))
              (record s { table = t; rate = rate }) read accepted fresh refl (inl refl)
        limited-Processed c true rate h q =
            let (ack, world) = env.run_from c s.world in
            let run =
              with_deed (ran e.command_id c) (record s { table = t; rate = rate; world = world }) in
            decides e a ack (announce_applied c ack.outcome run) read
              (rw (announced_table c ack.outcome run) accepted) fresh
              (announced_sents c ack.outcome run)
              (inr (
                c,
                record {
                  read = read;
                  unsettled = unsettled_before;
                  keys = keys;
                  anchored = anchored;
                  signed = signed;
                  ordered = command-IsOrder env.reading env.own_device e c h;
                  place = rw q refl;
                },
                announced_runs c ack.outcome run,
                rw (announced_world c ack.outcome run) refl,
              ))

        translated-Processed :
            (r : Result CommandReadError Command)
            → command env.reading env.own_device e ≡ r
            → Processed s (translated env z e.command_id r (with_table s t))
        translated-Processed (err u) h =
            decides e a (acknowledgement rejected (some (env.read_text u))) (with_table s t) read
              accepted fresh refl (inl refl)
        translated-Processed (ok c) h =
            limited-Processed c (take z.now_millis s.rate).0 (take z.now_millis s.rate).1 h refl

      verified-Processed :
          (keys : KeySet) (r : Option Text)
          → z.key_set ≡ ok keys
          → env.check_signature (object e.raw) keys ≡ r
          → Processed s (verified env z e r (with_table s t))
      verified-Processed keys (some text) k h =
          decides e a (acknowledgement rejected (some text)) (with_deed warned (with_table s t))
            read accepted fresh refl (inl refl)
      verified-Processed keys none k h =
          translated-Processed keys k h (command env.reading env.own_device e) refl

      with_key_set-Processed :
          (r : Result Text KeySet)
          → z.key_set ≡ r
          → Processed s (with_key_set env z e r (with_table s t))
      with_key_set-Processed (err text) k =
          decides e a (acknowledgement failed (some text)) (with_deed warned (with_table s t)) read
            accepted fresh refl (inl refl)
      with_key_set-Processed (ok keys) k =
          verified-Processed keys (env.check_signature (object e.raw) keys) k refl

    taken_up-Processed :
        (r : Result StoreError (Acceptance × Table))
        → accept_command z.accepts e.command_id z.received s.table ≡ r
        → Processed s (taken_up env z e r s)
    taken_up-Processed (err u) h = idle e u h
    taken_up-Processed (ok (a, t)) h = elim (Bool-cases (from_run a)) [
      | inl run ↦ rw run (with_key_set-Processed a t h run z.key_set refl)
      | inr old ↦ rw old (repeated-Processed a t h old)
    ]

  no_envelope-Processed :
      (s : Channel W) (e : EnvelopeError) (c : Option ℕ)
      → from_value env.reading value ≡ err e
      → acknowledgeable e ≡ c
      → Processed s (no_envelope z (env.envelope_text e) c s)
  unfolding acknowledgement
  no_envelope-Processed s e none h u = warns e h
  no_envelope-Processed s e (some c) h u =
      refuses e c (acknowledgement rejected (some (env.envelope_text e))) h u refl

  received_as-Processed :
      (s : Channel W) (r : Result EnvelopeError CommandEnvelope)
      → from_value env.reading value ≡ r
      → Processed s (received_as env z r s)
  received_as-Processed s (err e) h = no_envelope-Processed s e (acknowledgeable e) h refl
  received_as-Processed s (ok e) h =
      taken_up-Processed s e h (accept_command z.accepts e.command_id z.received s.table) refl

  pub process-Processed : (s : Channel W) → Processed s (process env z value s)
  unfolding process
  process-Processed s = received_as-Processed s (from_value env.reading value) refl
