-- ===== src/Engine/Process.antt =====
-- crates/engine/src/delivery.rs: what the engine does with one entry of a delivery page, from the raw
-- value to the acknowledgement. `Environment` has what the function calls and no call changes the
-- table of commands; `Circumstances` has what the calls out of one run of it answer.
use elasticdms_desktop.Prelude.{
  ℕ, Bool, true, false, not, Option, none, some, List, [], ◌∷◌, if◌then◌else◌, Result, ok, err,
}
use elasticdms_desktop.Text.{Text}
use elasticdms_desktop.Delivery.{Command, CommandOutcome, applied, rejected, failed}
use elasticdms_desktop.Wire.Envelope.{
  Json, object, CommandEnvelope, EnvelopeError, acknowledgeable, CommandReadError, Reading,
  from_value, Acknowledgement, acknowledgement, command,
}
use elasticdms_desktop.Store.Commands.{
  Acceptance, done, from_run, StoreError, Table, accept_command, set_outcome, mark_acknowledged,
}
use elasticdms_desktop.Engine.RateLimit.{take}

-- The calls: reading JSON, the signature check of `edms-crypto` with its complaint, the sentences of
-- the errors, and `run_from`, which changes the rest of the world.
pub record Environment (W KeySet : Type 0) : Type 0 where
  pub reading : Reading
  pub own_device : ℕ
  pub check_signature : Json → KeySet → Option Text
  pub envelope_text : EnvelopeError → Text
  pub read_text : CommandReadError → Text
  pub rate_text : Text
  pub run_from : Command → W → Acknowledgement × W

-- What the server answers to an acknowledgement: `AcknowledgementOutcome`, or no success.
pub data Answer : Type 0 where
  accepted already_acknowledged unsuccessful : Answer

pub record Circumstances (KeySet : Type 0) : Type 0 where
  -- `now()` at the acceptance and at the rate limit
  pub received : ℕ
  pub now_millis : ℕ
  -- whether the database answers to `accept_command`, `set_outcome` and `mark_acknowledged`
  pub accepts : Bool
  pub records : Bool
  pub notes : Bool
  -- `read_key_set`, or why it failed
  pub key_set : Result Text KeySet
  -- whether `fetch_device_token` answers `Ok(true)`, and `IdempotencyKey::generate` a key
  pub token : Bool
  pub key : Bool
  pub answer : Answer

-- What the engine has done, as far as it is visible outside the table.
pub data Deed : Type 0 where
  warned : Deed
  ran : ℕ → Command → Deed
  announced : Command → Deed
  sent : ℕ → Acknowledgement → Deed

-- The engine as far as the channel goes: the table, the rate limit, the rest, and its deeds, the
-- latest first.
pub record Channel (W : Type 0) : Type 0 where
  pub table : Table
  pub rate : List ℕ
  pub world : W
  pub deeds : List Deed

abbrev pub is_success : Answer → Bool
is_success unsuccessful = false
is_success _ = true

module _ {W : Type 0} where
  abbrev pub with_table : Channel W → Table → Channel W
  with_table s table = record s { table = table }

  abbrev pub with_deed : Deed → Channel W → Channel W
  with_deed d s = record s { deeds = d ∷ s.deeds }

  -- After `mark_acknowledged`
  abbrev pub noted : Channel W → Result StoreError Table → Channel W
  noted s (ok table) = with_table s table
  noted s (err _) = s

  abbrev pub announce_applied : Command → CommandOutcome → Channel W → Channel W
  announce_applied c applied s = with_deed (announced c) s
  announce_applied c _ s = s

module _ {W KeySet : Type 0} where
  -- `acknowledge`
  unfoldable pub acknowledge : Circumstances KeySet → ℕ → Acknowledgement → Channel W → Channel W
  acknowledge z id a s =
      if not z.token
      then s
      else if not z.key
      then s
      else if is_success z.answer
      then noted (with_deed (sent id a) s) (mark_acknowledged z.notes id s.table)
      else with_deed (sent id a) s

  -- After `set_outcome`
  abbrev pub recorded :
      Circumstances KeySet → ℕ → Acknowledgement → Channel W → Result StoreError Table → Channel W
  recorded z id a s (err _) = s
  recorded z id a s (ok table) = acknowledge z id a (with_table s table)

  -- `complete`
  unfoldable pub complete : Circumstances KeySet → ℕ → Acknowledgement → Channel W → Channel W
  complete z id a s = recorded z id a s (set_outcome z.records id a.outcome s.table)

  -- An entry that is no envelope
  abbrev pub no_envelope : Circumstances KeySet → Text → Option ℕ → Channel W → Channel W
  no_envelope z text none s = with_deed warned s
  no_envelope z text (some id) s = complete z id (acknowledgement rejected (some text)) s

  -- A command that has its outcome: only the acknowledgement may be missing.
  abbrev pub repeated : Circumstances KeySet → ℕ → Acceptance → Channel W → Channel W
  repeated z id (done outcome false) s = acknowledge z id (acknowledgement outcome none) s
  repeated z id _ s = s

  -- Behind the rate limit
  abbrev executed : Circumstances KeySet → ℕ → Command → Acknowledgement × W → Channel W → Channel W
  executed z id c (a, world) s =
      complete z id a
        (announce_applied c a.outcome (with_deed (ran id c) (record s { world = world })))

  abbrev pub limited :
      Environment W KeySet
      → Circumstances KeySet
      → ℕ
      → Command
      → Bool × List ℕ
      → Channel W
      → Channel W
  limited env z id c (false, rate) s =
      complete z id (acknowledgement failed (some env.rate_text)) (record s { rate = rate })
  limited env z id c (true, rate) s =
      executed z id c (env.run_from c s.world) (record s { rate = rate })

  -- After `envelope.command(..)`
  abbrev pub translated :
      Environment W KeySet
      → Circumstances KeySet
      → ℕ
      → Result CommandReadError Command
      → Channel W
      → Channel W
  translated env z id (err e) s =
      complete z id (acknowledgement rejected (some (env.read_text e))) s
  translated env z id (ok c) s = limited env z id c (take z.now_millis s.rate) s

  -- After `check_command_signature`
  abbrev pub verified :
      Environment W KeySet
      → Circumstances KeySet
      → CommandEnvelope
      → Option Text
      → Channel W
      → Channel W
  verified env z e (some text) s =
      complete z e.command_id (acknowledgement rejected (some text)) (with_deed warned s)
  verified env z e none s = translated env z e.command_id (command env.reading env.own_device e) s

  -- After `read_key_set`
  abbrev pub with_key_set :
      Environment W KeySet
      → Circumstances KeySet
      → CommandEnvelope
      → Result Text KeySet
      → Channel W
      → Channel W
  with_key_set env z e (err text) s =
      complete z e.command_id (acknowledgement failed (some text)) (with_deed warned s)
  with_key_set env z e (ok keys) s = verified env z e (env.check_signature (object e.raw) keys) s

  -- After `accept_command`
  abbrev pub taken_up :
      Environment W KeySet
      → Circumstances KeySet
      → CommandEnvelope
      → Result StoreError (Acceptance × Table)
      → Channel W
      → Channel W
  taken_up env z e (err _) s = s
  taken_up env z e (ok (acceptance, table)) s =
      if from_run acceptance
      then with_key_set env z e z.key_set (with_table s table)
      else repeated z e.command_id acceptance (with_table s table)

  abbrev pub received_as :
      Environment W KeySet
      → Circumstances KeySet
      → Result EnvelopeError CommandEnvelope
      → Channel W
      → Channel W
  received_as env z (err e) s = no_envelope z (env.envelope_text e) (acknowledgeable e) s
  received_as env z (ok e) s =
      taken_up env z e (accept_command z.accepts e.command_id z.received s.table) s

  -- `process`
  unfoldable pub process :
      Environment W KeySet → Circumstances KeySet → Json → Channel W → Channel W
  process env z value s = received_as env z (from_value env.reading value) s

  -- The entries of the pages, one after another, each under its circumstances.
  unfoldable pub process_all :
      Environment W KeySet → List (Circumstances KeySet × Json) → Channel W → Channel W
  process_all env [] s = s
  process_all env ((z, value) ∷ entries) s = process_all env entries (process env z value s)
