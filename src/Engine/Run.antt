-- ===== src/Engine/Run.antt =====
-- crates/engine/src/delivery.rs: `run_from` on the world that `process` leaves to it. What the other
-- three commands do is an argument.
use elasticdms_desktop.Prelude.{
  ℕ, ◌≡◌, ◌≢◌, ◌⊎◌, inl, inr, refl, ap, sym, ◌∙◌, Bool, none, List, [], ◌∷◌, arith, length,
}
use elasticdms_desktop.Prelude.Int.{ℤ}
use elasticdms_desktop.Text.{Text}
use elasticdms_desktop.Delivery.{Command, erasure, failed}
use elasticdms_desktop.Wire.Envelope.{Json, Acknowledgement, acknowledgement}
use elasticdms_desktop.Store.Contents.{Contents}
use elasticdms_desktop.Engine.Process.{
  Environment, Circumstances, Channel, complete, process, with_table,
}
use elasticdms_desktop.Engine.Effects.{runs, sents, complete_cases, acknowledge-Sends}
use elasticdms_desktop.Engine.Processed.{
  Processed, idle, warns, refuses, repeats, keeps, decides, process-Processed,
}
use elasticdms_desktop.Engine.Settled.{runs-complete}
use elasticdms_desktop.Engine.Platform.{FileSystem, Answers, Desk}
use elasticdms_desktop.Engine.Dehydrate.{dehydrate}
use elasticdms_desktop.Engine.Quiet.{IsErased}
use elasticdms_desktop.Engine.Erased.{IsAmong, dehydrate-IsErased}

-- The platform, whether it has registered, the store, the clock, the length of the journal, how the
-- database answers for each document, and the sentence of the catalogue.
pub record World (F : Type 0) : Type 0 where
  pub platform : F
  pub mounted : Bool
  pub contents : Contents
  pub now : ℤ
  pub limit : ℕ
  pub answers : ℕ → Answers
  pub sentence : Text

abbrev with_answers : (ℕ → Answers) → List ℕ → List (Answers × ℕ)
with_answers answers [] = []
with_answers answers (d ∷ documents) = (answers d, d) ∷ with_answers answers documents

module _ {F : Type 0} (fs : FileSystem F)
    (others : Command → World F → Acknowledgement × World F) where
  -- `Command::Dehydrate` of `run_from`
  abbrev left_behind : World F → Acknowledgement × Desk F → Acknowledgement × World F
  left_behind w (a, desk) = (a, record w { platform = desk.platform; contents = desk.contents })

  -- `run_from`
  unfoldable pub run_from : Command → World F → Acknowledgement × World F
  run_from (Command.dehydrate documents reason) w = left_behind w (
      dehydrate fs w.mounted w.now w.limit w.sentence reason (with_answers w.answers documents)
        w.platform w.contents)
  run_from c w = others c w

-- The document is one of the list.
abbrev IsIn : ℕ → List ℕ → Type 0
IsIn b [] = ⊥
IsIn b (d ∷ documents) = (d ≡ b) ⊎ IsIn b documents

IsIn-IsAmong :
    (answers : ℕ → Answers) (b : ℕ) (documents : List ℕ)
    → IsIn b documents
    → IsAmong b (with_answers answers documents)
IsIn-IsAmong answers b [] h = h
IsIn-IsAmong answers b (d ∷ documents) (inl same) = inl same
IsIn-IsAmong answers b (d ∷ documents) (inr h) = inr (IsIn-IsAmong answers b documents h)

run_from-IsErased :
    {F : Type 0} (fs : FileSystem F) (others : Command → World F → Acknowledgement × World F)
    (documents : List ℕ) (w w' : World F) (a : Acknowledgement) (b : ℕ)
    → IsIn b documents
    → run_from fs others (Command.dehydrate documents erasure) w ≡ (a, w')
    → a.outcome ≢ failed
    → IsErased b w'.contents
unfolding run_from
run_from-IsErased {F = F} fs others documents w w' a b among run done =
    let r =
      dehydrate fs w.mounted w.now w.limit w.sentence erasure (with_answers w.answers documents)
        w.platform w.contents in
    let same : r.0.outcome ≡ a.outcome = ap (λ p. p.0.outcome) run in
    rw⁻¹ (ap (λ p. p.1.contents) run) (
      dehydrate-IsErased fs w.mounted w.now w.limit w.sentence (with_answers w.answers documents)
        w.platform w.contents b (IsIn-IsAmong w.answers b documents among)
        (λ h. done (sym same ∙ h)))

cons_ne {ℓ} : {A : Type ℓ} (x : A) (xs : List A) → x ∷ xs ≢ xs
cons_ne x xs h = omega (arith, ap length h)

module _ {W KeySet : Type 0} (z : Circumstances KeySet) (c : ℕ) (a : Acknowledgement)
    (s : Channel W) where
  complete_world : (complete z c a s).world ≡ s.world
  complete_world = elim (complete_cases z c a s) [
    | inl same ↦ rw same refl
    | inr completed ↦ completed.same_world
  ]

  -- What a completion sends is its own acknowledgement.
  complete-sents :
      (i : ℕ) (b : Acknowledgement)
      → sents (complete z c a s).deeds ≡ (i, b) ∷ sents s.deeds
      → a ≡ b
  complete-sents i b h = elim (complete_cases z c a s) [
    | inl same ↦ absurd (cons_ne (i, b) (sents s.deeds) (sym (rw same at h)))
    | inr completed ↦ elim completed.at_most_one [
      | inl none_sent ↦ absurd (cons_ne (i, b) (sents s.deeds) (sym h ∙ none_sent))
      | inr one_sent ↦
          let q : (c, a) ∷ sents s.deeds ≡ (i, b) ∷ sents s.deeds = sym one_sent ∙ h in ground arith
    ]
  ]

module _ {F KeySet : Type 0} (fs : FileSystem F)
    (others : Command → World F → Acknowledgement × World F) (env : Environment (World F) KeySet)
    (at : env.run_from ≡ run_from fs others) (z : Circumstances KeySet) (value : Json)
    (s : Channel (World F)) where
  Processed-IsErased :
      (s' : Channel (World F)) (i c : ℕ) (documents : List ℕ) (a : Acknowledgement) (b : ℕ)
      → Processed env z value s s'
      → runs s'.deeds ≡ (i, Command.dehydrate documents erasure) ∷ runs s.deeds
      → sents s'.deeds ≡ (c, a) ∷ sents s.deeds
      → a.outcome ≢ failed
      → IsIn b documents
      → IsErased b s'.world.contents
  Processed-IsErased s' i c documents a b (idle e u h) ran sent done among =
      absurd (cons_ne _ _ (sym ran))
  Processed-IsErased s' i c documents a b (warns e h) ran sent done among =
      absurd (cons_ne _ _ (sym ran))
  Processed-IsErased s' i c documents a b (refuses e k a' read u o) ran sent done among =
      absurd (cons_ne _ _ (sym ran ∙ runs-complete z k a' s))
  Processed-IsErased s' i c documents a b (repeats e o t read h) ran sent done among = absurd (
      cons_ne _ _ (
        sym ran
        ∙ (acknowledge-Sends z e.command_id (acknowledgement o none) (with_table s t)).same_runs))
  Processed-IsErased s' i c documents a b (keeps e o t read h) ran sent done among =
      absurd (cons_ne _ _ (sym ran))
  Processed-IsErased s' i c documents a b
        (decides e acceptance a' s'' read h fresh quiet (inl same)) ran sent done among =
      absurd (cons_ne _ _ (sym ran ∙ (runs-complete z e.command_id a' s'' ∙ same)))
  Processed-IsErased s' i c documents a b
        (decides e acceptance a' s'' read h fresh quiet (inr (k, authorized, now, world))) ran sent
        done among =
      let one : a' ≡ a =
        complete-sents z e.command_id a' s'' c a (sent ∙ ap (λ l. (c, a) ∷ l) (sym quiet)) in
      let ran' : (e.command_id, k) ∷ runs s.deeds
          ≡ (i, Command.dehydrate documents erasure) ∷ runs s.deeds =
        sym (runs-complete z e.command_id a' s'' ∙ now) ∙ ran in
      let command : k ≡ Command.dehydrate documents erasure = ground arith in
      let run : run_from fs others (Command.dehydrate documents erasure) s.world ≡ (a', s''.world) =
        rw (command, at) at world in
      rw (complete_world z e.command_id a' s'')
        (run_from-IsErased fs others documents s.world s''.world a' b among run (rw one done))

  -- Where the world of `process` is that of `run_from`: if an entry of a page makes it run an
  -- erasure, and an acknowledgement other than FAILED goes out for it, then for each document of
  -- the command no place is left in the store and no row of the usage log names it, whatever the
  -- platform answered.
  pub process-IsErased :
      (i c : ℕ) (documents : List ℕ) (a : Acknowledgement) (b : ℕ)
      → runs (process env z value s).deeds ≡ (i, Command.dehydrate documents erasure) ∷ runs s.deeds
      → sents (process env z value s).deeds ≡ (c, a) ∷ sents s.deeds
      → a.outcome ≢ failed
      → IsIn b documents
      → IsErased b (process env z value s).world.contents
  process-IsErased i c documents a b =
      Processed-IsErased (process env z value s) i c documents a b (process-Processed env z value s)
