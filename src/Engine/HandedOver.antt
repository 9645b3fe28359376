-- ===== src/Engine/HandedOver.antt =====
-- crates/engine/src/hydration.rs: what `hand_over` gives to the platform.
use mathlib.Core.Path.{subst}
use elasticdms_desktop.Prelude.{
  ℕ, zero, suc, ◌+◌, ◌<◌, ◌≡◌, inl, inr, refl, sym, ap, ◌∙◌, Bool, List, [], ◌∷◌, ◌++◌,
  append_assoc, ◌==◌, arith, length, take, drop, length-append, length-drop, length-take, Result,
  ok, err, Bool-cases, Option, Option-cases, min, true, false, Result-cases, ==_iff,
}
use elasticdms_desktop.Text.{Text}
use elasticdms_desktop.Engine.Hydration.{
  SourceError, sink, cancelled, ContentSink, Received, internal, chunk, hand_over_from, hand_over,
}

-- The bytes of the writes, the latest first, in the order of their arrival.
abbrev pub content : List (ℕ × List ℕ) → List ℕ
content [] = []
content ((_, bytes) ∷ writes) = content writes ++ bytes

-- Every write begins where the bytes before it end.
abbrev pub IsGapless : List (ℕ × List ℕ) → Type 0
IsGapless [] = Unit
IsGapless ((offset, bytes) ∷ writes) = (offset ≡ length (content writes)) × IsGapless writes

-- What was handed over of a file, behind what was there before.
pub record Handed {S : Type 0} (file : List ℕ) (before : List ℕ)
    (res : Result SourceError (Unit {0})) (r : Received S) : Type 0 where
  pub gapless : IsGapless r.writes
  pub rest : List ℕ
  pub prefix : content r.writes ++ rest ≡ before ++ file
  pub whole : res ≡ ok tt → rest ≡ []

take_nothing : (n : ℕ) (file : List ℕ) → 0 < n → length (take n file) ≡ 0 → file ≡ []
take_nothing zero file h e = absurd (omega arith)
take_nothing (suc n) [] h e = refl
take_nothing (suc n) (b ∷ file) h e = absurd (omega arith)

-- What was read, and what is left of the file.
take_and_rest : (n : ℕ) (file : List ℕ) → take n file ++ drop (length (take n file)) file ≡ file
take_and_rest zero file = refl
take_and_rest (suc n) [] = refl
take_and_rest (suc n) (b ∷ file) = ap (λ t. b ∷ t) (take_and_rest n file)

Handed-none :
    {S : Type 0} (file : List ℕ) (e : SourceError) (r : Received S)
    → IsGapless r.writes
    → Handed file (content r.writes) (err e) r
Handed-none file e r gapless = record {
  gapless = gapless;
  rest = file;
  prefix = refl;
  whole = λ h. absurd (ground arith);
}

-- One chunk, and what comes after it.
Handed-next :
    {S : Type 0} (bytes left file before : List ℕ) (res : Result SourceError (Unit {0}))
    (r : Received S)
    → bytes ++ left ≡ file
    → Handed left (before ++ bytes) res r
    → Handed file before res r
Handed-next bytes left file before res r same h = record {
  gapless = h.gapless;
  rest = h.rest;
  prefix = h.prefix ∙ (append_assoc before bytes left ∙ ap (λ f. before ++ f) same);
  whole = h.whole;
}

module _ {S : Type 0} (scratch : Text) (platform : ContentSink S) (reads : ℕ → Option ℕ) where
  hand_over_from-Handed :
      (rounds offset : ℕ) (file : List ℕ) (r : Received S)
      → length file < rounds
      → offset ≡ length (content r.writes)
      → IsGapless r.writes
      → let (res, r') = hand_over_from scratch platform reads rounds offset file r in
        Handed file (content r.writes) res r'
  unfolding hand_over_from
  hand_over_from-Handed zero offset file r enough at gapless = absurd (omega arith)
  hand_over_from-Handed (suc rounds) offset file r enough at gapless =
      elim (Bool-cases (platform.cancelled r.state)) [
        | inl e ↦ rw e (Handed-none file cancelled r gapless)
        | inr e ↦ elim (Option-cases (reads offset)) [
          | inl fails ↦ rw (e, fails) (Handed-none file (internal scratch) r gapless)
          | inr (n, gives) ↦
              let m = min (suc n) chunk in
              let bytes = take m file in
              elim (Bool-cases (length bytes == 0)) [
                | inl z ↦
                    rw (e, gives, z)
                      (record {
                        gapless = gapless;
                        rest = [];
                        prefix =
                            ap (λ f. content r.writes ++ f)
                              (sym (take_nothing m file (omega arith) ((==_iff _ _).0 z)));
                        whole = λ h. refl;
                      })
                | inr z ↦ elim (Result-cases (platform.write offset bytes r.state)) [
                  | inr (t, u) ↦ rw (e, gives, z, u) (Handed-none file (sink t) r gapless)
                  | inl (s, u) ↦
                      rw (e, gives, z, u)
                        (Handed-next bytes (drop (length bytes) file) file (content r.writes) _ _
                          (take_and_rest m file)
                          (hand_over_from-Handed rounds (offset + length bytes)
                            (drop (length bytes) file)
                            (record { state = s; writes = (offset, bytes) ∷ r.writes })
                            (ground (arith, length-drop (length bytes) file, length-take m file))
                            (omega (arith, length-append (content r.writes) bytes)) (at, gapless)))
                ]
              ]
        ]
      ]

  pub hand_over-Handed :
      (opened : Bool) (file : List ℕ) (r : Received S)
      → r.writes ≡ []
      → let (res, r') = hand_over scratch platform reads opened file r in Handed file [] res r'
  unfolding hand_over
  hand_over-Handed false file r fresh =
      subst (λ t. Handed file t (err (internal scratch)) r) (ap content fresh)
        (Handed-none file (internal scratch) r (rw fresh tt))
  hand_over-Handed true file r fresh =
      let (res, r') = hand_over_from scratch platform reads (suc (length file)) 0 file r in
      subst (λ t. Handed file t res r') (ap content fresh)
        (hand_over_from-Handed (suc (length file)) 0 file r (omega arith) (rw fresh refl)
          (rw fresh tt))
