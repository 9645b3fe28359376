-- ===== src/Engine/Hydration.antt =====
-- crates/engine/src/hydration.rs: loading the content of a document, checking it, and only then handing
-- it over. `Surroundings` has what the calls out of one load answer; SHA-256 is an argument. The scratch
-- file holds what was streamed into it, and nobody else writes to it.
use elasticdms_desktop.Prelude.{
  ℕ, zero, suc, ◌+◌, ◌*◌, min, Bool, true, false, not, ◌||◌, Option, none, some, List, ◌∷◌, ◌==◌,
  if◌then◌else◌, length, take, drop, Result, ok, err,
}
use elasticdms_desktop.Text.{Text, text_eq}

-- `SourceError`
pub data SourceError : Type 0 where
  not_signed_in no_network not_found no_access anchor_expired cancelled : SourceError
  integrity : List ℕ → List ℕ → SourceError
  incomplete : ℕ → ℕ → SourceError
  sink server internal : Text → SourceError

-- `ContentReceipt`
pub record ContentReceipt : Type 0 where
  pub size : ℕ
  pub sha256 : Option (List ℕ)

-- The platform's sink: `write` at an offset, and `cancelled`.
pub record ContentSink (S : Type 0) : Type 0 where
  pub write : ℕ → List ℕ → S → Result Text S
  pub cancelled : S → Bool

-- The sink, with the writes that reached it, the latest first.
pub record Received (S : Type 0) : Type 0 where
  pub state : S
  pub writes : List (ℕ × List ℕ)

-- One call of `load_content`: the bytes that it streamed into the scratch file, the number that it
-- reports or why it failed, and whether the file could be created and flushed.
pub record Load : Type 0 where
  pub created : Bool
  pub delivered : List ℕ
  pub report : Result SourceError ℕ
  pub flushed : Bool

-- What the calls of one run answer: `ensure_for_token`, the load gate, `row_from` with `staging_file`,
-- the loads, `force_refresh`, `File::open`, and each `read_chunk` by its offset: it fails, or it gives at
-- least a byte if there is one, `some n` standing for `n + 1` bytes at most.
pub record Surroundings : Type 0 where
  pub token : Result SourceError Bool
  pub permit : Result SourceError (Unit {0})
  pub prepared : Result SourceError (Unit {0})
  pub first : Load
  pub refreshed : Bool
  pub again : Load
  pub opened : Bool
  pub reads : ℕ → Option ℕ

-- `CHUNK`
abbrev pub chunk : ℕ
chunk = 256 * 1024

-- `matches!(result, Err(SourceError::NotSignedIn))`
abbrev pub rejected_token : {A : Type 0} → Result SourceError A → Bool
rejected_token (err not_signed_in) = true
rejected_token _ = false

module _ (sha256 : List ℕ → List ℕ) (scratch : Text) where
  -- The end of `stream_in_file`
  abbrev pub verified : ℕ → List ℕ → List ℕ → ℕ → Result SourceError (List ℕ)
  verified size expected bytes report =
      if not (report == size) || not (length bytes == size)
      then err (incomplete size (length bytes))
      else if not (text_eq (sha256 bytes) expected)
      then err (integrity expected (sha256 bytes))
      else ok bytes

  abbrev pub reported : ℕ → List ℕ → Load → Result SourceError ℕ → Result SourceError (List ℕ)
  reported size expected load (err e) = err e
  reported size expected load (ok report) =
      if load.flushed then verified size expected load.delivered report else err (internal scratch)

  -- `stream_in_file`: the content of the scratch file, once it is checked
  unfoldable pub stream_in_file : ℕ → List ℕ → Load → Result SourceError (List ℕ)
  stream_in_file size expected load =
      if load.created then reported size expected load load.report else err (internal scratch)

  -- `if matches!(..) && force_refresh(..)`: one second attempt
  abbrev pub second_attempt :
      ℕ → List ℕ → Bool → Load → Result SourceError (List ℕ) → Result SourceError (List ℕ)
  second_attempt size expected refreshed again first =
      if rejected_token first
      then (if refreshed then stream_in_file size expected again else first)
      else first

abbrev pub admitted : Result SourceError Bool → Result SourceError (Unit {0})
admitted (err e) = err e
admitted (ok false) = err not_signed_in
admitted (ok true) = ok tt

module _ (scratch : Text) {S : Type 0} (platform : ContentSink S) (reads : ℕ → Option ℕ) where
  abbrev after_write : ℕ → List ℕ → Received S → Result Text S → Result SourceError (Received S)
  after_write offset bytes r (err t) = err (sink t)
  after_write offset bytes r (ok s) = ok (record { state = s; writes = (offset, bytes) ∷ r.writes })

  -- `read_chunk`: at most the buffer, and nothing only at the end of the file
  abbrev pub read_chunk : Option ℕ → List ℕ → Result SourceError (List ℕ)
  read_chunk none file = err (internal scratch)
  read_chunk (some n) file = ok (take (min (suc n) chunk) file)

  abbrev pub continued {ℓ} :
      {A : Type ℓ}
      → Received S
      → Result SourceError A
      → (A → Result SourceError (Unit {0}) × Received S)
      → Result SourceError (Unit {0}) × Received S
  continued r (err e) next = (err e, r)
  continued r (ok a) next = next a

  -- The loop of `hand_over`, with a round for every byte that is left and one more
  unfoldable pub hand_over_from :
      ℕ → ℕ → List ℕ → Received S → Result SourceError (Unit {0}) × Received S
  hand_over_from zero offset file r = (ok tt, r)
  hand_over_from (suc rounds) offset file r =
      if platform.cancelled r.state
      then (err cancelled, r)
      else continued r (read_chunk (reads offset) file) (λ bytes.
        if length bytes == 0
        then (ok tt, r)
        else continued r (after_write offset bytes r (platform.write offset bytes r.state))
            (λ r'. hand_over_from rounds (offset + length bytes) (drop (length bytes) file) r'))

  -- `hand_over`; `opened` is whether `File::open` succeeds
  unfoldable pub hand_over : Bool → List ℕ → Received S → Result SourceError (Unit {0}) × Received S
  unfolding hand_over_from
  hand_over opened file r =
      if opened then hand_over_from (suc (length file)) 0 file r else (err (internal scratch), r)

abbrev pub receipt :
    {S : Type 0}
    → ℕ
    → List ℕ
    → Result SourceError (Unit {0}) × Received S
    → Result SourceError ContentReceipt × Received S
receipt size expected (err e, r) = (err e, r)
receipt size expected (ok _, r) = (ok (record { size = size; sha256 = some expected }), r)

module _ (sha256 : List ℕ → List ℕ) (scratch : Text) {S : Type 0} (platform : ContentSink S)
    (size : ℕ) (expected : List ℕ) (w : Surroundings) where
  -- The end of `load_and_check`: the `match` on the result, and the hand-over
  abbrev pub handed :
      Result SourceError (List ℕ) → Received S → Result SourceError ContentReceipt × Received S
  handed (err e) r = (err e, r)
  handed (ok file) r = receipt size expected (hand_over scratch platform w.reads w.opened file r)

  abbrev pub streamed :
      Result SourceError (Unit {0}) → Received S → Result SourceError ContentReceipt × Received S
  streamed (err e) r = (err e, r)
  streamed (ok _) r =
      handed
        (second_attempt sha256 scratch size expected w.refreshed w.again
          (stream_in_file sha256 scratch size expected w.first))
        r

  abbrev pub gated :
      Result SourceError (Unit {0}) → Received S → Result SourceError ContentReceipt × Received S
  gated (err e) r = (err e, r)
  gated (ok _) r = if platform.cancelled r.state then (err cancelled, r) else streamed w.prepared r

  abbrev pub loaded :
      Result SourceError (Unit {0}) → Received S → Result SourceError ContentReceipt × Received S
  loaded (err e) r = (err e, r)
  loaded (ok _) r = gated w.permit r

  -- `load_and_check`
  unfoldable pub load_and_check : Received S → Result SourceError ContentReceipt × Received S
  unfolding stream_in_file hand_over
  load_and_check r = loaded (admitted w.token) r
