-- ===== src/Engine/Checked.antt =====
-- crates/engine/src/hydration.rs: what reaches the platform is checked.
use elasticdms_desktop.Prelude.{
  ℕ, ◌≡◌, ◌⊎◌, inl, inr, refl, sym, Bool, List, [], ◌++◌, arith, length, Result, ok, err,
  Bool-cases, Result-cases,
}
use elasticdms_desktop.Text.{Text, text_eq, text_eq→eq}
use elasticdms_desktop.Engine.Hydration.{
  SourceError, cancelled, ContentReceipt, ContentSink, Received, Load, rejected_token, verified,
  stream_in_file, Surroundings, hand_over, receipt, handed, streamed, gated, second_attempt,
  admitted, loaded, load_and_check,
}
use elasticdms_desktop.Engine.HandedOver.{content, IsGapless, Handed, hand_over-Handed}

-- The content has the size and the checksum of the listing.
abbrev IsExpected : (List ℕ → List ℕ) → ℕ → List ℕ → List ℕ → Type 0
IsExpected sha256 size expected file = (length file ≡ size) × (sha256 file ≡ expected)

module _ (sha256 : List ℕ → List ℕ) (scratch : Text) (size : ℕ) (expected : List ℕ) where
  verified-IsExpected :
      (bytes file : List ℕ) (report : ℕ)
      → verified sha256 scratch size expected bytes report ≡ ok file
      → IsExpected sha256 size expected file
  verified-IsExpected bytes file report h = elim (Bool-cases (text_eq (sha256 bytes) expected)) [
    | inl e ↦
        let same = text_eq→eq (sha256 bytes) expected e in
        let one : bytes ≡ file = ground arith in (rw (sym one) (ground arith), rw (sym one) same)
    | inr e ↦ absurd (ground arith)
  ]

  stream_in_file-IsExpected :
      (load : Load) (file : List ℕ)
      → stream_in_file sha256 scratch size expected load ≡ ok file
      → IsExpected sha256 size expected file
  unfolding stream_in_file
  stream_in_file-IsExpected load file h = elim (Bool-cases load.created) [
    | inr e ↦ absurd (ground arith)
    | inl e ↦ elim (Result-cases load.report) [
      | inr (_, u) ↦ absurd (ground arith)
      | inl (report, u) ↦ elim (Bool-cases load.flushed) [
        | inr n ↦ absurd (ground arith)
        | inl n ↦ verified-IsExpected load.delivered file report (rw (e, u, n) at h)
      ]
    ]
  ]

  second_attempt-IsExpected :
      (refreshed : Bool) (first again : Load) (file : List ℕ)
      → second_attempt sha256 scratch size expected refreshed again
          (stream_in_file sha256 scratch size expected first)
        ≡ ok file
      → IsExpected sha256 size expected file
  second_attempt-IsExpected refreshed first again file h =
      elim (Bool-cases (rejected_token (stream_in_file sha256 scratch size expected first))) [
        | inr e ↦ stream_in_file-IsExpected first file (rw e at h)
        | inl e ↦ elim (Bool-cases refreshed) [
          | inl n ↦ stream_in_file-IsExpected again file (rw (e, n) at h)
          | inr n ↦ stream_in_file-IsExpected first file (rw (e, n) at h)
        ]
      ]

-- Nothing has reached the platform, and the load has failed; or what has is the beginning of a file
-- of the expected size and checksum, without a gap, and all of it if the load has succeeded.
abbrev pub IsChecked :
    {S : Type 0}
    → (List ℕ → List ℕ)
    → ℕ
    → List ℕ
    → Result SourceError ContentReceipt × Received S
    → Type 0
IsChecked sha256 size expected (res, r) =
    ((r.writes ≡ []) × (e : SourceError) × (res ≡ err e))
    ⊎ ((file : List ℕ) × (rest : List ℕ) × IsExpected sha256 size expected file
        × IsGapless r.writes
        × (content r.writes ++ rest ≡ file)
        × ((rest ≡ []) ⊎ ((e : SourceError) × (res ≡ err e))))

module _ {S : Type 0} (sha256 : List ℕ → List ℕ) (scratch : Text) (platform : ContentSink S)
    (size : ℕ) (expected : List ℕ) (w : Surroundings) where
  receipt-IsChecked :
      (file : List ℕ) (out : Result SourceError (Unit {0}) × Received S)
      → IsExpected sha256 size expected file
      → Handed file [] out.0 out.1
      → IsChecked sha256 size expected (receipt size expected out)
  receipt-IsChecked file (err e, r) right h =
      inr (file, h.rest, right, h.gapless, h.prefix, inr (e, refl))
  receipt-IsChecked file (ok tt, r) right h =
      inr (file, h.rest, right, h.gapless, h.prefix, inl (h.whole refl))

  handed-IsChecked :
      (result : Result SourceError (List ℕ)) (r : Received S)
      → r.writes ≡ []
      → ((file : List ℕ) → result ≡ ok file → IsExpected sha256 size expected file)
      → IsChecked sha256 size expected (handed sha256 scratch platform size expected w result r)
  handed-IsChecked (err e) r fresh right = inl (fresh, e, refl)
  handed-IsChecked (ok file) r fresh right =
      receipt-IsChecked file (hand_over scratch platform w.reads w.opened file r) (right file refl)
        (hand_over-Handed scratch platform w.reads w.opened file r fresh)

  streamed-IsChecked :
      (prepared : Result SourceError (Unit {0})) (r : Received S)
      → r.writes ≡ []
      → IsChecked sha256 size expected (streamed sha256 scratch platform size expected w prepared r)
  streamed-IsChecked (err e) r fresh = inl (fresh, e, refl)
  streamed-IsChecked (ok _) r fresh = handed-IsChecked _ r fresh (λ file h.
      second_attempt-IsExpected sha256 scratch size expected w.refreshed w.first w.again file h)

  gated-IsChecked :
      (permit : Result SourceError (Unit {0})) (r : Received S)
      → r.writes ≡ []
      → IsChecked sha256 size expected (gated sha256 scratch platform size expected w permit r)
  gated-IsChecked (err e) r fresh = inl (fresh, e, refl)
  gated-IsChecked (ok _) r fresh = elim (Bool-cases (platform.cancelled r.state)) [
    | inl e ↦ rw e (inl (fresh, cancelled, refl))
    | inr e ↦ rw e (streamed-IsChecked w.prepared r fresh)
  ]

  loaded-IsChecked :
      (admission : Result SourceError (Unit {0})) (r : Received S)
      → r.writes ≡ []
      → IsChecked sha256 size expected (loaded sha256 scratch platform size expected w admission r)
  loaded-IsChecked (err e) r fresh = inl (fresh, e, refl)
  loaded-IsChecked (ok _) r fresh = gated-IsChecked w.permit r fresh

  -- Whatever the calls answer, from a sink that nothing was written to: nothing reaches it and the
  -- load fails, or what reaches it is the beginning of a content of the expected size and
  -- checksum, in order and without a gap, and all of it unless the load fails.
  pub load_and_check-IsChecked :
      (r : Received S)
      → r.writes ≡ []
      → IsChecked sha256 size expected (load_and_check sha256 scratch platform size expected w r)
  unfolding load_and_check
  load_and_check-IsChecked r fresh = loaded-IsChecked (admitted w.token) r fresh
