-- ===== src/Engine/RateLimit.antt =====
-- crates/engine/src/delivery.rs: the rate limit of the delivery channel. Times are milliseconds since
-- 1970, the double-ended queue is the list of its elements.
use elasticdms_desktop.Prelude.{
  ℕ, ◌+◌, ◌-◌, ◌≤◌, ◌<◌, ◌≡◌, refl, inl, inr, Bool, true, false, ◌&&◌, List, [], ◌∷◌, ◌++◌, arith,
  ltb, leb, if◌then◌else◌, length, All, length-append, Bool-cases, ltb→lt,
}

-- `RATE_WINDOW` in milliseconds, and `MAX_COMMANDS_PER_MINUTE` of crates/core/src/delivery.rs
abbrev rate_window : ℕ
rate_window = 60000

abbrev pub max_commands_per_minute : ℕ
max_commands_per_minute = 30

-- `(now_millis - time).abs() < window`
abbrev in_window : ℕ → ℕ → Bool
in_window now time = ltb ((now - time) + (time - now)) rate_window

-- `VecDeque::retain`
unfoldable pub retain : ℕ → List ℕ → List ℕ
retain now [] = []
retain now (time ∷ applied) =
    let rest = retain now applied in if in_window now time then time ∷ rest else rest

-- `RateLimit::take`, with the queue that it leaves
unfoldable pub take : ℕ → List ℕ → Bool × List ℕ
unfolding retain
take now applied =
    let kept = retain now applied in
    if leb max_commands_per_minute (length kept) then (false, kept) else (true, kept ++ now ∷ [])

-- The times at which a place was taken, of the times at which it was asked for.
abbrev pub place : Bool → ℕ → List ℕ → List ℕ
place taken now rest = if taken then now ∷ rest else rest

unfoldable pub granted : List ℕ → List ℕ → List ℕ
unfolding take
granted applied [] = []
granted applied (now ∷ later) =
    let rest = granted (take now applied).1 later in place (take now applied).0 now rest

-- How many of the times lie in the window that begins at `start`.
unfoldable pub count_from : ℕ → List ℕ → ℕ
count_from start [] = 0
count_from start (time ∷ times) =
    let rest = count_from start times in
    if leb start time && ltb time (start + rate_window) then 1 + rest else rest

-- A clock that does not run backwards.
abbrev pub IsSorted : ℕ → List ℕ → Type 0
IsSorted past [] = Unit
IsSorted past (now ∷ later) = (past ≤ now) × IsSorted now later

count_from-append :
    (start : ℕ) (xs : List ℕ) (y : ℕ)
    → count_from start (xs ++ y ∷ []) ≡ count_from start (y ∷ []) + count_from start xs
unfolding count_from
count_from-append start [] y = ground arith
count_from-append start (x ∷ xs) y = ground (arith, count_from-append start xs y)

count_from-le-length : (start : ℕ) (xs : List ℕ) → count_from start xs ≤ length xs
unfolding count_from
count_from-le-length start [] = omega arith
count_from-le-length start (x ∷ xs) = ground (arith, count_from-le-length start xs)

length-retain : (now : ℕ) (xs : List ℕ) → length (retain now xs) ≤ length xs
unfolding retain
length-retain now [] = omega arith
length-retain now (x ∷ xs) = ground (arith, length-retain now xs)

-- While the window is open, none of its times falls out of the queue.
count_from-retain :
    (start now : ℕ) (xs : List ℕ)
    → now < start + rate_window
    → All (λ x. x ≤ now) xs
    → count_from start (retain now xs) ≡ count_from start xs
unfolding count_from retain
count_from-retain start now [] h older = refl
count_from-retain start now (x ∷ xs) h older =
    ground (arith, count_from-retain start now xs h older.1)

retain-All :
    (now bound : ℕ) (xs : List ℕ) → All (λ x. x ≤ bound) xs → All (λ x. x ≤ bound) (retain now xs)
unfolding retain
retain-All now bound [] h = tt
retain-All now bound (x ∷ xs) h = ground (arith, retain-All now bound xs h.1)

-- What is granted once the window is over does not count.
granted_later :
    (start past : ℕ) (applied times : List ℕ)
    → start + rate_window ≤ past
    → IsSorted past times
    → count_from start (granted applied times) ≡ 0
unfolding granted count_from
granted_later start past applied [] h sorted = refl
granted_later start past applied (now ∷ later) h sorted =
    ground (arith, granted_later start now (take now applied).1 later)

All-le_trans : (a b : ℕ) (xs : List ℕ) → a ≤ b → All (λ x. x ≤ a) xs → All (λ x. x ≤ b) xs
All-le_trans a b [] h older = tt
All-le_trans a b (x ∷ xs) h older = ground (arith, All-le_trans a b xs h older.1)

All-append_last : (b : ℕ) (xs : List ℕ) → All (λ x. x ≤ b) xs → All (λ x. x ≤ b) (xs ++ b ∷ [])
All-append_last b [] h = (omega arith, tt)
All-append_last b (x ∷ xs) h = (h.0, All-append_last b xs h.1)

-- The queue and what is granted from now on, within one window.
window_bound :
    (start past : ℕ) (applied times : List ℕ)
    → length applied ≤ max_commands_per_minute
    → All (λ x. x ≤ past) applied
    → IsSorted past times
    → count_from start applied + count_from start (granted applied times) ≤ max_commands_per_minute
unfolding granted count_from take
window_bound start past applied [] few older sorted =
    omega (arith, count_from-le-length start applied)
window_bound start past applied (now ∷ later) few older sorted =
    elim (Bool-cases (ltb now (start + rate_window))) [
      | inl during ↦
          let kept = retain now applied in
          let shorter = length-retain now applied in
          let before = All-le_trans past now applied sorted.0 older in
          let kept_before = retain-All now now applied before in
          let same =
            count_from-retain start now applied (ltb→lt now (start + rate_window) during) before in
          elim (Bool-cases (leb max_commands_per_minute (length kept))) [
            | inl full ↦
                let rest = window_bound start now kept later (omega arith) kept_before sorted.1 in
                ground (arith, same, rest)
            | inr free ↦
                let rest =
                  window_bound start now (kept ++ now ∷ []) later
                    (ground (arith, length-append kept (now ∷ [])))
                    (All-append_last now kept kept_before) sorted.1 in
                ground (arith, same, rest, count_from-append start kept now)
          ]
      | inr over ↦ omega (
        arith,
        count_from-le-length start applied,
        granted_later start now applied (now ∷ later) (ground arith) (omega arith, sorted.1),
      )
    ]

-- While the clock does not run backwards, at most thirty places are taken in every minute,
-- wherever it begins, however often and when a place is asked for.
pub granted_bound :
    (start : ℕ) (times : List ℕ)
    → IsSorted 0 times
    → count_from start (granted [] times) ≤ max_commands_per_minute
unfolding count_from
granted_bound start times sorted =
    omega (arith, window_bound start 0 [] times (omega arith) tt sorted)
