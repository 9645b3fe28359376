-- ===== src/WorkerPool/Drained.antt =====
-- crates/cfapi/src/worker_pool.rs: the jobs of a pool whose threads have left.
use elasticdms_desktop.Prelude.{
  ℕ, ◌-◌, ◌<◌, ◌≡◌, refl, sym, ap, ◌∙◌, false, List, [], ◌∷◌, ◌++◌, append-nil, ltb, length,
  length-append, arith, inl, inr,
}
use elasticdms_desktop.WorkerPool.{
  Group, thread_gone, take_job, give_back, set_end, World, fresh, Step, given_starts, given_wakes,
  started, takes, finishes, leave, ends, Reached, reached_fresh, reached_step, Served, served_fresh,
  served_step,
}
use elasticdms_desktop.WorkerPool.Invariant.{
  IsSound, give-eq-starts, give-eq-wakes, Reached-IsSound,
}

module _ {ℓ} {J : Type ℓ} where
  -- What `Served` promises is also `Reached`.
  served→reached : {max : ℕ} {w : World J} → Served max w → Reached max w
  served→reached served_fresh = reached_fresh
  served→reached (served_step s t) = reached_step (served→reached s) t

  none_left : (xs : List J) → length xs ≡ 0 → xs ≡ []
  none_left [] h = refl
  none_left (x ∷ xs) h = absurd (omega arith)

  -- A waiting job has a thread: the state in which it has none does not occur.
  step_attended :
      (max : ℕ) {v w : World J}
      → 0 < max
      → Step max v w
      → IsSound max v
      → (v.group.threads ≡ 0 → length v.group.jobs ≡ 0)
      → w.group.threads ≡ 0
      → length w.group.jobs ≡ 0
  unfolding take_job give_back thread_gone set_end
  step_attended max m (given_starts w job z h) i a e =
      let shape = give-eq-starts max job w.group z h in
      absurd (omega (arith, e, ap (λ (g : Group J). g.threads) shape.0))
  step_attended max m (given_wakes w job z h) i a e =
      let shape = give-eq-wakes max job w.group z h in
      let empty = ap (λ (g : Group J). g.threads) shape.0 in
      absurd (elim shape.1 [
        | inl many ↦
            crowded (w.group.threads) w.group.busy (length (w.group.jobs ++ job ∷ [])) many
              (omega (arith, length-append w.group.jobs (job ∷ []))) (omega arith)
        | inr room ↦ full w.group.threads room (omega arith)
      ])
    where
      crowded : (threads busy n : ℕ) → ltb (threads - busy) n ≡ false → 0 < n → threads ≡ 0 → ⊥
      crowded threads busy n h l e = ground arith

      full : (threads : ℕ) → ltb threads max ≡ false → threads ≡ 0 → ⊥
      full threads h e = ground arith
  step_attended max m (started w n h) i a e = a e
  step_attended max m (takes w job rest n h k) i a e =
      absurd (omega (arith, k, e, i.threads_counted))
  step_attended max m (finishes w n h) i a e = a e
  step_attended max m (leave w n h k) i a e = ap (λ (l : List J). length l) h
  step_attended max m (ends w b) i a e = a e

  Served-attended :
      {max : ℕ} {w : World J}
      → 0 < max
      → Served max w
      → w.group.threads ≡ 0
      → length w.group.jobs ≡ 0
  unfolding fresh
  Served-attended m served_fresh e = refl
  Served-attended m (served_step s t) e =
      step_attended _ m t (Reached-IsSound _ (served→reached s)) (Served-attended m s) e

-- With an upper bound above zero, and while the system gives every thread, a pool that has no
-- threads left has begun exactly the jobs that it took in, in their order, and finished every one
-- of them.
pub Served-drained {ℓ} :
    {J : Type ℓ} (max : ℕ) {w : World J}
    → 0 < max
    → Served max w
    → w.group.threads ≡ 0
    → (w.begun ≡ w.given) × (w.finished ≡ w.group.accepted)
Served-drained max {w} m s e =
    let i = Reached-IsSound max (served→reached s) in
    let queue = none_left w.group.jobs (Served-attended m s e) in
    (
      sym (i.in_order ∙ ap (λ l. w.begun ++ l) queue ∙ append-nil w.begun),
      omega (
        arith,
        i.begun_counted,
        i.accepted_counted,
        i.threads_counted,
        e,
        ap length (i.in_order ∙ ap (λ l. w.begun ++ l) queue ∙ append-nil w.begun),
      ),
    )
