-- ===== src/WorkerPool/Invariant.antt =====
-- crates/cfapi/src/worker_pool.rs: the counters of the pool, its threads and its jobs.
use elasticdms_desktop.Prelude.{
  ℕ, ◌+◌, ◌-◌, ◌≤◌, ◌≡◌, refl, sym, ap, ◌∙◌, Bool, true, false, ◌&&◌, List, [], ◌∷◌, ◌++◌,
  append_assoc, ltb, ltb→lt, if◌then◌else◌, length, length-append, arith, inl, inr, ◌⊎◌,
}
use elasticdms_desktop.WorkerPool.{
  Group, Given, refused, starts, wakes, give, thread_gone, take_job, give_back, set_end, World,
  fresh, Step, given_starts, given_wakes, started, takes, finishes, leave, ends, Failure, no_thread,
  Reached, reached_fresh, reached_step, reached_failure,
}

-- Every booked thread is about to start, waits, or runs a job; `busy` counts those that run one;
-- the bound on threads holds; jobs are begun in the order in which they were taken in, and none
-- is lost or begun twice.
pub record IsSound {ℓ} {J : Type ℓ} (max : ℕ) (w : World J) : Type ℓ where
  pub threads_counted : w.group.threads ≡ w.starting + w.waiting + w.running
  pub busy_counted : w.group.busy ≡ w.running
  pub bounded : w.group.threads ≤ max
  pub accepted_counted : w.group.accepted ≡ length w.given
  pub begun_counted : length w.begun ≡ w.running + w.finished
  pub in_order : w.given ≡ w.begun ++ w.group.jobs

module _ {ℓ} {J : Type ℓ} where
  choose : Bool → Bool → Bool → Group J → Group J → Given J
  choose end many room s w = if end then refused else if many && room then starts s else wakes w

  choose-eq-starts :
      (end many room : Bool) (s w z : Group J)
      → choose end many room s w ≡ starts z
      → (z ≡ s) × (room ≡ true)
  unfolding choose
  choose-eq-starts true many room s w z h = absurd cc
  choose-eq-starts false true true s w z h = (cc, refl)
  choose-eq-starts false true false s w z h = absurd cc
  choose-eq-starts false false room s w z h = absurd cc

  choose-eq-wakes :
      (end many room : Bool) (s w z : Group J)
      → choose end many room s w ≡ wakes z
      → (z ≡ w) × ((many ≡ false) ⊎ (room ≡ false))
  unfolding choose
  choose-eq-wakes true many room s w z h = absurd cc
  choose-eq-wakes false true true s w z h = absurd cc
  choose-eq-wakes false true false s w z h = (cc, inr refl)
  choose-eq-wakes false false room s w z h = (cc, inl refl)

  abbrev with_job : Group J → J → ℕ → Group J
  with_job g job threads = record {
    jobs = g.jobs ++ job ∷ [];
    threads = threads;
    busy = g.busy;
    end = g.end;
    accepted = g.accepted + 1;
  }

  -- The two ways in which `give` takes a job.
  pub give-eq-starts :
      (max : ℕ) (job : J) (g z : Group J)
      → give max job g ≡ starts z
      → (z ≡ with_job g job (g.threads + 1)) × (ltb g.threads max ≡ true)
  unfolding give choose
  give-eq-starts max job g z h =
      choose-eq-starts g.end (ltb (g.threads - g.busy) (length (g.jobs ++ job ∷ [])))
        (ltb g.threads max) (with_job g job (g.threads + 1)) (with_job g job g.threads) z h

  pub give-eq-wakes :
      (max : ℕ) (job : J) (g z : Group J)
      → give max job g ≡ wakes z
      → (z ≡ with_job g job g.threads)
        × ((ltb (g.threads - g.busy) (length (g.jobs ++ job ∷ [])) ≡ false)
            ⊎ (ltb g.threads max ≡ false))
  unfolding give choose
  give-eq-wakes max job g z h =
      choose-eq-wakes g.end (ltb (g.threads - g.busy) (length (g.jobs ++ job ∷ [])))
        (ltb g.threads max) (with_job g job (g.threads + 1)) (with_job g job g.threads) z h

  length_snoc : (xs : List J) (x : J) → length (xs ++ x ∷ []) ≡ length xs + 1
  length_snoc xs x = length-append xs (x ∷ [])

  fresh-IsSound : (max : ℕ) → IsSound max (fresh {J = J})
  unfolding fresh
  fresh-IsSound max = record {
    threads_counted = refl;
    busy_counted = refl;
    bounded = omega arith;
    accepted_counted = refl;
    begun_counted = refl;
    in_order = refl;
  }

  -- A job more, and perhaps a booked thread.
  with_job-IsSound :
      (max : ℕ) (w : World J) (job : J) (threads starting : ℕ)
      → threads ≡ starting + w.waiting + w.running
      → threads ≤ max
      → IsSound max w
      → IsSound max (record {
        group = with_job w.group job threads;
        starting = starting;
        waiting = w.waiting;
        running = w.running;
        given = w.given ++ job ∷ [];
        begun = w.begun;
        finished = w.finished;
      })
  with_job-IsSound max w job threads starting count below i = record {
    threads_counted = count;
    busy_counted = i.busy_counted;
    bounded = below;
    accepted_counted = omega (arith, i.accepted_counted, length_snoc w.given job);
    begun_counted = i.begun_counted;
    in_order =
        ap (λ (l : List J). l ++ job ∷ []) i.in_order
        ∙ append_assoc w.begun w.group.jobs (job ∷ []);
  }

  step-IsSound : (max : ℕ) {v w : World J} → Step max v w → IsSound max v → IsSound max w
  unfolding take_job give_back thread_gone set_end
  step-IsSound max (given_starts w job z h) i =
      let shape = give-eq-starts max job w.group z h in
      rw shape.0 (
        with_job-IsSound max w job (w.group.threads + 1) (w.starting + 1)
          (omega (arith, i.threads_counted)) (omega (arith, ltb→lt w.group.threads max shape.1)) i)
  step-IsSound max (given_wakes w job z h) i =
      let shape = give-eq-wakes max job w.group z h in
      rw shape.0
        (with_job-IsSound max w job w.group.threads w.starting i.threads_counted i.bounded i)
  step-IsSound max (started w n h) i = record {
    threads_counted = omega (arith, h, i.threads_counted);
    busy_counted = i.busy_counted;
    bounded = i.bounded;
    accepted_counted = i.accepted_counted;
    begun_counted = i.begun_counted;
    in_order = i.in_order;
  }
  step-IsSound max (takes w job rest n h k) i = record {
    threads_counted = omega (arith, k, i.threads_counted);
    busy_counted = omega (arith, i.busy_counted);
    bounded = i.bounded;
    accepted_counted = i.accepted_counted;
    begun_counted = omega (arith, i.begun_counted, length_snoc w.begun job);
    in_order =
        i.in_order
        ∙ ap (λ (l : List J). w.begun ++ l) h
        ∙ sym (append_assoc w.begun (job ∷ []) rest);
  }
  step-IsSound max (finishes w n h) i = record {
    threads_counted = omega (arith, h, i.threads_counted);
    busy_counted = omega (arith, h, i.busy_counted);
    bounded = i.bounded;
    accepted_counted = i.accepted_counted;
    begun_counted = omega (arith, h, i.begun_counted);
    in_order = i.in_order;
  }
  step-IsSound max (leave w n h k) i = record {
    threads_counted = omega (arith, k, i.threads_counted);
    busy_counted = i.busy_counted;
    bounded = omega (arith, i.bounded);
    accepted_counted = i.accepted_counted;
    begun_counted = i.begun_counted;
    in_order = i.in_order;
  }
  step-IsSound max (ends w b) i = record {
    threads_counted = i.threads_counted;
    busy_counted = i.busy_counted;
    bounded = i.bounded;
    accepted_counted = i.accepted_counted;
    begun_counted = i.begun_counted;
    in_order = i.in_order;
  }

  Failure-IsSound : (max : ℕ) {v w : World J} → Failure v w → IsSound max v → IsSound max w
  unfolding thread_gone
  Failure-IsSound max (no_thread w n h) i = record {
    threads_counted = omega (arith, h, i.threads_counted);
    busy_counted = i.busy_counted;
    bounded = omega (arith, i.bounded);
    accepted_counted = i.accepted_counted;
    begun_counted = i.begun_counted;
    in_order = i.in_order;
  }

-- In every state that the pool comes into, whether or not the system gives threads: `threads` and
-- `busy` agree with the threads that exist and that run a job, at most `max` threads are booked,
-- the counter of accepted jobs is right, and the begun jobs followed by the queue are the jobs
-- that were taken in, in their order.
pub Reached-IsSound {ℓ} : {J : Type ℓ} (max : ℕ) {w : World J} → Reached max w → IsSound max w
Reached-IsSound max reached_fresh = fresh-IsSound max
Reached-IsSound max (reached_step r s) = step-IsSound max s (Reached-IsSound max r)
Reached-IsSound max (reached_failure r f) = Failure-IsSound max f (Reached-IsSound max r)
