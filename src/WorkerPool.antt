-- ===== src/WorkerPool.antt =====
-- crates/cfapi/src/worker_pool.rs: the growing pool of threads that answers callbacks. A step is one
-- critical section under the lock of `Inner::state`; what happens in between (the job itself, waiting
-- on the condition variable) touches no state. A job is an element of any type.
pub mod Invariant
pub mod Drained
use elasticdms_desktop.Prelude.{
  ℕ, zero, suc, ◌+◌, ◌-◌, ◌≤◌, ◌<◌, ◌≡◌, Bool, true, false, not, ◌&&◌, List, [], ◌∷◌, ◌++◌, ltb,
  if◌then◌else◌, length,
}

-- `State`, and the counter `Inner::accepted` beside it
pub record Group {ℓ} (J : Type ℓ) : Type ℓ where
  pub jobs : List J
  pub threads : ℕ
  pub busy : ℕ
  pub end : Bool
  pub accepted : ℕ

-- `WorkGroup::new`: the upper bound is at least one
unfoldable pub upper_bound : ℕ → ℕ
upper_bound max = if ltb max 1 then 1 else max

-- What `give` does after it has let go of the lock: nothing, start a thread, or wake one.
pub data Given {ℓ} (J : Type ℓ) : Type ℓ where
  refused : Given J
  starts : Group J → Given J
  wakes : Group J → Given J

-- `WorkGroup::give`
unfoldable pub give {ℓ} : {J : Type ℓ} → ℕ → J → Group J → Given J
give max job z =
    if z.end
    then refused
    else (let jobs = z.jobs ++ job ∷ [] in
        let free = z.threads - z.busy in
        if ltb free (length jobs) && ltb z.threads max
        then starts (record {
          jobs = jobs;
          threads = z.threads + 1;
          busy = z.busy;
          end = z.end;
          accepted = z.accepted + 1;
        })
        else wakes (record {
          jobs = jobs;
          threads = z.threads;
          busy = z.busy;
          end = z.end;
          accepted = z.accepted + 1;
        }))

-- `create_thread`, where no thread is to be had; and a thread of `work` that leaves
unfoldable pub thread_gone {ℓ} : {J : Type ℓ} → Group J → Group J
thread_gone z = record {
  jobs = z.jobs;
  threads = z.threads - 1;
  busy = z.busy;
  end = z.end;
  accepted = z.accepted;
}

-- `work` takes the job at the front
unfoldable pub take_job {ℓ} : {J : Type ℓ} → Group J → List J → Group J
take_job z rest = record {
  jobs = rest;
  threads = z.threads;
  busy = z.busy + 1;
  end = z.end;
  accepted = z.accepted;
}

-- `Sentry::drop`, after the job has returned or panicked
unfoldable pub give_back {ℓ} : {J : Type ℓ} → Group J → Group J
give_back z = record {
  jobs = z.jobs;
  threads = z.threads;
  busy = z.busy - 1;
  end = z.end;
  accepted = z.accepted;
}

-- The flag of `stop` (`true`) and of `accept_again` (`false`)
unfoldable pub set_end {ℓ} : {J : Type ℓ} → Bool → Group J → Group J
set_end end z = record {
  jobs = z.jobs;
  threads = z.threads;
  busy = z.busy;
  end = end;
  accepted = z.accepted;
}

-- The pool with the threads that share it: how many are booked and not yet running, how many stand
-- in the inner loop of `work`, how many run a job; and what has happened: the jobs that were taken
-- in, the jobs that were begun, and how many of them are over.
pub record World {ℓ} (J : Type ℓ) : Type ℓ where
  pub group : Group J
  pub starting : ℕ
  pub waiting : ℕ
  pub running : ℕ
  pub given : List J
  pub begun : List J
  pub finished : ℕ

-- `WorkGroup::new`
unfoldable pub fresh {ℓ} : {J : Type ℓ} → World J
fresh = record {
  group = record { jobs = []; threads = 0; busy = 0; end = false; accepted = 0 };
  starting = 0;
  waiting = 0;
  running = 0;
  given = [];
  begun = [];
  finished = 0;
}

-- One step of the pool. `leave` is a thread of `work` that returns: it finds no job, and either the
-- end is set or its idle time is over.
pub data Step {ℓ} {J : Type ℓ} (max : ℕ) : World J → World J → Type ℓ where
  given_starts :
      (w : World J) (job : J) (z : Group J)
      → give max job w.group ≡ starts z
      → Step max w (record {
        group = z;
        starting = w.starting + 1;
        waiting = w.waiting;
        running = w.running;
        given = w.given ++ job ∷ [];
        begun = w.begun;
        finished = w.finished;
      })
  given_wakes :
      (w : World J) (job : J) (z : Group J)
      → give max job w.group ≡ wakes z
      → Step max w (record {
        group = z;
        starting = w.starting;
        waiting = w.waiting;
        running = w.running;
        given = w.given ++ job ∷ [];
        begun = w.begun;
        finished = w.finished;
      })
  started :
      (w : World J) (n : ℕ)
      → w.starting ≡ n + 1
      → Step max w (record {
        group = w.group;
        starting = n;
        waiting = w.waiting + 1;
        running = w.running;
        given = w.given;
        begun = w.begun;
        finished = w.finished;
      })
  takes :
      (w : World J) (job : J) (rest : List J) (n : ℕ)
      → w.group.jobs ≡ job ∷ rest
      → w.waiting ≡ n + 1
      → Step max w (record {
        group = take_job w.group rest;
        starting = w.starting;
        waiting = n;
        running = w.running + 1;
        given = w.given;
        begun = w.begun ++ job ∷ [];
        finished = w.finished;
      })
  finishes :
      (w : World J) (n : ℕ)
      → w.running ≡ n + 1
      → Step max w (record {
        group = give_back w.group;
        starting = w.starting;
        waiting = w.waiting + 1;
        running = n;
        given = w.given;
        begun = w.begun;
        finished = w.finished + 1;
      })
  leave :
      (w : World J) (n : ℕ)
      → w.group.jobs ≡ []
      → w.waiting ≡ n + 1
      → Step max w (record {
        group = thread_gone w.group;
        starting = w.starting;
        waiting = n;
        running = w.running;
        given = w.given;
        begun = w.begun;
        finished = w.finished;
      })
  ends :
      (w : World J) (end : Bool)
      → Step max w (record {
        group = set_end end w.group;
        starting = w.starting;
        waiting = w.waiting;
        running = w.running;
        given = w.given;
        begun = w.begun;
        finished = w.finished;
      })

-- A booked thread that the system does not give.
pub data Failure {ℓ} {J : Type ℓ} : World J → World J → Type ℓ where
  no_thread :
      (w : World J) (n : ℕ)
      → w.starting ≡ n + 1
      → Failure w (record {
        group = thread_gone w.group;
        starting = n;
        waiting = w.waiting;
        running = w.running;
        given = w.given;
        begun = w.begun;
        finished = w.finished;
      })

-- The states that the pool comes into; `Served` are those that it comes into while the system gives
-- every thread.
pub data Reached {ℓ} {J : Type ℓ} (max : ℕ) : World J → Type ℓ where
  reached_fresh : Reached max fresh
  reached_step : {v w : World J} → Reached max v → Step max v w → Reached max w
  reached_failure : {v w : World J} → Reached max v → Failure v w → Reached max w

pub data Served {ℓ} {J : Type ℓ} (max : ℕ) : World J → Type ℓ where
  served_fresh : Served max fresh
  served_step : {v w : World J} → Served max v → Step max v w → Served max w
