-- ===== src/Scalability/Bulkhead.antt =====
-- `BulkheadExecutor` of app/scalability/bulkhead.py. Callers and the worker share it and wait in
-- between, so what each does up to its next wait is one function. A task is what it ends with.
pub mod Bounded
pub mod Drained
pub mod Interrupted
use ai_risk_engine.Base.{
  ℕ, zero, suc, ◌+◌, ◌-◌, String, Bool, true, false, ◌&&◌, not, Option, none, some, List, [], ◌∷◌,
  ◌++◌, length, leb, ◌==◌, if◌then◌else◌,
}
use ai_risk_engine.Error.{error, runtime_error}
use ai_risk_engine.Exec.{Result, ok, err, Exec}

-- How a future was settled: by the worker, or by a caller that no longer waits.
pub data Outcome (A : Type 0) : Type 0 where
  finished : Result A → Outcome A
  cancelled : Outcome A

-- How a task ends: with a value or an `Exception`, or with another exception, such as
-- `CancelledError`, which `except Exception` does not catch.
pub data TaskEnd (A : Type 0) : Type 0 where
  ended : Result A → TaskEnd A
  interrupted : TaskEnd A

-- An entry of the queue: a future, by its number, and what its task will end with.
pub record Job (A : Type 0) : Type 0 where
  pub future : ℕ
  pub ends : TaskEnd A

-- Where the worker is: not started, at `queue.get`, at the semaphore, in a task, or done.
pub data Worker (A : Type 0) : Type 0 where
  absent waiting stopped : Worker A
  entering running : Job A → Worker A

-- `permits` is the counter of the semaphore; `created` counts the futures that were created.
pub record Bulkhead (A : Type 0) : Type 0 where
  pub max_concurrent : ℕ
  pub max_queued : ℕ
  pub permits : ℕ
  pub queue : List (Job A)
  pub active : ℕ
  pub worker : Worker A
  pub created : ℕ
  pub futures : ℕ → Option (Outcome A)

module _ {A : Type 0} where
  unfoldable pub new_bulkhead : ℕ → ℕ → Bulkhead A
  new_bulkhead max_concurrent max_queued = record {
    max_concurrent = max_concurrent;
    max_queued = max_queued;
    permits = max_concurrent;
    queue = [];
    active = 0;
    worker = absent;
    created = 0;
    futures = λ _. none;
  }

  abbrev pub or_settled : Option (Outcome A) → Outcome A → Option (Outcome A)
  or_settled none o = some o
  or_settled (some old) _ = some old

  -- `if not future.done(): future.set_…`
  unfoldable pub settle : ℕ → Outcome A → (ℕ → Option (Outcome A)) → ℕ → Option (Outcome A)
  settle i o futures j = if j == i then or_settled (futures j) o else futures j

  -- `queue.full()`; a queue of size 0 is unbounded
  unfoldable pub is_full : Bulkhead A → Bool
  is_full b = not (b.max_queued == 0) && leb b.max_queued (length b.queue)

  -- `_ensure_worker`, which starts a worker where there is none or the last one is done
  unfoldable pub ensure_worker : Worker A → Worker A
  ensure_worker absent = waiting
  ensure_worker waiting = waiting
  ensure_worker stopped = waiting
  ensure_worker (entering job) = entering job
  ensure_worker (running job) = running job

  -- `submit` up to the wait for its future, whose number it gives
  unfoldable pub submit : TaskEnd A → Exec (Bulkhead A) ℕ
  unfolding is_full ensure_worker
  submit ends b =
      let b' = record b { worker = ensure_worker b.worker; created = suc b.created } in
      if is_full b
      then (err (error runtime_error "Bulkhead: max concurrent and queue full"), b')
      else (
        ok b.created,
        record b' { queue = b.queue ++ (record { future = b.created; ends = ends } ∷ []) },
      )

  -- the caller is cancelled while it waits
  unfoldable pub cancel : ℕ → Bulkhead A → Bulkhead A
  cancel i b = record b { futures = settle i cancelled b.futures }

  abbrev pub take : List (Job A) → Bulkhead A → Bulkhead A
  take [] b = b
  take (job ∷ rest) b = record b { queue = rest; worker = entering job }

  abbrev pub enter : ℕ → Job A → Bulkhead A → Bulkhead A
  enter zero job b = b
  enter (suc permits) job b = record b {
    permits = permits;
    active = b.active + 1;
    worker = running job;
  }

  -- what the worker does with the end of a task: one that `except Exception` does not catch ends the
  -- worker too, and leaves the future as it is
  unfoldable pub after_task : ℕ → TaskEnd A → Bulkhead A → Bulkhead A
  after_task i (ended r) b = record b {
    futures = settle i (finished r) b.futures;
    worker = waiting;
  }
  after_task i interrupted b = record b { worker = stopped }

  -- `_run_worker` up to its next wait; where it has nothing to go on with, nothing changes
  unfoldable pub work : Bulkhead A → Bulkhead A
  work b = elim b.worker [
    | absent ↦ b
    | waiting ↦ take b.queue b
    | stopped ↦ b
    | entering job ↦ enter b.permits job b
    | running job ↦
        after_task job.future job.ends (record b { active = b.active - 1; permits = suc b.permits })
  ]
