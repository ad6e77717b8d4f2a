-- ===== src/Scalability/Bulkhead/Interrupted.antt =====
-- What becomes of the worker of app/scalability/bulkhead.py where a task ends with an exception that
-- `except Exception` does not catch.
use ai_risk_engine.Base.{ℕ, zero, suc, ◌≡◌, ◌∙◌, refl, arith, ap}
use ai_risk_engine.Scalability.Bulkhead.{
  TaskEnd, interrupted, Job, waiting, stopped, running, Bulkhead, ensure_worker, submit, is_full,
  after_task, work,
}
use ai_risk_engine.Scalability.Bulkhead.Drained.Rounds.{work_times}

module _ {A : Type 0} where
  work-stopped : (b : Bulkhead A) → b.worker ≡ stopped → work b ≡ b
  unfolding work
  work-stopped b e = ground arith

  work_times-stopped : (n : ℕ) (b : Bulkhead A) → b.worker ≡ stopped → work_times n b ≡ b
  work_times-stopped zero b e = refl
  work_times-stopped (suc n) b e = ap (work_times n) (work-stopped b e) ∙ work_times-stopped n b e

  -- Where the task that the worker is in ends with an exception that is not an `Exception`, the worker
  -- is done: however often it is given a turn, its next one included, it settles no future, that of
  -- the task neither, and takes nothing from the queue. The next `submit`, accepted or not, starts a
  -- worker that goes on with the queue.
  pub interrupted-stalls :
      (b : Bulkhead A) (job : Job A) (n : ℕ) (ends : TaskEnd A)
      → b.worker ≡ running job
      → job.ends ≡ interrupted
      → let later = work_times (suc n) b in
        (later.futures ≡ b.futures)
        × (later.queue ≡ b.queue)
        × (work later ≡ later)
        × ((submit ends later).1.worker ≡ waiting)
  unfolding work after_task submit ensure_worker is_full
  interrupted-stalls b job n ends here broken =
      let stops : (work b).worker ≡ stopped = ground arith in
      let same = work_times-stopped n (work b) stops in
      let stays = work-stopped (work b) stops in
      rw same (ground arith, ground arith, stays, ground arith)
