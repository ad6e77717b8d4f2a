-- ===== src/Scalability/Bulkhead/Drained.antt =====
-- That the worker of app/scalability/bulkhead.py gets through its queue.
pub mod Rounds
use mathlib.Core.Path.{subst}
use ai_risk_engine.Base.{
  ℕ, zero, suc, ◌<◌, ◌≡◌, ◌≢◌, ◌⊎◌, refl, sym, ap, ◌∙◌, inl, inr, Option, none, List, [], ◌∷◌, All,
  arith, Option-cases,
}
use ai_risk_engine.Exec.{Result}
use ai_risk_engine.Scalability.Bulkhead.{
  Outcome, finished, ended, Job, Worker, absent, waiting, stopped, entering, running, Bulkhead,
  settle, after_task, work,
}
use ai_risk_engine.Scalability.Bulkhead.Bounded.{
  Reach, IsBounded, Reach-IsBounded, Worker-cases, TaskEnd-cases, List-cases, ℕ-cases, in_task,
}
use ai_risk_engine.Scalability.Bulkhead.Drained.Rounds.{
  work_times, moves, IsSettled, IsCaught, settle-IsSettled, work_times-keeps, drained,
}

module _ {A : Type 0} where
  -- the moves up to where the worker waits for the queue, and the job that it is at
  abbrev pub moves_at : Worker A → ℕ
  moves_at absent = 0
  moves_at waiting = 0
  moves_at stopped = 0
  moves_at (entering _) = 2
  moves_at (running _) = 1

  abbrev pub in_hand : Worker A → List (Job A)
  in_hand absent = []
  in_hand waiting = []
  in_hand stopped = []
  in_hand (entering job) = job ∷ []
  in_hand (running job) = job ∷ []

  -- A worker that waits, with the queue as it was and these jobs settled.
  record IsIdle (queue done : List (Job A)) (c : Bulkhead A) : Type 0 where
    idle : c.worker ≡ waiting
    same : c.queue ≡ queue
    permits_left : ℕ
    permits : c.permits ≡ suc permits_left
    settled : All (λ job. IsSettled c job.future) done

  settled_after :
      (job : Job A) (r : Result A) (b c : Bulkhead A)
      → c.futures ≡ settle job.future (finished r) b.futures
      → IsSettled c job.future
  settled_after job r b c fs gone =
      settle-IsSettled job.future (finished r) b.futures (ap (λ f. f job.future) (sym fs) ∙ gone)

  all_kept :
      (js : List (Job A)) (k : ℕ) (c : Bulkhead A)
      → All (λ job. IsSettled c job.future) js
      → All (λ job. IsSettled (work_times k c) job.future) js
  all_kept [] k c h = tt
  all_kept (job ∷ js) k c h = (work_times-keeps k job.future c h.0, all_kept js k c h.1)

  to_idle :
      (m n : ℕ) (b : Bulkhead A) (w : Worker A)
      → b.worker ≡ w
      → IsBounded m n b
      → 0 < m
      → w ≢ absent
      → w ≢ stopped
      → All IsCaught (in_hand w)
      → IsIdle b.queue (in_hand w) (work_times (moves_at w) b)
  unfolding work after_task in_task
  to_idle m n b absent e s positive there going caught = absurd (there refl)
  to_idle m n b stopped e s positive there going caught = absurd (going refl)
  to_idle m n b waiting e s positive there going caught =
      let semaphore = s.semaphore in
      let one_task : b.active ≡ 0 = rw e at s.one_task in
      elim (ℕ-cases b.permits) [
        | inl z ↦ absurd (ground arith)
        | inr (p, left) ↦ record {
          idle = e;
          same = refl;
          permits_left = p;
          permits = left;
          settled = tt;
        }
      ]
  to_idle m n b (entering job) e s positive there going ((r, normal), _) =
      let semaphore = s.semaphore in
      let one_task : b.active ≡ 0 = rw e at s.one_task in
      elim (ℕ-cases b.permits) [
        | inl z ↦ absurd (ground arith)
        | inr (p, left) ↦ record {
          idle = ground arith;
          same = ground arith;
          permits_left = p;
          permits = ground arith;
          settled = (settled_after job r b (work (work b)) (ground arith), tt);
        }
      ]
  to_idle m n b (running job) e s positive there going ((r, normal), _) = record {
    idle = ground arith;
    same = ground arith;
    permits_left = b.permits;
    permits = ground arith;
    settled = (settled_after job r b (work b) (ground arith), tt);
  }

  present_not_absent :
      (w : Worker A)
      → w ≡ absent
      → (w ≡ waiting)
        ⊎ (w ≡ stopped)
        ⊎ ((job : Job A) × (w ≡ entering job))
        ⊎ ((job : Job A) × (w ≡ running job))
      → ⊥
  present_not_absent w e (inl h) = ground arith
  present_not_absent w e (inr (inl h)) = ground arith
  present_not_absent w e (inr (inr (inl (job, h)))) = ground arith
  present_not_absent w e (inr (inr (inr (job, h)))) = ground arith

  -- From any state that callers and the worker reach, if at least one task may run at a time, the
  -- worker is not done, and the tasks that are queued or in the worker's hands end with a value or an
  -- `Exception`, the worker gets through: after at most two moves and three more for each entry of
  -- the queue, in which every task that it starts ends, the queue is empty, and the futures of all
  -- these tasks are settled.
  pub worker-drains :
      (max_concurrent max_queued : ℕ) (b : Bulkhead A)
      → Reach max_concurrent max_queued b
      → 0 < max_concurrent
      → b.worker ≢ stopped
      → All IsCaught b.queue
      → All IsCaught (in_hand b.worker)
      → let later = work_times (moves b.queue) (work_times (moves_at b.worker) b) in
        (later.queue ≡ [])
        × All (λ job. IsSettled later job.future) b.queue
        × All (λ job. IsSettled later job.future) (in_hand b.worker)
  worker-drains m n b reached positive going queued held =
      let s = Reach-IsBounded m n b reached in
      elim (Worker-cases b.worker) [
        | inl e ↦ rw (s.started e, e) (refl, tt, tt)
        | inr present ↦
            let there : b.worker ≢ absent = λ e. present_not_absent b.worker e present in
            let idle = to_idle m n b b.worker refl s positive there going held in
            let c = work_times (moves_at b.worker) b in
            let through =
              drained b.queue c idle.permits_left idle.idle idle.same idle.permits queued in
            (through.0, through.1, all_kept (in_hand b.worker) (moves b.queue) c idle.settled)
      ]
