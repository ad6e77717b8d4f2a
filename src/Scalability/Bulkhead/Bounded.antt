-- ===== src/Scalability/Bulkhead/Bounded.antt =====
-- The bounds of app/scalability/bulkhead.py, in any interleaving of its callers and its worker.
use mathlib.Core.Path.{subst}
use ai_risk_engine.Base.{
  ℕ, zero, suc, ◌+◌, ◌≤◌, ◌≡◌, refl, ◌⊎◌, inl, inr, List, [], ◌∷◌, length, length-append, arith,
  Bool-cases,
}
use ai_risk_engine.Exec.{Result}
use ai_risk_engine.Scalability.Bulkhead.{
  TaskEnd, ended, interrupted, Job, Worker, absent, waiting, stopped, entering, running, Bulkhead,
  new_bulkhead, is_full, ensure_worker, submit, cancel, after_task, work,
}

pub ℕ-cases : (n : ℕ) → (n ≡ 0) ⊎ ((p : ℕ) × (n ≡ suc p))
ℕ-cases zero = inl refl
ℕ-cases (suc p) = inr (p, refl)

module _ {A : Type 0} where
  pub data Step (b : Bulkhead A) : Bulkhead A → Type 0 where
    submitted : (ends : TaskEnd A) → Step b (submit ends b).1
    gave_up : (i : ℕ) → Step b (cancel i b)
    worked : Step b (work b)

  pub data Reach (max_concurrent max_queued : ℕ) : Bulkhead A → Type 0 where
    start : Reach max_concurrent max_queued (new_bulkhead max_concurrent max_queued)
    next :
        (b c : Bulkhead A)
        → Reach max_concurrent max_queued b
        → Step b c
        → Reach max_concurrent max_queued c

  -- how many tasks the worker is in
  unfoldable pub in_task : Worker A → ℕ
  in_task absent = 0
  in_task waiting = 0
  in_task stopped = 0
  in_task (entering _) = 0
  in_task (running _) = 1

  -- The limits of a bulkhead, and that it keeps within them.
  pub record IsBounded (max_concurrent max_queued : ℕ) (b : Bulkhead A) : Type 0 where
    pub concurrent : b.max_concurrent ≡ max_concurrent
    pub queued : b.max_queued ≡ max_queued
    pub semaphore : b.permits + b.active ≡ max_concurrent
    pub one_task : b.active ≡ in_task b.worker
    pub room : (max_queued ≡ 0) ⊎ (length b.queue ≤ max_queued)
    pub started : (b.worker ≡ absent) → b.queue ≡ []

  -- The five places of the worker.
  pub Worker-cases :
      (w : Worker A)
      → (w ≡ absent)
        ⊎ (w ≡ waiting)
        ⊎ (w ≡ stopped)
        ⊎ ((job : Job A) × (w ≡ entering job))
        ⊎ ((job : Job A) × (w ≡ running job))
  Worker-cases absent = inl refl
  Worker-cases waiting = inr (inl refl)
  Worker-cases stopped = inr (inr (inl refl))
  Worker-cases (entering job) = inr (inr (inr (inl (job, refl))))
  Worker-cases (running job) = inr (inr (inr (inr (job, refl))))

  pub TaskEnd-cases : (x : TaskEnd A) → ((r : Result A) × (x ≡ ended r)) ⊎ (x ≡ interrupted)
  TaskEnd-cases (ended r) = inl (r, refl)
  TaskEnd-cases interrupted = inr refl

  pub List-cases :
      (js : List (Job A)) → (js ≡ []) ⊎ ((job : Job A) × (rest : List (Job A)) × (js ≡ job ∷ rest))
  List-cases [] = inl refl
  List-cases (job ∷ rest) = inr (job, rest, refl)

  ensure_worker-in_task : (w : Worker A) → in_task (ensure_worker w) ≡ in_task w
  unfolding in_task ensure_worker
  ensure_worker-in_task absent = refl
  ensure_worker-in_task waiting = refl
  ensure_worker-in_task stopped = refl
  ensure_worker-in_task (entering _) = refl
  ensure_worker-in_task (running _) = refl

  ensure_worker-started : (w : Worker A) → ensure_worker w ≡ absent → ⊥
  unfolding ensure_worker
  ensure_worker-started absent h = ground arith
  ensure_worker-started waiting h = ground arith
  ensure_worker-started stopped h = ground arith
  ensure_worker-started (entering _) h = ground arith
  ensure_worker-started (running _) h = ground arith

  submit-IsBounded :
      (m n : ℕ) (ends : TaskEnd A) (b : Bulkhead A)
      → IsBounded m n b
      → IsBounded m n (submit ends b).1
  unfolding submit is_full ensure_worker in_task
  submit-IsBounded m n ends b s =
      let same = ensure_worker-in_task b.worker in
      let m_same = s.concurrent in
      let n_same = s.queued in
      let semaphore = s.semaphore in
      let one_task = s.one_task in
      let last : List (Job A) = record { future = b.created; ends = ends } ∷ [] in
      let longer = length-append b.queue last in
      elim (Bool-cases (is_full b)) [
        | inl full ↦ record {
          concurrent = ground arith;
          queued = ground arith;
          semaphore = ground arith;
          one_task = ground arith;
          room = elim s.room [ inl z ↦ inl z | inr le ↦ inr (ground arith) ];
          started = λ h. absurd (ensure_worker-started b.worker (ground arith));
        }
        | inr space ↦ record {
          concurrent = ground arith;
          queued = ground arith;
          semaphore = ground arith;
          one_task = ground arith;
          room = elim (ℕ-cases n) [ inl z ↦ inl z | inr (p, positive) ↦ inr (ground arith) ];
          started = λ h. absurd (ensure_worker-started b.worker (ground arith));
        }
      ]

  work-IsBounded : (m n : ℕ) (b : Bulkhead A) → IsBounded m n b → IsBounded m n (work b)
  unfolding work after_task in_task
  work-IsBounded m n b s =
      let m_same = s.concurrent in
      let n_same = s.queued in
      let semaphore = s.semaphore in
      let one_task = s.one_task in
      elim (Worker-cases b.worker) [
        | inl e ↦ subst (λ c. IsBounded m n c) (ground arith) s
        | inr (inl e) ↦ elim (List-cases b.queue) [
          | inl empty ↦ subst (λ c. IsBounded m n c) (ground arith) s
          | inr (job, rest, q) ↦ record {
            concurrent = ground arith;
            queued = ground arith;
            semaphore = ground arith;
            one_task = ground arith;
            room = elim s.room [ inl z ↦ inl z | inr le ↦ inr (ground arith) ];
            started = λ h. absurd (ground arith);
          }
        ]
        | inr (inr (inl e)) ↦ subst (λ c. IsBounded m n c) (ground arith) s
        | inr (inr (inr (inl (job, e)))) ↦ elim (ℕ-cases b.permits) [
          | inl none_left ↦ subst (λ c. IsBounded m n c) (ground arith) s
          | inr (p, left) ↦ record {
            concurrent = ground arith;
            queued = ground arith;
            semaphore = ground arith;
            one_task = ground arith;
            room = elim s.room [ inl z ↦ inl z | inr le ↦ inr (ground arith) ];
            started = λ h. absurd (ground arith);
          }
        ]
        | inr (inr (inr (inr (job, e)))) ↦ elim (TaskEnd-cases job.ends) [
          | inl (r, normal) ↦ record {
            concurrent = ground arith;
            queued = ground arith;
            semaphore = ground arith;
            one_task = ground arith;
            room = elim s.room [ inl z ↦ inl z | inr le ↦ inr (ground arith) ];
            started = λ h. absurd (ground arith);
          }
          | inr broken ↦ record {
            concurrent = ground arith;
            queued = ground arith;
            semaphore = ground arith;
            one_task = ground arith;
            room = elim s.room [ inl z ↦ inl z | inr le ↦ inr (ground arith) ];
            started = λ h. absurd (ground arith);
          }
        ]
      ]

  cancel-IsBounded :
      (m n : ℕ) (i : ℕ) (b : Bulkhead A) → IsBounded m n b → IsBounded m n (cancel i b)
  unfolding cancel
  cancel-IsBounded m n i b s = record {
    concurrent = s.concurrent;
    queued = s.queued;
    semaphore = s.semaphore;
    one_task = s.one_task;
    room = s.room;
    started = s.started;
  }

  pub Reach-IsBounded : (m n : ℕ) (b : Bulkhead A) → Reach m n b → IsBounded m n b
  unfolding new_bulkhead in_task
  Reach-IsBounded m n _ start = record {
    concurrent = refl;
    queued = refl;
    semaphore = ground arith;
    one_task = refl;
    room = inr (ground arith);
    started = λ h. refl;
  }
  Reach-IsBounded m n _ (next b _ r (submitted ends)) =
      submit-IsBounded m n ends b (Reach-IsBounded m n b r)
  Reach-IsBounded m n _ (next b _ r (gave_up i)) =
      cancel-IsBounded m n i b (Reach-IsBounded m n b r)
  Reach-IsBounded m n _ (next b _ r worked) = work-IsBounded m n b (Reach-IsBounded m n b r)

  in_task-le : (w : Worker A) → in_task w ≤ 1
  unfolding in_task
  in_task-le absent = ground arith
  in_task-le waiting = ground arith
  in_task-le stopped = ground arith
  in_task-le (entering _) = ground arith
  in_task-le (running _) = ground arith

  -- However callers and the worker interleave, never more than one task runs at a time, whatever the
  -- limit on concurrent tasks is, no more than that limit, and the queue has no more entries than its
  -- limit, unless that is 0.
  pub reachable-bounds :
      (max_concurrent max_queued : ℕ) (b : Bulkhead A)
      → Reach max_concurrent max_queued b
      → (b.active ≤ 1)
        × (b.active ≤ max_concurrent)
        × ((max_queued ≡ 0) ⊎ (length b.queue ≤ max_queued))
  reachable-bounds m n b r =
      let s = Reach-IsBounded m n b r in
      let one = in_task-le b.worker in
      let one_task = s.one_task in
      let semaphore = s.semaphore in (ground arith, ground arith, s.room)
