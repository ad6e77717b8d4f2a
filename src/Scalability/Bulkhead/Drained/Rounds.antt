-- ===== src/Scalability/Bulkhead/Drained/Rounds.antt =====
-- The rounds of the worker of app/scalability/bulkhead.py, three moves for each entry of its queue.
use mathlib.Core.Path.{subst}
use ai_risk_engine.Base.{
  ℕ, zero, suc, ◌≡◌, ◌≢◌, refl, sym, inl, inr, Option, none, List, [], ◌∷◌, All, arith,
  Option-cases,
}
use ai_risk_engine.Exec.{Result}
use ai_risk_engine.Scalability.Bulkhead.{
  Outcome, finished, ended, Job, waiting, Bulkhead, settle, after_task, work,
}
use ai_risk_engine.Scalability.Bulkhead.Bounded.{Worker-cases, TaskEnd-cases, List-cases, ℕ-cases}

module _ {A : Type 0} where
  abbrev pub work_times : ℕ → Bulkhead A → Bulkhead A
  work_times zero b = b
  work_times (suc n) b = work_times n (work b)

  abbrev pub IsSettled : Bulkhead A → ℕ → Type 0
  IsSettled b i = b.futures i ≢ none

  -- the task ends with a value or an `Exception`
  abbrev pub IsCaught : Job A → Type 0
  IsCaught job = (r : Result A) × (job.ends ≡ ended r)

  pub settle-keeps :
      (i j : ℕ) (o : Outcome A) (f : ℕ → Option (Outcome A)) → f j ≢ none → settle i o f j ≢ none
  unfolding settle
  settle-keeps i j o f h e = elim (Option-cases (f j)) [
    | inl open_yet ↦ h open_yet
    | inr (old, known) ↦ ground arith
  ]

  pub settle-IsSettled :
      (i : ℕ) (o : Outcome A) (f : ℕ → Option (Outcome A)) → settle i o f i ≢ none
  unfolding settle
  settle-IsSettled i o f e = elim (Option-cases (f i)) [
    | inl open_yet ↦ ground arith
    | inr (old, known) ↦ ground arith
  ]

  work-keeps : (j : ℕ) (b : Bulkhead A) → IsSettled b j → IsSettled (work b) j
  unfolding work after_task
  work-keeps j b h gone = elim (Worker-cases b.worker) [
    | inl e ↦ ground arith
    | inr (inl e) ↦ elim (List-cases b.queue) [
      | inl empty ↦ ground arith
      | inr (job, rest, q) ↦ ground arith
    ]
    | inr (inr (inl e)) ↦ ground arith
    | inr (inr (inr (inl (job, e)))) ↦ elim (ℕ-cases b.permits) [
      | inl none_left ↦ ground arith
      | inr (p, left) ↦ ground arith
    ]
    | inr (inr (inr (inr (job, e)))) ↦ elim (TaskEnd-cases job.ends) [
      | inl (r, normal) ↦ settle-keeps job.future j (finished r) b.futures h (ground arith)
      | inr broken ↦ ground arith
    ]
  ]

  -- three moves of a worker that waits, with a job in the queue
  round :
      (b : Bulkhead A) (job : Job A) (rest : List (Job A)) (p : ℕ) (r : Result A)
      → b.worker ≡ waiting
      → b.queue ≡ job ∷ rest
      → b.permits ≡ suc p
      → job.ends ≡ ended r
      → work (work (work b)) ≡ record b {
        queue = rest;
        futures = settle job.future (finished r) b.futures;
        permits = b.permits;
      }
  unfolding work after_task
  round b job rest p r w q ps normal = ground arith

  pub work_times-keeps :
      (n : ℕ) (j : ℕ) (b : Bulkhead A) → IsSettled b j → IsSettled (work_times n b) j
  work_times-keeps zero j b h = h
  work_times-keeps (suc n) j b h = work_times-keeps n j (work b) (work-keeps j b h)

  -- three moves for each job
  abbrev pub moves : List (Job A) → ℕ
  moves [] = 0
  moves (_ ∷ rest) = suc (suc (suc (moves rest)))

  pub drained :
      (queue : List (Job A)) (b : Bulkhead A) (p : ℕ)
      → b.worker ≡ waiting
      → b.queue ≡ queue
      → b.permits ≡ suc p
      → All IsCaught queue
      → ((work_times (moves queue) b).queue ≡ [])
        × All (λ job. IsSettled (work_times (moves queue) b) job.future) queue
  drained [] b p w q ps caught = (q, tt)
  drained (job ∷ rest) b p w q ps ((r, normal), caught) =
      let b' : Bulkhead A = record b {
        queue = rest;
        futures = settle job.future (finished r) b.futures;
        permits = b.permits;
      } in
      let same : b' ≡ work (work (work b)) = sym (round b job rest p r w q ps normal) in
      let later = drained rest b' p w refl ps caught in
      subst
        (λ c.
          ((work_times (moves rest) c).queue ≡ [])
          × All (λ x. IsSettled (work_times (moves rest) c) x.future) (job ∷ rest))
        same
        (
          later.0,
          (
            work_times-keeps (moves rest) job.future b'
                (settle-IsSettled job.future (finished r) b.futures),
            later.1,
          ),
        )
