-- ===== src/Scalability/CircuitBreaker/Interleaved.antt =====
-- Calls through one circuit breaker (app/scalability/circuit_breaker.py) in any interleaving.
use mathlib.Core.Path.{subst}
use ai_risk_engine.Base.{
  if◌then◌else◌, sym, ℕ, suc, leb, ◌≤◌, ◌<◌, ◌≡◌, ◌≢◌, refl, Option, none, some, ◌⊎◌, String, arith,
  Bool-cases, inl, inr, false,
}
use ai_risk_engine.Python.Float.{Float}
use ai_risk_engine.Observability.Metrics.{Metrics}
use ai_risk_engine.Exec.{ok}
use ai_risk_engine.Observability.Arithmetic.{Arithmetic}
use ai_risk_engine.Scalability.CircuitBreaker.{
  CircuitBreaker, CircuitState, closed, opened, half_open, new_breaker, record_success,
  record_failure, after_failure, admit, recovered,
}

is_opened : (st : CircuitState) → (st ≡ opened) ⊎ (st ≢ opened)
is_opened closed = inr (ground arith)
is_opened opened = inl refl
is_opened half_open = inr (ground arith)

module _ (ops : Arithmetic) where
  -- one critical section of one of the calls
  pub data Step (b : CircuitBreaker) : CircuitBreaker → Type 0 where
    entered : (now : Float) → Step b (admit ops now b).1
    succeeded : Step b (record_success ops b)
    failed : (now : Float) → Step b (record_failure ops now b)

  pub data Steps (b : CircuitBreaker) : CircuitBreaker → Type 0 where
    start : Steps b b
    next : (c d : CircuitBreaker) → Steps b c → Step c d → Steps b d

  -- What a state says of the failures.
  pub StateSound : CircuitState → ℕ → ℕ → Option Float → Type 0
  StateSound closed threshold failures last = failures < threshold
  StateSound opened threshold failures last = (threshold ≤ failures) × (last ≢ none)
  StateSound half_open threshold failures last = (threshold ≤ failures) × (last ≢ none)

  pub Sound : CircuitBreaker → Type 0
  Sound b = (0 < b.threshold) × StateSound b.state b.threshold b.failures b.last_failure_time

  success-Sound : (b : CircuitBreaker) → Sound b → Sound (record_success ops b)
  unfolding Sound StateSound record_success
  success-Sound b (positive, s) = (positive, positive)

  below_threshold :
      (st : CircuitState) (threshold failures : ℕ) (last : Option Float) (now : Float)
      → StateSound st threshold failures last
      → leb threshold (suc failures) ≡ false
      → StateSound (after_failure ops st) threshold (suc failures) (some now)
  unfolding StateSound after_failure
  below_threshold closed threshold failures last now s e = ground arith
  below_threshold opened threshold failures last now (s, _) e = absurd (ground arith)
  below_threshold half_open threshold failures last now (s, _) e = absurd (ground arith)

  after_failure-Sound :
      (st : CircuitState) (threshold failures : ℕ) (last : Option Float) (now : Float)
      → StateSound st threshold failures last
      → StateSound
          (if leb threshold (suc failures) then opened else after_failure ops st)
          threshold
          (suc failures)
          (some now)
  unfolding StateSound after_failure
  after_failure-Sound st threshold failures last now s =
      elim (Bool-cases (leb threshold (suc failures))) [
        | inl e ↦ rw e (ground arith, λ none_left. ground arith)
        | inr e ↦ rw e (below_threshold st threshold failures last now s e)
      ]

  failure-Sound : (now : Float) (b : CircuitBreaker) → Sound b → Sound (record_failure ops now b)
  unfolding Sound StateSound record_failure
  failure-Sound now b (positive, s) =
      (positive, after_failure-Sound b.state b.threshold b.failures b.last_failure_time now s)

  admit-passes :
      (now : Float) (b : CircuitBreaker) → b.state ≢ opened → admit ops now b ≡ (ok tt, b)
  unfolding admit
  admit-passes now b passing = ground arith

  -- an open circuit becomes half open or stays as it is
  admit_opened-Sound :
      (now : Float) (b : CircuitBreaker) → b.state ≡ opened → Sound b → Sound (admit ops now b).1
  unfolding Sound admit StateSound
  admit_opened-Sound now b e (positive, s) =
      let (reached, stamped) : StateSound opened b.threshold b.failures b.last_failure_time =
        subst (λ st. StateSound st b.threshold b.failures b.last_failure_time) e s in
      elim (Bool-cases (recovered ops now b)) [
        | inl r ↦
            let same : (admit ops now b).1 ≡ record b { state = half_open } = ground arith in
            subst Sound (sym same) (positive, (reached, stamped))
        | inr r ↦
            let same : (admit ops now b).1 ≡ b = ground arith in
            subst Sound (sym same) (positive, s)
      ]

  admit-Sound : (now : Float) (b : CircuitBreaker) → Sound b → Sound (admit ops now b).1
  admit-Sound now b sound = elim (is_opened b.state) [
    | inl e ↦ admit_opened-Sound now b e sound
    | inr passing ↦ subst (λ r. Sound r.1) (sym (admit-passes now b passing)) sound
  ]

  Step-Sound : (b c : CircuitBreaker) → Step b c → Sound b → Sound c
  Step-Sound b c (entered now) = admit-Sound now b
  Step-Sound b c succeeded = success-Sound b
  Step-Sound b c (failed now) = failure-Sound now b

  -- However the critical sections of concurrent calls follow each other, a breaker whose threshold is
  -- at least one is closed only while it counts fewer failures than the threshold, and is open or
  -- half open only with as many failures or more and with the time of the last one.
  pub Steps-Sound :
      (threshold : ℕ) (recovery_timeout : Float) (name : String) (metrics : Option Metrics)
      (b : CircuitBreaker)
      → 0 < threshold
      → Steps (new_breaker threshold recovery_timeout name metrics) b
      → Sound b
  unfolding Sound StateSound
  Steps-Sound threshold recovery_timeout name metrics b positive start = (positive, positive)
  Steps-Sound threshold recovery_timeout name metrics b positive (next c _ before last) =
      Step-Sound c b last (Steps-Sound threshold recovery_timeout name metrics c positive before)

  -- Once a call has been let through an open circuit, the next one passes too, whatever the time and
  -- although the first is still running: the probes are not limited to one.
  pub second_probe-passes :
      (now later : Float) (b : CircuitBreaker)
      → b.state ≡ opened
      → (admit ops now b).0 ≡ ok tt
      → (admit ops later (admit ops now b).1).0 ≡ ok tt
  unfolding admit
  second_probe-passes now later b is_open probing = elim (Bool-cases (recovered ops now b)) [
    | inl r ↦ ground arith
    | inr r ↦ ground arith
  ]
