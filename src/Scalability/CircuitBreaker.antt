-- ===== src/Scalability/CircuitBreaker.antt =====
-- `CircuitBreaker` of app/scalability/circuit_breaker.py. Its lock is held in `admit` and in the two
-- ways in which a call finishes, and is free while the function runs, so each of the three is a
-- step. The clock is an argument; a threshold is not negative.
pub mod Interleaved
pub mod Failures
use ai_risk_engine.Base.{
  ℕ, suc, leb, String, Bool, true, false, Option, none, some, List, [], ◌∷◌, ◌≤◌, if◌then◌else◌,
}
use mathlib.Core.Option
use ai_risk_engine.Python.Int.{pos}
use ai_risk_engine.Python.Float.{Float, float_of, leb_float}
use ai_risk_engine.Python.Text.{f_string}
use ai_risk_engine.Error.{Error, runtime_error, error}
use ai_risk_engine.Exec.{Result, ok, err, Exec}
use ai_risk_engine.Observability.Arithmetic.{Arithmetic}
use ai_risk_engine.Observability.Metrics.{Metrics, increment}

pub data CircuitState : Type 0 where
  closed opened half_open : CircuitState

pub record CircuitBreaker : Type 0 where
  pub threshold : ℕ
  pub recovery_timeout : Float
  pub name : String
  pub metrics : Option Metrics
  pub state : CircuitState
  pub failures : ℕ
  pub last_failure_time : Option Float

-- `__init__`
abbrev pub new_breaker : ℕ → Float → String → Option Metrics → CircuitBreaker
new_breaker threshold recovery_timeout name metrics = record {
  threshold = threshold;
  recovery_timeout = recovery_timeout;
  name = name;
  metrics = metrics;
  state = closed;
  failures = 0;
  last_failure_time = none;
}

module _ (ops : Arithmetic) where
  abbrev count : String → CircuitBreaker → Option Metrics
  count metric b = Option.map (increment ops metric (float_of (pos 1)) none (some b.name)) b.metrics

  -- `_record_success`
  unfoldable pub record_success : CircuitBreaker → CircuitBreaker
  record_success b = record b {
    failures = 0;
    state = closed;
    metrics = count "circuit_breaker_success" b;
  }

  unfoldable pub after_failure : CircuitState → CircuitState
  after_failure closed = closed
  after_failure opened = opened
  after_failure half_open = opened

  -- `_record_failure` and the test after it: a failed probe opens it again
  unfoldable pub record_failure : Float → CircuitBreaker → CircuitBreaker
  unfolding after_failure
  record_failure now b =
      let failures = suc b.failures in
      let next_state : CircuitState =
        if leb b.threshold failures then opened else after_failure b.state in
      record b {
        last_failure_time = some now;
        failures = failures;
        state = next_state;
        metrics = count "circuit_breaker_failure" b;
      }

  abbrev is_open_error : CircuitBreaker → Error
  is_open_error b = error runtime_error (f_string ("Circuit breaker " ∷ b.name ∷ " is OPEN" ∷ []))

  unfoldable pub recovered : Float → CircuitBreaker → Bool
  recovered now b = elim b.last_failure_time [
    | none ↦ false
    | some t ↦ leb_float b.recovery_timeout (ops.sub now t)
  ]

  -- `call` up to the function
  unfoldable pub admit : Float → Exec CircuitBreaker (Unit {0})
  admit now b = elim b.state [
    | closed ↦ (ok tt, b)
    | half_open ↦ (ok tt, b)
    | opened ↦
        if recovered now b
        then (ok tt, record b { state = half_open })
        else (err (is_open_error b), b)
  ]

  -- `call` of a function that works on `W`, where no other call comes between. `entered` and `failed`
  -- are the clock's readings.
  unfoldable pub call :
      {W A : Type 0} → (entered failed : Float) → Exec W A → Exec (CircuitBreaker × W) A
  call entered failed func (b, w) =
      let (r, b') = admit entered b in
      elim r [
        | err e ↦ (err e, (b', w))
        | ok _ ↦
            let (r', w') = func w in
            elim r' [
              | ok a ↦ (ok a, (record_success b', w'))
              | err e ↦ (err e, (record_failure failed b', w'))
            ]
      ]
