-- ===== src/Scalability/CircuitBreaker/Failures.antt =====
-- What one breaker does after failures alone (app/scalability/circuit_breaker.py).

use ai_risk_engine.Base.{
  if◌then◌else◌, ap, ℕ, suc, leb, length, ◌<◌, ◌≡◌, refl, Option, some, List, [], ◌∷◌, String,
  arith, Bool-cases, inl, inr,
}
use ai_risk_engine.Python.Float.{Float, leb_float}
use ai_risk_engine.Python.Text.{f_string}
use ai_risk_engine.Observability.Metrics.{Metrics}
use ai_risk_engine.Error.{error, runtime_error}
use ai_risk_engine.Exec.{ok, err}
use ai_risk_engine.Observability.Arithmetic.{Arithmetic}
use ai_risk_engine.Scalability.CircuitBreaker.{
  CircuitBreaker, closed, opened, new_breaker, record_failure, after_failure, admit, recovered,
}

module _ (ops : Arithmetic) where
  admit-opened :
      (now last : Float) (b : CircuitBreaker)
      → b.state ≡ opened
      → b.last_failure_time ≡ some last
      → (admit ops now b).0 ≡ (
          if leb_float b.recovery_timeout (ops.sub now last)
          then ok tt
          else err (error runtime_error (f_string ("Circuit breaker " ∷ b.name ∷ " is OPEN" ∷ []))))
  unfolding admit recovered
  admit-opened now last b s l =
      elim (Bool-cases (leb_float b.recovery_timeout (ops.sub now last))) [
        | inl e ↦ ground arith
        | inr e ↦ ground arith
      ]

  admit-closed : (now : Float) (b : CircuitBreaker) → b.state ≡ closed → (admit ops now b).0 ≡ ok tt
  unfolding admit
  admit-closed now b s = ground arith

  unfoldable pub fail_all : List Float → CircuitBreaker → CircuitBreaker
  fail_all [] b = b
  fail_all (now ∷ times) b = record_failure ops now (fail_all times b)

  module _ (threshold : ℕ) (recovery_timeout : Float) (name : String)
      (metrics : Option Metrics) where
    abbrev fresh : CircuitBreaker
    fresh = new_breaker threshold recovery_timeout name metrics

    -- What failures leave alone, and what they count.
    fail_all-fields :
        (times : List Float)
        → ((fail_all times fresh).threshold ≡ threshold)
          × ((fail_all times fresh).recovery_timeout ≡ recovery_timeout)
          × ((fail_all times fresh).name ≡ name)
          × ((fail_all times fresh).failures ≡ length times)
    unfolding fail_all record_failure
    fail_all-fields [] = (refl, refl, refl, refl)
    fail_all-fields (now ∷ times) = let (t, r, n, f) = fail_all-fields times in (t, r, n, ap suc f)

    fail_all-state :
        (times : List Float)
        → 0 < threshold
        → (fail_all times fresh).state ≡ (if leb threshold (length times) then opened else closed)
    unfolding fail_all record_failure after_failure
    fail_all-state [] positive = ground arith
    fail_all-state (now ∷ times) positive =
        let (t, r, n, f) = fail_all-fields times in
        let earlier = fail_all-state times positive in
        elim (Bool-cases (leb threshold (length times))) [
          | inl e ↦ ground arith
          | inr e ↦ ground arith
        ]

  -- Where only failures have been recorded, the breaker is open exactly if they reach its threshold,
  -- which is at least one; it then refuses a call, with the name of the breaker in the error, until
  -- the recovery timeout has passed since the last failure, and lets every call pass otherwise.
  pub fail_all-opens :
      (threshold : ℕ) (recovery_timeout : Float) (name : String) (metrics : Option Metrics)
      (now last : Float) (times : List Float)
      → 0 < threshold
      → (admit ops now
          (fail_all (last ∷ times) (new_breaker threshold recovery_timeout name metrics))).0
        ≡ (if leb threshold (suc (length times))
            then (if leb_float recovery_timeout (ops.sub now last)
                then ok tt
                else err
                    (error runtime_error (f_string ("Circuit breaker " ∷ name ∷ " is OPEN" ∷ []))))
            else ok tt)
  unfolding fail_all record_failure
  fail_all-opens threshold recovery_timeout name metrics now last times positive =
      let (t, r, n, f) = fail_all-fields threshold recovery_timeout name metrics times in
      let now_state =
        fail_all-state threshold recovery_timeout name metrics (last ∷ times) positive in
      elim (Bool-cases (leb threshold (suc (length times)))) [
        | inl e ↦
            let is_open : (fail_all (last ∷ times)
                  (new_breaker threshold recovery_timeout name metrics)).state
                ≡ opened =
              ground arith in
            let outcome =
              admit-opened now last
                (fail_all (last ∷ times) (new_breaker threshold recovery_timeout name metrics))
                is_open refl in
            rw (outcome, e, n, r) refl
        | inr e ↦
            let is_closed : (fail_all (last ∷ times)
                  (new_breaker threshold recovery_timeout name metrics)).state
                ≡ closed =
              ground arith in
            rw
              (
                admit-closed now
                    (fail_all (last ∷ times) (new_breaker threshold recovery_timeout name metrics))
                    is_closed,
                e,
              )
              refl
      ]
