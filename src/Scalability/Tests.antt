-- ===== src/Scalability/Tests.antt =====
-- The theorems on app/scalability at concrete breakers, policies and partitioners. The arithmetic of the tests keeps the first
-- operand.
mod Locks
mod Limits
use ai_risk_engine.Base.{
  suc, leb, length, ◌≡◌, refl, none, some, [], ◌∷◌, if◌then◌else◌, arith, true, ◌<◌, ◌≤◌, ◌↔◌, ℕ,
  String,
}
use ai_risk_engine.Python.Int.{pos}
use ai_risk_engine.Python.Float.{Float, float_of, leb_float}
use ai_risk_engine.Python.Text.{f_string}
use ai_risk_engine.Error.{error, runtime_error}
use ai_risk_engine.Exec.{ok, err}
use ai_risk_engine.Observability.Arithmetic.{Arithmetic}
use ai_risk_engine.Scalability.Autoscaling.{scale_up, AutoScalingPolicy, MetricsSnapshot, evaluate}
use ai_risk_engine.Scalability.Autoscaling.Bounds.{
  breached, scaled, evaluate-scale_up_iff, evaluate-InBounds,
}
use ai_risk_engine.Scalability.Partition.{new_partitioner, get_partition, get_partition-bound}
use ai_risk_engine.Scalability.CircuitBreaker.{
  CircuitBreaker, opened, new_breaker, admit, record_failure, recovered,
}
use ai_risk_engine.Scalability.CircuitBreaker.Interleaved.{
  start, next, failed, Sound, Steps-Sound, second_probe-passes,
}
use ai_risk_engine.Scalability.CircuitBreaker.Failures.{fail_all, fail_all-opens}

abbrev ops : Arithmetic
ops = record { add = λ x y. x; sub = λ x y. x; mul = λ x y. x; div = λ x y. x; round = λ x n. x }

abbrev thirty : Float
thirty = float_of (pos 30)

abbrev fresh : CircuitBreaker
fresh = new_breaker 1 thirty "db" none

abbrev broken : CircuitBreaker
broken = record fresh { state = opened; failures = 1; last_failure_time = some (float_of (pos 5)) }

Steps-Sound_example : Sound ops (record_failure ops thirty fresh)
Steps-Sound_example =
    Steps-Sound ops 1 thirty "db" none (record_failure ops thirty fresh) (omega arith)
      (next fresh (record_failure ops thirty fresh) start (failed thirty))

fail_all-opens_example : (admit ops thirty (fail_all ops (thirty ∷ []) fresh)).0 ≡ (
    if leb 1 (suc (length {A = Float} []))
    then (if leb_float thirty (ops.sub thirty thirty)
        then ok tt
        else err (error runtime_error (f_string ("Circuit breaker " ∷ "db" ∷ " is OPEN" ∷ []))))
    else ok tt)
fail_all-opens_example = fail_all-opens ops 1 thirty "db" none thirty thirty [] (omega arith)

probing : (admit ops thirty broken).0 ≡ ok tt
unfolding admit recovered leb_float
probing = refl

abbrev show : Float → String
show x = "a number"

abbrev policy : AutoScalingPolicy
policy = record {
  cpu_up = float_of (pos 70);
  cpu_down = thirty;
  latency_up = float_of (pos 500);
  failure_up = float_of (pos 1);
  queue_up = 50;
  min_replicas = 1;
  max_replicas = 20;
}

abbrev busy : MetricsSnapshot
busy = record {
  cpu_usage_pct = some (float_of (pos 90));
  request_latency_p99_ms = none;
  failure_rate = none;
  queue_depth = some 3;
  current_replicas = 20;
}

evaluate-scale_up_iff_example :
    ((evaluate ops show policy busy).action ≡ scale_up)
    ↔ ((breached policy busy ≡ true) × (20 < 20))
evaluate-scale_up_iff_example = evaluate-scale_up_iff ops show policy busy

evaluate-InBounds_example :
    (1 ≤ scaled (evaluate ops show policy busy).action 20)
    × (scaled (evaluate ops show policy busy).action 20 ≤ 20)
evaluate-InBounds_example = evaluate-InBounds ops show policy busy (omega arith) (omega arith)

sixteen-made : new_partitioner 16 ≡ ok record { num_partitions = 16 }
unfolding new_partitioner
sixteen-made = refl

abbrev hash : String → ℕ
hash t = 35
