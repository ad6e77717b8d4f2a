-- ===== src/Scalability/Tests/Limits.antt =====
-- The theorems on the bulkhead, the rate limiter and the health monitor of app/scalability at concrete
-- runs.
use ai_risk_engine.Base.{
  ℕ, suc, ◌≡◌, ◌≢◌, ◌≤◌, ◌⊎◌, refl, none, some, List, [], ◌∷◌, length, leb, All, arith,
}
use ai_risk_engine.Python.Int.{pos, negsuc}
use ai_risk_engine.Python.Float.{finite, inf, neg_inf, nan, float_of, ltb_float}
use ai_risk_engine.Error.{error, external_error}
use ai_risk_engine.Exec.{ok, err}
use ai_risk_engine.Observability.Arithmetic.{Arithmetic}
use ai_risk_engine.Scalability.Bulkhead.{
  Bulkhead, ended, stopped, is_full, ensure_worker, new_bulkhead, submit,
}
use ai_risk_engine.Scalability.Bulkhead.Bounded.{Reach, start, next, submitted, reachable-bounds}
use ai_risk_engine.Scalability.Bulkhead.Drained.{moves_at, in_hand, worker-drains}
use ai_risk_engine.Scalability.Bulkhead.Drained.Rounds.{work_times, moves, IsSettled, IsCaught}
use ai_risk_engine.Scalability.RateLimiter.{after, cutoff, in_memory, unset, allow_request}
use ai_risk_engine.Scalability.RateLimiter.Window.{
  Request, run, times_of, IsLater, ClockIsLater, allow_request-counts,
}
use ai_risk_engine.Scalability.HealthMonitor.{HealthMonitor, system_health}
use ai_risk_engine.Scalability.HealthMonitor.Degraded.{Reports, system_health-Reports}

abbrev queued : Bulkhead ℕ
queued = (submit (ended (ok 7)) (new_bulkhead 10 1)).1

reached : Reach 10 1 queued
reached = next (new_bulkhead 10 1) queued start (submitted (ended (ok 7)))

reachable-bounds_example :
    (queued.active ≤ 1) × (queued.active ≤ 10) × ((◌≡◌ {A = ℕ} 1 0) ⊎ (length queued.queue ≤ 1))
reachable-bounds_example = reachable-bounds 10 1 queued reached

abbrev later : Bulkhead ℕ
later = work_times (moves queued.queue) (work_times (moves_at queued.worker) queued)

queued_goes_on : queued.worker ≢ stopped
unfolding submit new_bulkhead is_full ensure_worker
queued_goes_on e = ground arith

queued-IsCaught : All IsCaught queued.queue
unfolding submit new_bulkhead is_full
queued-IsCaught = ((ok 7, refl), tt)

held-IsCaught : All IsCaught (in_hand queued.worker)
unfolding submit new_bulkhead is_full ensure_worker
held-IsCaught = tt

worker-drains_example :
    (later.queue ≡ [])
    × All (λ job. IsSettled later job.future) queued.queue
    × All (λ job. IsSettled later job.future) (in_hand queued.worker)
worker-drains_example =
    worker-drains 10 1 queued reached (omega arith) queued_goes_on queued-IsCaught held-IsCaught

abbrev ops : Arithmetic
ops = record { add = λ x y. x; sub = λ x y. x; mul = λ x y. x; div = λ x y. x; round = λ x n. x }

abbrev history : List Request
history = (float_of (pos 1), "acme") ∷ []

two-IsLater : IsLater (float_of (pos 1)) (float_of (pos 2))
unfolding ltb_float
two-IsLater (finite (pos n) k) h = ground arith
two-IsLater (finite (negsuc n) k) h = ground arith
two-IsLater inf h = refl
two-IsLater neg_inf h = absurd (ground arith)
two-IsLater nan h = absurd (ground arith)

clock : ClockIsLater ops 5 60 unset (float_of (pos 2)) history
clock = (two-IsLater, tt)

allow_request-counts_example :
    (allow_request ops (in_memory ops) (float_of (pos 2)) "acme" (run ops 5 60 unset history)).0
    ≡ ok (leb (suc (length (after (cutoff ops (float_of (pos 2)) 60) (times_of "acme" history)))) 5)
allow_request-counts_example =
    allow_request-counts ops 5 60 unset history (float_of (pos 2)) "acme" clock

abbrev monitor : HealthMonitor
monitor = record {
  db = some (err (error external_error "down"));
  redis = none;
  rabbitmq = none;
  backlog = some (ok (pos 3));
  circuit_states = some (err (error external_error "none"));
  latency = none;
}

system_health-Reports_example : Reports (system_health monitor) "degraded"
system_health-Reports_example = system_health-Reports monitor
