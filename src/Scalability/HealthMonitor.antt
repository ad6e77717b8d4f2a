-- ===== src/Scalability/HealthMonitor.antt =====
-- `HealthMonitor` of app/scalability/health_monitor.py. The checks are functions that are passed in,
-- or `None`; each is what it returns or raises.
pub mod Degraded
use ai_risk_engine.Base.{String, Option, none, some}
use ai_risk_engine.Python.Int.{ℤ}
use ai_risk_engine.Python.Value.{Fields, end, field, str}
use ai_risk_engine.Error.{Error}
use ai_risk_engine.Exec.{Result, ok, err}

abbrev pub Check : Type 0 → Type 0
Check A = Option (Result A)

pub record HealthMonitor : Type 0 where
  pub db : Check Fields
  pub redis : Check Fields
  pub rabbitmq : Check Fields
  pub backlog : Check ℤ
  pub circuit_states : Check Fields
  pub latency : Check Fields

-- The dict `out`.
pub record Health : Type 0 where
  pub db : Fields
  pub redis : Fields
  pub rabbitmq : Fields
  pub workflow_backlog : Option ℤ
  pub circuit_breaker_states : Fields
  pub node_latency_metrics : Fields
  pub status : String

abbrev pub unknown : Fields
unknown = field "status" (str "unknown") end

abbrev pub failure : String → Fields
failure message = field "status" (str "error") (field "error" (str message) end)

abbrev pub initial : Health
initial = record {
  db = unknown;
  redis = unknown;
  rabbitmq = unknown;
  workflow_backlog = none;
  circuit_breaker_states = end;
  node_latency_metrics = end;
  status = "ok";
}

-- `try: ... except Exception`: the rest goes on with what `handler` gives
unfoldable pub caught : (Error → Health) → Result Health → Result Health
caught handler (ok out) = ok out
caught handler (err e) = ok (handler e)

-- An assignment of what a check returns; it raises what the check raises.
unfoldable pub assigned : {A : Type 0} → (A → Health) → Result A → Result Health
assigned set (ok x) = ok (set x)
assigned set (err e) = err e

unfoldable pub after : (Health → Result Health) → Result Health → Result Health
after f (ok out) = f out
after f (err e) = err e

unfoldable pub check_db : Check Fields → Health → Result Health
unfolding caught assigned
check_db none out = ok out
check_db (some call) out =
    caught (λ e. record out { db = failure e.message; status = "degraded" })
      (assigned (λ h. record out { db = h }) call)

unfoldable pub check_redis : Check Fields → Health → Result Health
unfolding caught assigned
check_redis none out = ok out
check_redis (some call) out =
    caught (λ e. record out { redis = failure e.message; status = "degraded" })
      (assigned (λ h. record out { redis = h }) call)

unfoldable pub check_rabbitmq : Check Fields → Health → Result Health
unfolding caught assigned
check_rabbitmq none out = ok out
check_rabbitmq (some call) out =
    caught (λ e. record out { rabbitmq = failure e.message; status = "degraded" })
      (assigned (λ h. record out { rabbitmq = h }) call)

unfoldable pub check_backlog : Check ℤ → Health → Result Health
unfolding caught assigned
check_backlog none out = ok out
check_backlog (some call) out =
    caught (λ e. record out { workflow_backlog = none; status = "degraded" })
      (assigned (λ h. record out { workflow_backlog = some h }) call)

-- an exception of these two is swallowed
unfoldable pub check_circuits : Check Fields → Health → Result Health
unfolding caught assigned
check_circuits none out = ok out
check_circuits (some call) out =
    caught (λ e. record out { circuit_breaker_states = end })
      (assigned (λ h. record out { circuit_breaker_states = h }) call)

unfoldable pub check_latency : Check Fields → Health → Result Health
unfolding caught assigned
check_latency none out = ok out
check_latency (some call) out =
    caught (λ e. record out { node_latency_metrics = end })
      (assigned (λ h. record out { node_latency_metrics = h }) call)

unfoldable pub system_health : HealthMonitor → Result Health
unfolding after check_db check_redis check_rabbitmq check_backlog check_circuits check_latency
system_health m = after (check_latency m.latency) (
    after (check_circuits m.circuit_states) (
      after (check_backlog m.backlog)
        (after (check_rabbitmq m.rabbitmq) (after (check_redis m.redis) (check_db m.db initial)))))
