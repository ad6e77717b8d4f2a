-- ===== src/Scalability/HealthMonitor/Degraded.antt =====
-- When app/scalability/health_monitor.py reports a degraded system, and that it always reports.
use ai_risk_engine.Base.{
  String, ◌≡◌, refl, ap, ◌∙◌, Bool, true, false, ◌||◌, none, some, arith, if◌then◌else◌,
}
use ai_risk_engine.Python.Int.{ℤ}
use ai_risk_engine.Python.Value.{Fields}
use ai_risk_engine.Exec.{Result, ok, err}
use ai_risk_engine.Scalability.HealthMonitor.{
  Check, HealthMonitor, Health, caught, assigned, after, check_db, check_redis, check_rabbitmq,
  check_backlog, check_circuits, check_latency, system_health, initial,
}

abbrev raises : {A : Type 0} → Check A → Bool
raises none = false
raises (some (ok _)) = false
raises (some (err _)) = true

-- the four checks that a degraded status can come from
abbrev pub is_degraded : HealthMonitor → Bool
is_degraded m = raises m.db || raises m.redis || raises m.rabbitmq || raises m.backlog

-- A report that was returned, and its status.
abbrev pub Reports : Result Health → String → Type 0
Reports r status = (out : Health) × (r ≡ ok out) × (out.status ≡ status)

abbrev worse : Bool → String → String
worse b status = if b then "degraded" else status

-- the check always goes on, and degrades the status where `b`
abbrev Checks : Bool → (Health → Result Health) → Type 0
Checks b f = (out : Health) → Reports (f out) (worse b out.status)

after-Reports :
    (b : Bool) (f : Health → Result Health) (r : Result Health) (status : String)
    → Checks b f
    → Reports r status
    → Reports (after f r) (worse b status)
unfolding after
after-Reports b f r status checks (out, done, same) =
    let (next, going, shown) = checks out in (next, rw done going, shown ∙ ap (worse b) same)

check_db-Checks : (c : Check Fields) → Checks (raises c) (check_db c)
unfolding check_db caught assigned
check_db-Checks none out = (_, refl, refl)
check_db-Checks (some (ok _)) out = (_, refl, refl)
check_db-Checks (some (err _)) out = (_, refl, refl)

check_redis-Checks : (c : Check Fields) → Checks (raises c) (check_redis c)
unfolding check_redis caught assigned
check_redis-Checks none out = (_, refl, refl)
check_redis-Checks (some (ok _)) out = (_, refl, refl)
check_redis-Checks (some (err _)) out = (_, refl, refl)

check_rabbitmq-Checks : (c : Check Fields) → Checks (raises c) (check_rabbitmq c)
unfolding check_rabbitmq caught assigned
check_rabbitmq-Checks none out = (_, refl, refl)
check_rabbitmq-Checks (some (ok _)) out = (_, refl, refl)
check_rabbitmq-Checks (some (err _)) out = (_, refl, refl)

check_backlog-Checks : (c : Check ℤ) → Checks (raises c) (check_backlog c)
unfolding check_backlog caught assigned
check_backlog-Checks none out = (_, refl, refl)
check_backlog-Checks (some (ok _)) out = (_, refl, refl)
check_backlog-Checks (some (err _)) out = (_, refl, refl)

check_circuits-Checks : (c : Check Fields) → Checks false (check_circuits c)
unfolding check_circuits caught assigned
check_circuits-Checks none out = (_, refl, refl)
check_circuits-Checks (some (ok _)) out = (_, refl, refl)
check_circuits-Checks (some (err _)) out = (_, refl, refl)

check_latency-Checks : (c : Check Fields) → Checks false (check_latency c)
unfolding check_latency caught assigned
check_latency-Checks none out = (_, refl, refl)
check_latency-Checks (some (ok _)) out = (_, refl, refl)
check_latency-Checks (some (err _)) out = (_, refl, refl)

worse_all :
    (a b c d : Bool)
    → worse d (worse c (worse b (worse a "ok"))) ≡ (if a || b || c || d then "degraded" else "ok")
worse_all a b c d = ground arith

-- Whatever the checks return or raise, `system_health` returns a report. Its status is degraded
-- exactly if the check of the database, of Redis, of the broker or of the backlog raises, and ok
-- otherwise; a failure to read the circuits or the latencies does not show in it.
pub system_health-Reports :
    (m : HealthMonitor) → Reports (system_health m) (if is_degraded m then "degraded" else "ok")
unfolding system_health
system_health-Reports m =
    let db = check_db-Checks m.db initial in
    let redis =
      after-Reports (raises m.redis) (check_redis m.redis) _ _ (check_redis-Checks m.redis) db in
    let rabbitmq =
      after-Reports (raises m.rabbitmq) (check_rabbitmq m.rabbitmq) _ _
        (check_rabbitmq-Checks m.rabbitmq) redis in
    let backlog =
      after-Reports (raises m.backlog) (check_backlog m.backlog) _ _
        (check_backlog-Checks m.backlog) rabbitmq in
    let circuits =
      after-Reports false (check_circuits m.circuit_states) _ _
        (check_circuits-Checks m.circuit_states) backlog in
    let (out, done, status) =
      after-Reports false (check_latency m.latency) _ _ (check_latency-Checks m.latency) circuits in
    (
      out,
      done,
      status ∙ worse_all (raises m.db) (raises m.redis) (raises m.rabbitmq) (raises m.backlog),
    )
