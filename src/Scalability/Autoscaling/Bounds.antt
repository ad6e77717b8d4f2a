-- ===== src/Scalability/Autoscaling/Bounds.antt =====
-- When the policy of app/scalability/autoscaling_policy.py scales, and how far.
use ai_risk_engine.Base.{
  ℕ, suc, ◌-◌, ◌≤◌, ◌<◌, ltb, leb, String, ◌≡◌, ◌↔◌, Bool, true, false, ◌||◌, ◌&&◌, Option, none,
  some, arith, Bool-cases, Option-cases, inl, inr,
}
use ai_risk_engine.Python.Float.{Float}
use ai_risk_engine.Observability.Arithmetic.{Arithmetic}
use ai_risk_engine.Scalability.Autoscaling.{
  ScalingAction, scale_up, scale_down, no_action, MetricsSnapshot, AutoScalingPolicy, reaches,
  queue_reaches, scale_up_reason, all_low, evaluate,
}

-- Some metric has reached its limit.
abbrev pub breached : AutoScalingPolicy → MetricsSnapshot → Bool
breached p m =
    reaches m.cpu_usage_pct p.cpu_up
    || reaches m.request_latency_p99_ms p.latency_up
    || reaches m.failure_rate p.failure_up
    || queue_reaches m.queue_depth p.queue_up

-- The number of replicas that an action asks for, one at a time.
abbrev pub scaled : ScalingAction → ℕ → ℕ
scaled scale_up n = suc n
scaled scale_down n = n - 1
scaled no_action n = n

is_some : Option String → Bool
is_some none = false
is_some (some _) = true

module _ (ops : Arithmetic) (show : Float → String) where
  scale_up_reason-is_some :
      (p : AutoScalingPolicy) (m : MetricsSnapshot)
      → is_some (scale_up_reason ops show p m)
        ≡ (breached p m && ltb m.current_replicas p.max_replicas)
  unfolding scale_up_reason is_some
  scale_up_reason-is_some p m =
      let room = Bool-cases (ltb m.current_replicas p.max_replicas) in
      let cpu = Bool-cases (reaches m.cpu_usage_pct p.cpu_up) in
      let latency = Bool-cases (reaches m.request_latency_p99_ms p.latency_up) in
      let failures = Bool-cases (reaches m.failure_rate p.failure_up) in
      let queue = Bool-cases (queue_reaches m.queue_depth p.queue_up) in ground arith

  -- The policy asks for a replica more exactly if some metric has reached its limit and fewer replicas
  -- than the maximum are running.
  pub evaluate-scale_up_iff :
      (p : AutoScalingPolicy) (m : MetricsSnapshot)
      → ((evaluate ops show p m).action ≡ scale_up)
        ↔ ((breached p m ≡ true) × (m.current_replicas < p.max_replicas))
  unfolding evaluate is_some
  evaluate-scale_up_iff p m =
      let known = scale_up_reason-is_some p m in
      elim (Option-cases (scale_up_reason ops show p m)) [
        | inr (reason, e) ↦ (λ h. ground arith, λ h. ground arith)
        | inl e ↦ elim (Bool-cases (leb m.current_replicas p.min_replicas)) [
          | inl f ↦ (λ h. absurd (ground arith), λ h. absurd (ground arith))
          | inr f ↦ (λ h. absurd (ground arith), λ h. absurd (ground arith))
        ]
      ]

  -- From a number of replicas between the minimum and the maximum, the replicas that the policy asks
  -- for are between them again, whatever the metrics say.
  pub evaluate-InBounds :
      (p : AutoScalingPolicy) (m : MetricsSnapshot)
      → p.min_replicas ≤ m.current_replicas
      → m.current_replicas ≤ p.max_replicas
      → (p.min_replicas ≤ scaled (evaluate ops show p m).action m.current_replicas)
        × (scaled (evaluate ops show p m).action m.current_replicas ≤ p.max_replicas)
  unfolding evaluate is_some
  evaluate-InBounds p m low high =
      let known = scale_up_reason-is_some p m in
      elim (Option-cases (scale_up_reason ops show p m)) [
        | inr (reason, e) ↦ (ground arith, ground arith)
        | inl e ↦ elim (Bool-cases (leb m.current_replicas p.min_replicas)) [
          | inl f ↦ (ground arith, ground arith)
          | inr f ↦ elim (Bool-cases (all_low ops show p m)) [
            | inl l ↦ (ground arith, ground arith)
            | inr l ↦ (ground arith, ground arith)
          ]
        ]
      ]
