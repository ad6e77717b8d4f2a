-- ===== src/Scalability/Autoscaling.antt =====
-- `AutoScalingPolicy` of app/scalability/autoscaling_policy.py. Numbers of replicas and depths of
-- queues are not negative. `show` writes a float.
pub mod Bounds
use ai_risk_engine.Base.{
  ℕ, ltb, leb, String, Bool, true, false, ◌&&◌, Option, none, some, List, [], ◌∷◌, if◌then◌else◌,
}
use ai_risk_engine.Python.Int.{pos}
use ai_risk_engine.Python.Float.{Float, float_of, finite, leb_float, ltb_float}
use ai_risk_engine.Python.Text.{f_string, decimal}
use ai_risk_engine.Observability.Arithmetic.{Arithmetic}

pub data ScalingAction : Type 0 where
  scale_up scale_down no_action : ScalingAction

pub record ScalingDecision : Type 0 where
  pub action : ScalingAction
  pub reason : String

pub record MetricsSnapshot : Type 0 where
  pub cpu_usage_pct : Option Float
  pub request_latency_p99_ms : Option Float
  pub failure_rate : Option Float
  pub queue_depth : Option ℕ
  pub current_replicas : ℕ

pub record AutoScalingPolicy : Type 0 where
  pub cpu_up : Float
  pub cpu_down : Float
  pub latency_up : Float
  pub failure_up : Float
  pub queue_up : ℕ
  pub min_replicas : ℕ
  pub max_replicas : ℕ

-- `x is not None and x >= limit`
abbrev pub reaches : Option Float → Float → Bool
reaches none limit = false
reaches (some x) limit = leb_float limit x

abbrev pub queue_reaches : Option ℕ → ℕ → Bool
queue_reaches none limit = false
queue_reaches (some n) limit = leb limit n

-- `x is None or x < limit`
below : Option Float → Float → Bool
below none limit = true
below (some x) limit = ltb_float x limit

at_most : Option Float → Float → Bool
at_most none limit = true
at_most (some x) limit = leb_float x limit

queue_below : Option ℕ → Float → Bool
queue_below none limit = true
queue_below (some n) limit = ltb_float (float_of (pos n)) limit

-- 0.5
abbrev one_half : Float
one_half = finite (pos 1) 1

module _ (ops : Arithmetic) (show : Float → String) where
  shown : Option Float → String
  shown none = "None"
  shown (some x) = show x

  shown_depth : Option ℕ → String
  shown_depth none = "None"
  shown_depth (some n) = decimal n

  -- the four scale-up conditions, in the order of the code; the reason of the first that holds
  unfoldable pub scale_up_reason : AutoScalingPolicy → MetricsSnapshot → Option String
  unfolding shown shown_depth
  scale_up_reason p m =
      let room = ltb m.current_replicas p.max_replicas in
      if reaches m.cpu_usage_pct p.cpu_up && room
      then some
          (f_string ("cpu_usage=" ∷ shown m.cpu_usage_pct ∷ "% >= " ∷ show p.cpu_up ∷ "%" ∷ []))
      else if reaches m.request_latency_p99_ms p.latency_up && room
      then some (
          f_string (
            "latency_p99="
            ∷ shown m.request_latency_p99_ms
            ∷ "ms >= "
            ∷ show p.latency_up
            ∷ "ms"
            ∷ []))
      else if reaches m.failure_rate p.failure_up && room
      then some
          (f_string ("failure_rate=" ∷ shown m.failure_rate ∷ " >= " ∷ show p.failure_up ∷ []))
      else if queue_reaches m.queue_depth p.queue_up && room
      then some
          (f_string ("queue_depth=" ∷ shown_depth m.queue_depth ∷ " >= " ∷ decimal p.queue_up ∷ []))
      else none

  -- the four tests that all have to hold before replicas are given up
  unfoldable pub all_low : AutoScalingPolicy → MetricsSnapshot → Bool
  unfolding below at_most queue_below
  all_low p m =
      at_most m.cpu_usage_pct p.cpu_down
      && below m.request_latency_p99_ms (ops.mul p.latency_up one_half)
      && below m.failure_rate (ops.mul p.failure_up one_half)
      && queue_below m.queue_depth (ops.mul (float_of (pos p.queue_up)) one_half)

  unfoldable pub evaluate : AutoScalingPolicy → MetricsSnapshot → ScalingDecision
  evaluate p m = elim (scale_up_reason p m) [
    | some reason ↦ record { action = scale_up; reason = reason }
    | none ↦
        if leb m.current_replicas p.min_replicas
        then record { action = no_action; reason = "at min_replicas" }
        else if all_low p m
        then record { action = scale_down; reason = "all metrics below scale-down thresholds" }
        else record { action = no_action; reason = "no scaling signal" }
  ]
