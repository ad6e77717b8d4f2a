-- ===== src/Observability/Langfuse.antt =====
-- `LangfuseClient` of app/observability/langfuse_client.py, with the tracker and the collector that
-- it was given.
use ai_risk_engine.Base.{ℕ, String, Option, none, some, List, [], ◌∷◌, ◌++◌}
use ai_risk_engine.Python.Int.{pos}
use ai_risk_engine.Python.Float.{Float, float_of}
use ai_risk_engine.Observability.Arithmetic.{Arithmetic}
use ai_risk_engine.Observability.Metrics.{Metrics, increment}
use ai_risk_engine.Observability.Cost.{CostTracker, token_cost, add_cost_from_tokens}

pub record GenerationRecord : Type 0 where
  pub event_id : String
  pub tenant_id : String
  pub prompt_version : ℕ
  pub model_version : String
  pub input_tokens : ℕ
  pub output_tokens : ℕ
  pub estimated_cost : Float
  pub latency_ms : Float

pub record Langfuse : Type 0 where
  pub cost_tracker : Option CostTracker
  pub metrics : Option Metrics
  pub generations : List GenerationRecord

-- The arguments of `log_generation`; its own `cost_tracker` is left out by every caller.
pub record Generation : Type 0 where
  pub event_id : String
  pub tenant_id : String
  pub prompt_version : ℕ
  pub model_version : String
  pub input_tokens : ℕ
  pub output_tokens : ℕ
  pub latency_ms : Float

module _ (ops : Arithmetic) (default_rate : Float) where
  -- the cost, and the tracker that has recorded it; `default_rate` is the literal 0.002
  estimate : Generation → Option CostTracker → Float × Option CostTracker
  estimate g none = (token_cost ops g.input_tokens g.output_tokens default_rate, none)
  estimate g (some tracker) =
      let (cost, tracker') =
        add_cost_from_tokens ops g.tenant_id g.input_tokens g.output_tokens (some g.model_version)
          (some g.event_id) tracker in
      (cost, some tracker')

  count_use : Option Metrics → Option Metrics
  count_use none = none
  count_use (some m) =
      let one = float_of (pos 1) in
      some (
        increment ops "prompt_usage_count" one none none
          (increment ops "model_usage_count" one none none m))

  unfoldable pub log_generation : Generation → Langfuse → Float × Langfuse
  unfolding estimate count_use
  log_generation g c =
      let (cost, tracker) = estimate g c.cost_tracker in
      (
        cost,
        record {
          cost_tracker = tracker;
          metrics = count_use c.metrics;
          generations =
              c.generations
              ++ record {
                event_id = g.event_id;
                tenant_id = g.tenant_id;
                prompt_version = g.prompt_version;
                model_version = g.model_version;
                input_tokens = g.input_tokens;
                output_tokens = g.output_tokens;
                estimated_cost = cost;
                latency_ms = g.latency_ms;
              }
                ∷ [];
        },
      )

unfoldable pub get_generations : Langfuse → List GenerationRecord
get_generations c = c.generations

unfoldable pub reset : Langfuse → Langfuse
reset c = record c { generations = [] }
