-- ===== src/Observability/Cost.antt =====
-- `CostTracker` of app/observability/cost_tracker.py. A method runs under the tracker's lock, so it
-- is one step.
pub mod History
use ai_risk_engine.Base.{
  ℕ, ◌+◌, String, Bool, false, true, not, Option, none, some, List, [], ◌∷◌, if◌then◌else◌,
}
use ai_risk_engine.Python.Int.{pos}
use ai_risk_engine.Python.Float.{Float, float_of}
use ai_risk_engine.Python.Text.{is_empty}
use ai_risk_engine.Python.Dict.{Dict, get_or, insert}
use ai_risk_engine.Observability.Arithmetic.{Arithmetic, zero_float}

pub record CostTracker : Type 0 where
  pub rate_per_1k : Float
  pub tenant_costs : Dict Float
  pub model_costs : Dict Float
  pub request_costs : Dict Float
  pub cumulative : Float

abbrev pub new_tracker : Float → CostTracker
new_tracker rate = record {
  rate_per_1k = rate;
  tenant_costs = [];
  model_costs = [];
  request_costs = [];
  cumulative = zero_float;
}

module _ (ops : Arithmetic) where
  -- `d[key] = d.get(key, 0) + amount`
  unfoldable pub charge : String → Float → Dict Float → Dict Float
  charge key amount d = insert key (ops.add (get_or key zero_float d) amount) d

  -- the same for an optional key, which counts if it is truthy
  unfoldable pub charge_if : Option String → Float → Dict Float → Dict Float
  unfolding charge
  charge_if none amount d = d
  charge_if (some key) amount d = if is_empty key then d else charge key amount d

  unfoldable pub add_cost :
      String → Float → (model_version request_id : Option String) → CostTracker → CostTracker
  add_cost tenant_id amount model_version request_id t = record t {
    cumulative = ops.add t.cumulative amount;
    tenant_costs = charge tenant_id amount t.tenant_costs;
    model_costs = charge_if model_version amount t.model_costs;
    request_costs = charge_if request_id amount t.request_costs;
  }

  -- `(total / 1000.0) * rate`
  unfoldable pub token_cost : ℕ → ℕ → Float → Float
  token_cost input_tokens output_tokens rate =
      ops.mul (ops.div (float_of (pos (input_tokens + output_tokens))) (float_of (pos 1000))) rate

  unfoldable pub add_cost_from_tokens :
      String
      → ℕ
      → ℕ
      → (model_version request_id : Option String) → CostTracker
      → Float × CostTracker
  add_cost_from_tokens tenant_id input_tokens output_tokens model_version request_id t =
      let amount = token_cost input_tokens output_tokens t.rate_per_1k in
      (amount, add_cost tenant_id amount model_version request_id t)

unfoldable pub get_tenant_cost : String → CostTracker → Float
get_tenant_cost tenant_id t = get_or tenant_id zero_float t.tenant_costs

unfoldable pub get_cumulative : CostTracker → Float
get_cumulative t = t.cumulative

unfoldable pub get_model_costs : CostTracker → Dict Float
get_model_costs t = t.model_costs

unfoldable pub get_request_cost : String → CostTracker → Float
get_request_cost request_id t = get_or request_id zero_float t.request_costs

pub record CostExport : Type 0 where
  pub cumulative : Float
  pub by_tenant : Dict Float
  pub by_model : Dict Float
  pub by_request : Dict Float

unfoldable pub export : CostTracker → CostExport
export t = record {
  cumulative = t.cumulative;
  by_tenant = t.tenant_costs;
  by_model = t.model_costs;
  by_request = t.request_costs;
}

unfoldable pub reset : CostTracker → CostTracker
reset t = new_tracker t.rate_per_1k
