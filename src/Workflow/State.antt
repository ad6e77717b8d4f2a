-- ===== src/Workflow/State.antt =====
-- The states of app/workflows/langgraph/state_models.py. `transition` is a record update: nodes
-- never change a state in place.
use ai_risk_engine.Base.{ℕ, String, Bool, Option, List}
use ai_risk_engine.Python.Float.{Float}
use ai_risk_engine.Python.Value.{Fields}

pub record RiskState : Type 0 where
  pub event_id : String
  pub tenant_id : String
  pub correlation_id : String
  pub raw_event : Fields
  pub retrieved_context : Option String
  pub policy_result : Option String
  pub risk_score : Option Float
  pub guardrail_result : Option String
  pub final_decision : Option String
  pub model_version : String
  pub prompt_version : ℕ
  pub audit_trail : List Fields
  pub idempotency_key : Option String
  pub evaluation_result : Option Fields

-- The compliance state has the fields of the risk state and two more.
pub record ComplianceState : Type 0 where
  pub run : RiskState
  pub regulatory_flags : List String
  pub approval_required : Bool
