-- ===== src/Workflow/Setup.antt =====
-- What the engine of app/workflows/langgraph/risk_workflow.py works with; compliance_workflow.py
-- repeats it with its own nodes and names, and `Kind` is what differs.
use ai_risk_engine.Base.{String, Bool, Option, some, List, [], ◌∷◌, ◌≡◌}
use ai_risk_engine.Python.Float.{Float}
use ai_risk_engine.Python.Time.{Datetime}
use ai_risk_engine.Exec.{Result, ok, Exec}
use ai_risk_engine.Governance.Audit.{AuditRepository}
use ai_risk_engine.Governance.Models.{ModelRepository}
use ai_risk_engine.Governance.Prompts.{PromptRepository}
use ai_risk_engine.Observability.Arithmetic.{Arithmetic}
use ai_risk_engine.Observability.Metrics.{Metrics}
use ai_risk_engine.Observability.Cost.{CostTracker}
use ai_risk_engine.Observability.Tracing.{Tracing}
use ai_risk_engine.Observability.Langfuse.{Langfuse}
use ai_risk_engine.Workflow.State.{RiskState}
use ai_risk_engine.Workflow.Nodes.{Tick}

pub data NodeName : Type 0 where
  retrieval policy_validation risk_scoring guardrails decision : NodeName

abbrev pub node_text : NodeName → String
node_text retrieval = "retrieval"
node_text policy_validation = "policy_validation"
node_text risk_scoring = "risk_scoring"
node_text guardrails = "guardrails"
node_text decision = "decision"

-- `NODE_ORDER`
abbrev pub node_order : List NodeName
node_order = retrieval ∷ policy_validation ∷ risk_scoring ∷ guardrails ∷ decision ∷ []

-- A workflow on the states `X`, each with the fields of a risk state.
pub record Kind (B X : Type 0) : Type 0 where
  pub view : X → RiskState
  pub update : RiskState → X → X
  pub node : NodeName → Tick → X → Exec B X
  pub needs_approval : X → Bool
  pub span_name : String
  pub model_name : String
  pub prompt_name : String

-- The protocols `WorkflowStateStore` and `ComplianceStateStore`, over the state `C` of whatever
-- implements them. Both calls may raise; a save that returns has stored the state.
pub record StateStore (C X : Type 0) : Type 0 where
  pub get : String → C → Result (Option X)
  pub set : String → X → Exec C (Unit {0})
  pub set_ok :
      (k : String) (x : X) (c : C) → (set k x c).0 ≡ ok tt → get k (set k x c).1 ≡ ok (some x)

-- What a run works on; a hook that is not given is `none`.
pub record World (B C : Type 0) : Type 0 where
  pub trail : B
  pub store : C
  pub metrics : Option Metrics
  pub tracing : Option Tracing
  pub cost : Option CostTracker
  pub langfuse : Option Langfuse

-- What a workflow was built with and does not change. `evaluation` says, of an evaluation service
-- that was given, whether it has an audit logger.
pub record Setup (B C X M P : Type 0) : Type 0 where
  pub kind : Kind B X
  pub ops : Arithmetic
  pub audit : AuditRepository B
  pub state_store : Option (StateStore C X)
  pub model_repository : ModelRepository M
  pub models : Option M
  pub prompt_repository : PromptRepository P
  pub prompts : Option P
  pub evaluation : Option Bool
  pub has_classifier : Bool

-- The clock readings and identifiers of one node, and of a whole run.
pub record NodeTimes : Type 0 where
  pub tick : Tick
  pub elapsed_ms : Float
  pub span_id : String
  pub start : Datetime
  pub stop : Datetime

pub record RunTimes : Type 0 where
  pub node : NodeName → NodeTimes
  pub root_span_id : String
  pub root_trace_id : String
  pub root_start : Datetime
  pub root_stop : Datetime
  pub request_latency_ms : Float
  pub evaluated : Datetime
