-- ===== src/Workflow/Kinds.antt =====
-- The two workflows: `RiskWorkflow` of app/workflows/langgraph/risk_workflow.py and
-- `ComplianceWorkflow` of compliance_workflow.py.
use ai_risk_engine.Base.{String, ◌||◌}
use ai_risk_engine.Python.Value.{Value}
use ai_risk_engine.Governance.Audit.{AuditRepository}
use ai_risk_engine.Workflow.State.{RiskState, ComplianceState}
use ai_risk_engine.Workflow.Nodes.{
  is_text, retrieve_context, validate_policy, score_risk, apply_guardrails, make_decision,
}
use ai_risk_engine.Workflow.Compliance.{
  retrieve_context_compliance, validate_policy_compliance, score_risk_compliance,
  apply_guardrails_compliance, make_compliance_decision,
}
use ai_risk_engine.Exec.{Exec}
use ai_risk_engine.Workflow.Engine.{run}
use ai_risk_engine.Workflow.Setup.{
  Kind, Setup, World, RunTimes, retrieval, policy_validation, risk_scoring, guardrails, decision,
}

-- `RiskWorkflow`
unfoldable pub risk_kind : {B : Type 0} → AuditRepository B → (Value → String) → Kind B RiskState
risk_kind audit render = record {
  view = λ s. s;
  update = λ s _. s;
  node = elim [
    | retrieval ↦ retrieve_context audit render
    | policy_validation ↦ validate_policy audit
    | risk_scoring ↦ score_risk audit
    | guardrails ↦ apply_guardrails audit
    | decision ↦ make_decision audit
  ];
  needs_approval = λ s. is_text s.final_decision "REQUIRE_APPROVAL";
  span_name = "risk_workflow";
  model_name = "risk-model";
  prompt_name = "risk-prompt";
}

-- `ComplianceWorkflow`
unfoldable pub compliance_kind :
    {B : Type 0} → AuditRepository B → (Value → String) → Kind B ComplianceState
compliance_kind audit render = record {
  view = λ c. c.run;
  update = λ s c. record c { run = s };
  node = elim [
    | retrieval ↦ retrieve_context_compliance audit render
    | policy_validation ↦ validate_policy_compliance audit
    | risk_scoring ↦ score_risk_compliance audit
    | guardrails ↦ apply_guardrails_compliance audit
    | decision ↦ make_compliance_decision audit
  ];
  needs_approval = λ c. c.approval_required || is_text c.run.final_decision "REQUIRE_APPROVAL";
  span_name = "compliance_workflow";
  model_name = "compliance-model";
  prompt_name = "compliance-prompt";
}

-- a setup of the compliance workflow
abbrev pub compliance_setup :
    {B C M P : Type 0}
    → AuditRepository B
    → (Value → String)
    → Setup B C ComplianceState M P
    → Setup B C ComplianceState M P
compliance_setup audit render u = record u { audit = audit; kind = compliance_kind audit render }

-- `ComplianceWorkflow.run`
unfoldable pub run_compliance :
    {B C M P : Type 0}
    → AuditRepository B
    → (Value → String)
    → Setup B C ComplianceState M P
    → RunTimes
    → ComplianceState
    → Exec (World B C) ComplianceState
run_compliance audit render u times c = run (compliance_setup audit render u) times c
