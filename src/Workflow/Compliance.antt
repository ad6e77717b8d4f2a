-- ===== src/Workflow/Compliance.antt =====
-- The nodes of the compliance workflow: app/workflows/langgraph/nodes/compliance_nodes.py. The first
-- four repeat the risk nodes on the fields that both states have.
use ai_risk_engine.Base.{String, Bool, true, false, ◌||◌, some, List, [], ◌∷◌, if◌then◌else◌}
use ai_risk_engine.Python.Value.{Value, end, field, str, bool}
use ai_risk_engine.Exec.{Exec, pure, ◌>>=◌, ◌>>◌}
use ai_risk_engine.Governance.Audit.{AuditRepository, log_action}
use ai_risk_engine.Workflow.State.{ComplianceState}
use ai_risk_engine.Workflow.Nodes.{
  Tick, trail_entry, node_entry, add_trail, escalates, retrieve_context, validate_policy,
  score_risk, apply_guardrails,
}

-- `len(flags or []) > 0`
unfoldable pub has_flags : List String → Bool
has_flags [] = false
has_flags (_ ∷ _) = true

-- the four tests of the compliance decision
unfoldable pub escalates_compliance : ComplianceState → Bool
unfolding has_flags
escalates_compliance c = escalates c.run || has_flags c.regulatory_flags

module _ {B : Type 0} (audit : AuditRepository B) where
  unfoldable pub retrieve_context_compliance :
      (Value → String) → Tick → ComplianceState → Exec B ComplianceState
  retrieve_context_compliance render tick c = do
    s ← retrieve_context audit render tick c.run
    pure (record c { run = s })

  unfoldable pub validate_policy_compliance : Tick → ComplianceState → Exec B ComplianceState
  validate_policy_compliance tick c = do
    s ← validate_policy audit tick c.run
    pure (record c { run = s })

  unfoldable pub score_risk_compliance : Tick → ComplianceState → Exec B ComplianceState
  score_risk_compliance tick c = do s ← score_risk audit tick c.run; pure (record c { run = s })

  unfoldable pub apply_guardrails_compliance : Tick → ComplianceState → Exec B ComplianceState
  apply_guardrails_compliance tick c = do
    s ← apply_guardrails audit tick c.run
    pure (record c { run = s })

  unfoldable pub make_compliance_decision : Tick → ComplianceState → Exec B ComplianceState
  make_compliance_decision tick c = do
    let approval_required = escalates_compliance c
    let final_decision = if approval_required then "REQUIRE_APPROVAL" else "APPROVED"
    let extra =
        field "final_decision" (str final_decision)
          (field "approval_required" (bool approval_required) end)
    log_action audit tick.logged (node_entry tick "decision_made" "compliance_decision" c.run extra)
    let s = c.run
    pure (record c {
      run = record s {
        final_decision = some final_decision;
        audit_trail = add_trail s (trail_entry tick "decision" "decision_made" s extra);
      };
      approval_required = approval_required;
    })
