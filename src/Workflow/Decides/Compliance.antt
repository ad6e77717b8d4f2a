-- ===== src/Workflow/Decides/Compliance.antt =====
-- What the compliance workflow of app/workflows/langgraph decides for an event: the nodes of
-- nodes/compliance_nodes.py, run in the order of `NODE_ORDER`.
use ai_risk_engine.Base.{String, Bool, ◌||◌, ◌≡◌, refl, Option, some, [], ◌∷◌, arith, if◌then◌else◌}
use ai_risk_engine.Python.Value.{Value, Fields, end, field, str, bool, is_str, find, find_or}
use ai_risk_engine.Exec.{Exec, pure, ok, bind-ok}
use ai_risk_engine.Governance.Audit.{AuditRecord, AuditRepository, log_action, audit_record}
use ai_risk_engine.Workflow.State.{RiskState, ComplianceState}
use ai_risk_engine.Workflow.Nodes.{
  Tick, node_entry, add_trail, trail_entry, metadata_of, retrieve_context, validate_policy,
  score_risk, apply_guardrails,
}
use ai_risk_engine.Workflow.Compliance.{
  has_flags, escalates_compliance, retrieve_context_compliance, validate_policy_compliance,
  score_risk_compliance, apply_guardrails_compliance, make_compliance_decision,
}
use ai_risk_engine.Workflow.Setup.{
  Setup, World, retrieval, policy_validation, risk_scoring, guardrails, decision, RunTimes,
  node_order,
}
use ai_risk_engine.Workflow.Engine.{run_nodes, node_done}
use ai_risk_engine.Workflow.Kinds.{compliance_kind, compliance_setup}
use ai_risk_engine.Workflow.Decides.Steps.{
  flagged, fresh, scored, retrieved, validated, guarded, run_nodes-next, escalates-flagged,
  retrieve_context-ok, validate_policy-ok, apply_guardrails-ok, score_risk-ok,
}

-- a compliance state with another run
abbrev pub with_run : ComplianceState → RiskState → ComplianceState
with_run c s = record c { run = s }

abbrev answer : Bool → String
answer escalates = if escalates then "REQUIRE_APPROVAL" else "APPROVED"

abbrev decided_fields : Bool → Fields
decided_fields escalates =
    field "final_decision" (str (answer escalates)) (field "approval_required" (bool escalates) end)

abbrev decided : Tick → ComplianceState → ComplianceState
decided tick c =
    let s = c.run in
    let b = escalates_compliance c in
    record c {
      run = record s {
        final_decision = some (answer b);
        audit_trail =
            add_trail s (trail_entry tick "decision" "decision_made" s (decided_fields b));
      };
      approval_required = b;
    }

module _ {B : Type 0} (audit : AuditRepository B) (render : Value → String) (m : Fields)
    (saves : (r : AuditRecord) (b : B) → (audit.save r b).0 ≡ ok tt) where
  abbrev back : ComplianceState → RiskState → Exec B ComplianceState
  back c s = pure (with_run c s)

  retrieve-ok :
      (tick : Tick) (c : ComplianceState) (b : B)
      → (retrieve_context_compliance audit render tick c b).0
        ≡ ok (with_run c (retrieved render tick c.run))
  unfolding retrieve_context_compliance
  retrieve-ok tick c b =
      bind-ok (retrieve_context audit render tick c.run) (back c) b (retrieved render tick c.run) _
        (retrieve_context-ok audit render m saves tick c.run b) refl

  validate-ok :
      (tick : Tick) (c : ComplianceState) (b : B)
      → metadata_of c.run.raw_event ≡ ok m
      → (validate_policy_compliance audit tick c b).0 ≡ ok (with_run c (validated tick m c.run))
  unfolding validate_policy_compliance
  validate-ok tick c b dict =
      bind-ok (validate_policy audit tick c.run) (back c) b (validated tick m c.run) _
        (validate_policy-ok audit render m saves tick c.run b dict) refl

  score-ok :
      (tick : Tick) (c : ComplianceState) (b : B)
      → metadata_of c.run.raw_event ≡ ok m
      → (score_risk_compliance audit tick c b).0 ≡ ok (with_run c (scored tick m c.run))
  unfolding score_risk_compliance
  score-ok tick c b dict =
      bind-ok (score_risk audit tick c.run) (back c) b (scored tick m c.run) _
        (score_risk-ok audit render m saves tick c.run b dict) refl

  guard-ok :
      (tick : Tick) (c : ComplianceState) (b : B)
      → metadata_of c.run.raw_event ≡ ok m
      → (apply_guardrails_compliance audit tick c b).0 ≡ ok (with_run c (guarded tick m c.run))
  unfolding apply_guardrails_compliance
  guard-ok tick c b dict =
      bind-ok (apply_guardrails audit tick c.run) (back c) b (guarded tick m c.run) _
        (apply_guardrails-ok audit render m saves tick c.run b dict) refl

  decide-ok :
      (tick : Tick) (c : ComplianceState) (b : B)
      → (make_compliance_decision audit tick c b).0 ≡ ok (decided tick c)
  unfolding make_compliance_decision log_action
  decide-ok tick c b =
      let saved =
        saves
          (audit_record tick.logged (
            node_entry tick "decision_made" "compliance_decision" c.run
              (decided_fields (escalates_compliance c))))
          b in
      ground arith

  abbrev fresh_run : ComplianceState → ComplianceState
  fresh_run c = with_run c (fresh c.run)

  abbrev last_run : RunTimes → ComplianceState → RiskState
  last_run times c = guarded (times.node guardrails).tick m (
      scored (times.node risk_scoring).tick m (
        validated (times.node policy_validation).tick m
          (retrieved render (times.node retrieval).tick (fresh c.run))))

  module _ {C M P : Type 0} (u : Setup B C ComplianceState M P) where
    compliance_nodes-final :
        (times : RunTimes) (trace : Option (String × String)) (c : ComplianceState) (w : World B C)
        → metadata_of c.run.raw_event ≡ ok m
        → (run_nodes (compliance_setup audit render u) times trace node_order (fresh_run c) w).0
          ≡ ok (decided (times.node decision).tick (with_run c (last_run times c)))
    unfolding node_done trail_entry find_or find is_str compliance_kind run_nodes
    compliance_nodes-final times trace c w dict =
        let s₁ = retrieved render (times.node retrieval).tick (fresh c.run) in
        let s₂ = validated (times.node policy_validation).tick m s₁ in
        let s₃ = scored (times.node risk_scoring).tick m s₂ in
        let s₄ = guarded (times.node guardrails).tick m s₃ in
        let end_state = decided (times.node decision).tick (with_run c s₄) in
        let next = run_nodes-next (compliance_setup audit render u) times trace in
        next retrieval (policy_validation ∷ risk_scoring ∷ guardrails ∷ decision ∷ []) (fresh_run c)
          (with_run c s₁) end_state w refl
          (λ v. retrieve-ok (times.node retrieval).tick (fresh_run c) v.trail)
          (λ v₁.
            next policy_validation (risk_scoring ∷ guardrails ∷ decision ∷ []) (with_run c s₁)
              (with_run c s₂) end_state v₁ refl
              (λ v. validate-ok (times.node policy_validation).tick (with_run c s₁) v.trail dict)
              (λ v₂.
                next risk_scoring (guardrails ∷ decision ∷ []) (with_run c s₂) (with_run c s₃)
                  end_state v₂ refl
                  (λ v. score-ok (times.node risk_scoring).tick (with_run c s₂) v.trail dict)
                  (λ v₃.
                    next guardrails (decision ∷ []) (with_run c s₃) (with_run c s₄) end_state v₃
                      refl (λ v. guard-ok (times.node guardrails).tick (with_run c s₃) v.trail dict)
                      (λ v₄.
                        next decision [] (with_run c s₄) end_state end_state v₄ refl
                          (λ v. decide-ok (times.node decision).tick (with_run c s₄) v.trail)
                          (λ v₅. refl)))))

    -- Where the audit repository stores every record and the metadata of the event is a dict or is
    -- left out, the nodes of the compliance workflow that are run from a state with an empty trail
    -- return, and ask for an approval exactly if the risk workflow would for this event or the state
    -- has a regulatory flag; the field for a required approval and the decision say the same.
    pub compliance_nodes-decide :
        (times : RunTimes) (trace : Option (String × String)) (c : ComplianceState) (w : World B C)
        → metadata_of c.run.raw_event ≡ ok m
        → let asks = flagged c.run.raw_event m || has_flags c.regulatory_flags in
          (c' : ComplianceState) × ((run_nodes
              (compliance_setup audit render u)
              times
              trace
              node_order
              (fresh_run c)
              w).0
            ≡ ok c')
          × (c'.approval_required ≡ asks)
          × (c'.run.final_decision ≡ some (if asks then "REQUIRE_APPROVAL" else "APPROVED"))
    unfolding escalates_compliance
    compliance_nodes-decide times trace c w dict =
        let same =
          escalates-flagged (times.node guardrails).tick (times.node risk_scoring).tick
            (times.node policy_validation).tick m
            (retrieved render (times.node retrieval).tick (fresh c.run)) in
        (
          decided (times.node decision).tick (with_run c (last_run times c)),
          compliance_nodes-final times trace c w dict,
          rw same refl,
          rw same refl,
        )
