-- ===== src/Workflow/Decides.antt =====
-- What the risk workflow of app/workflows/langgraph decides for an event: its nodes, run in the order
-- of `NODE_ORDER` by the engine of risk_workflow.py.
pub mod Steps
pub mod Compliance
use ai_risk_engine.Base.{
  String, Bool, true, false, ◌||◌, ◌≡◌, refl, Option, none, some, List, [], ◌∷◌, arith,
  if◌then◌else◌, Bool-cases, inl, inr,
}
use ai_risk_engine.Python.Float.{Float, is_zero_float, leb_float}
use ai_risk_engine.Python.Value.{
  Value, Fields, end, find_or, is_str, str, truthy, bool, find, null, field, float,
}
use ai_risk_engine.Python.Text.{f_string}
use ai_risk_engine.Exec.{bind-ok, ok}
use ai_risk_engine.Governance.Audit.{AuditRecord, AuditRepository, log_action, audit_record}
use ai_risk_engine.Workflow.State.{RiskState}
use ai_risk_engine.Workflow.Nodes.{
  Tick, format, node_entry, add_trail, trail_entry, metadata_of, policy_fails, score_of, violates,
  escalates, retrieve_context, validate_policy, score_risk, apply_guardrails, make_decision,
  over_threshold, score_or_zero,
}
use ai_risk_engine.Workflow.Setup.{
  Setup, World, NodeName, retrieval, policy_validation, risk_scoring, guardrails, decision,
  RunTimes, node_order,
}
use ai_risk_engine.Workflow.Engine.{run_node, run_nodes, node_done, with_span}
use ai_risk_engine.Workflow.Kinds.{risk_kind}
use ai_risk_engine.Workflow.Decides.Steps.{
  flagged, fresh, scored, retrieved, validated, guarded, decided, run_nodes-next, escalates-flagged,
  retrieve_context-ok, validate_policy-ok, apply_guardrails-ok, make_decision-ok, score_risk-ok,
}

-- a setup of the risk workflow
abbrev pub risk_setup :
    {B C M P : Type 0}
    → AuditRepository B
    → (Value → String)
    → Setup B C RiskState M P
    → Setup B C RiskState M P
risk_setup audit render u = record u { audit = audit; kind = risk_kind audit render }

module _ {B : Type 0} (audit : AuditRepository B) (render : Value → String) (m : Fields)
    (saves : (r : AuditRecord) (b : B) → (audit.save r b).0 ≡ ok tt) where
  abbrev final_state : RunTimes → RiskState → RiskState
  final_state times s = decided (times.node decision).tick (
      guarded (times.node guardrails).tick m (
        scored (times.node risk_scoring).tick m (
          validated (times.node policy_validation).tick m
            (retrieved render (times.node retrieval).tick (fresh s)))))

  module _ {C M P : Type 0} (u : Setup B C RiskState M P) where
    run_nodes-final :
        (times : RunTimes) (trace : Option (String × String)) (s : RiskState) (w : World B C)
        → metadata_of s.raw_event ≡ ok m
        → (run_nodes (risk_setup audit render u) times trace node_order (fresh s) w).0
          ≡ ok (final_state times s)
    unfolding node_done trail_entry find_or find is_str risk_kind run_nodes
    run_nodes-final times trace s w dict =
        let s₁ = retrieved render (times.node retrieval).tick (fresh s) in
        let s₂ = validated (times.node policy_validation).tick m s₁ in
        let s₃ = scored (times.node risk_scoring).tick m s₂ in
        let s₄ = guarded (times.node guardrails).tick m s₃ in
        let end_state = final_state times s in
        let next = run_nodes-next (risk_setup audit render u) times trace in
        next retrieval (policy_validation ∷ risk_scoring ∷ guardrails ∷ decision ∷ []) (fresh s) s₁
          end_state w refl
          (λ v.
            retrieve_context-ok audit render m saves (times.node retrieval).tick (fresh s) v.trail)
          (λ v₁.
            next policy_validation (risk_scoring ∷ guardrails ∷ decision ∷ []) s₁ s₂ end_state v₁
              refl
              (λ v.
                validate_policy-ok audit render m saves (times.node policy_validation).tick s₁
                  v.trail dict)
              (λ v₂.
                next risk_scoring (guardrails ∷ decision ∷ []) s₂ s₃ end_state v₂ refl
                  (λ v.
                    score_risk-ok audit render m saves (times.node risk_scoring).tick s₂ v.trail
                      dict)
                  (λ v₃.
                    next guardrails (decision ∷ []) s₃ s₄ end_state v₃ refl
                      (λ v.
                        apply_guardrails-ok audit render m saves (times.node guardrails).tick s₃
                          v.trail dict)
                      (λ v₄.
                        next decision [] s₄ end_state end_state v₄ refl
                          (λ v.
                            make_decision-ok audit render m saves (times.node decision).tick s₄
                              v.trail)
                          (λ v₅. refl)))))

    -- Where the audit repository stores every record and the metadata of the event is a dict or is
    -- left out, the nodes that are run from a state with an empty trail return, whatever the clocks
    -- and the hooks, and ask for an approval exactly if the event is of type `high_risk`, overrides a
    -- policy, is of category `sensitive`, or has a blocked pattern.
    pub run_nodes-decides :
        (times : RunTimes) (trace : Option (String × String)) (s : RiskState) (w : World B C)
        → metadata_of s.raw_event ≡ ok m
        → (s' : RiskState) × ((run_nodes
              (risk_setup audit render u)
              times
              trace
              node_order
              (fresh s)
              w).0
            ≡ ok s')
          × (s'.final_decision
              ≡ some (if flagged s.raw_event m then "REQUIRE_APPROVAL" else "APPROVED"))
    run_nodes-decides times trace s w dict = (
      final_state times s,
      run_nodes-final times trace s w dict,
      rw
          (escalates-flagged (times.node guardrails).tick (times.node risk_scoring).tick
            (times.node policy_validation).tick m
            (retrieved render (times.node retrieval).tick (fresh s)))
          refl,
    )
