-- ===== src/Observability/Evaluation.antt =====
-- `EvaluationService` of app/observability/evaluation.py.
use ai_risk_engine.Base.{String, Bool, true, false, Option, none, some, str_eq, if◌then◌else◌}
use ai_risk_engine.Python.Int.{pos}
use ai_risk_engine.Python.Float.{Float, float_of, is_zero_float}
use ai_risk_engine.Python.Time.{Datetime}
use ai_risk_engine.Python.Value.{Fields, end, field, obj, float}
use ai_risk_engine.Exec.{Exec, pure, ◌>>◌}
use ai_risk_engine.Governance.Audit.{AuditRepository, LogEntry, log_action}
use ai_risk_engine.Observability.Arithmetic.{Arithmetic, zero_float}

pub record EvaluationResult : Type 0 where
  pub confidence_score : Float
  pub policy_alignment_score : Float
  pub guardrail_score : Float
  pub overall_quality_score : Float

-- `EvaluationResult.to_dict`
unfoldable pub to_dict : EvaluationResult → Fields
to_dict r = field "confidence_score" (float r.confidence_score) (
    field "policy_alignment_score" (float r.policy_alignment_score) (
      field "guardrail_score" (float r.guardrail_score)
        (field "overall_quality_score" (float r.overall_quality_score) end)))

-- `x or 0`, as a float
unfoldable pub or_zero : Option Float → Float
or_zero none = zero_float
or_zero (some x) = if is_zero_float x then zero_float else x

one : Float
one = float_of (pos 1)

-- The arguments of `evaluate_decision` that the scores depend on, and those for the audit entry.
pub record Subject : Type 0 where
  pub tenant_id : String
  pub event_id : String
  pub correlation_id : String
  pub final_decision : String
  pub policy_result : String
  pub guardrail_result : String
  pub risk_score : Option Float

module _ (ops : Arithmetic) where
  unfoldable pub scores : Subject → EvaluationResult
  unfolding one
  scores q =
      let policy_ok = if str_eq q.policy_result "PASS" then one else zero_float in
      let guardrail_ok = if str_eq q.guardrail_result "OK" then one else zero_float in
      let risk_normalized = ops.sub one (ops.div (or_zero q.risk_score) (float_of (pos 100))) in
      let three = float_of (pos 3) in
      let confidence = ops.div (ops.add (ops.add policy_ok guardrail_ok) risk_normalized) three in
      let overall = ops.div (ops.add (ops.add confidence policy_ok) guardrail_ok) three in
      record {
        confidence_score = ops.round confidence 4;
        policy_alignment_score = ops.round policy_ok 4;
        guardrail_score = ops.round guardrail_ok 4;
        overall_quality_score = ops.round overall 4;
      }

  -- The audit entry of an evaluation.
  unfoldable pub evaluation_entry : Subject → LogEntry
  evaluation_entry q = record {
    actor = "evaluation_service";
    tenant_id = q.tenant_id;
    action = "evaluation_completed";
    resource_type = "workflow";
    resource_id = q.event_id;
    reason = some "quality_scoring";
    correlation_id = q.correlation_id;
    metadata = some (field "evaluation" (obj (to_dict (scores q))) end);
  }

  -- `evaluate_decision`; the service may have been built without an audit logger.
  unfoldable pub evaluate_decision :
      {B : Type 0}
      → AuditRepository B
      → (has_audit : Bool) → Datetime
      → Subject
      → Exec B EvaluationResult
  evaluate_decision audit true now q = do log_action audit now (evaluation_entry q); pure (scores q)
  evaluate_decision audit false now q = pure (scores q)
