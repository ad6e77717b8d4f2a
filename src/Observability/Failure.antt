-- ===== src/Observability/Failure.antt =====
-- `FailureClassifier` of app/observability/failure_classifier.py.
pub mod Categories
use ai_risk_engine.Base.{String, ◌||◌, if◌then◌else◌}
use ai_risk_engine.Error.{
  ErrorClass, domain_error, domain_validation_error, invalid_status_transition_error,
  invalid_tenant_error, risk_threshold_violation_error, invalid_metadata_error, application_error,
  idempotency_conflict_error, governance_error, model_not_approved_error, invalid_model_state_error,
  invalid_workflow_state_error, security_error, authorization_error, tenant_isolation_error,
  encryption_error, is_instance,
}

pub data FailureCategory : Type 0 where
  validation_error policy_violation high_risk workflow_error infra_error : FailureCategory
  unexpected_error : FailureCategory

unfoldable pub category_value : FailureCategory → String
category_value validation_error = "VALIDATION_ERROR"
category_value policy_violation = "POLICY_VIOLATION"
category_value high_risk = "HIGH_RISK"
category_value workflow_error = "WORKFLOW_ERROR"
category_value infra_error = "INFRA_ERROR"
category_value unexpected_error = "UNEXPECTED_ERROR"

unfoldable pub classify : ErrorClass → FailureCategory
unfolding is_instance
classify c =
    if is_instance c domain_validation_error
    then validation_error
    else if is_instance c invalid_tenant_error || is_instance c invalid_metadata_error
    then validation_error
    else if is_instance c risk_threshold_violation_error
    then high_risk
    else if is_instance c model_not_approved_error || is_instance c invalid_model_state_error
    then policy_violation
    else if is_instance c invalid_workflow_state_error
        || is_instance c invalid_status_transition_error
    then workflow_error
    else if is_instance c authorization_error || is_instance c tenant_isolation_error
    then policy_violation
    else if is_instance c encryption_error || is_instance c security_error
    then infra_error
    else if is_instance c idempotency_conflict_error || is_instance c application_error
    then workflow_error
    else if is_instance c governance_error
    then policy_violation
    else if is_instance c domain_error
    then validation_error
    else unexpected_error
