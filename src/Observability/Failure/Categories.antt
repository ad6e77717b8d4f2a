-- ===== src/Observability/Failure/Categories.antt =====
-- The category of each exception (app/observability/failure_classifier.py).
use ai_risk_engine.Base.{◌≡◌, refl}
use ai_risk_engine.Error.{
  ErrorClass, domain_error, domain_validation_error, invalid_status_transition_error,
  invalid_tenant_error, risk_threshold_violation_error, invalid_metadata_error, application_error,
  idempotency_conflict_error, messaging_failure_error, governance_error, model_not_approved_error,
  invalid_model_state_error, invalid_workflow_state_error, security_error, authorization_error,
  tenant_isolation_error, encryption_error, value_error, runtime_error, attribute_error,
  external_error,
}
use ai_risk_engine.Observability.Failure.{
  FailureCategory, validation_error, policy_violation, high_risk, workflow_error, infra_error,
  unexpected_error, classify,
}

-- The taxonomy as a table over all exceptions.
abbrev pub category : ErrorClass → FailureCategory
category domain_error = validation_error
category domain_validation_error = validation_error
category invalid_tenant_error = validation_error
category invalid_metadata_error = validation_error
category risk_threshold_violation_error = high_risk
category invalid_status_transition_error = workflow_error
category invalid_workflow_state_error = workflow_error
category application_error = workflow_error
category idempotency_conflict_error = workflow_error
category messaging_failure_error = workflow_error
category governance_error = policy_violation
category model_not_approved_error = policy_violation
category invalid_model_state_error = policy_violation
category authorization_error = policy_violation
category tenant_isolation_error = policy_violation
category security_error = infra_error
category encryption_error = infra_error
category value_error = unexpected_error
category runtime_error = unexpected_error
category attribute_error = unexpected_error
category external_error = unexpected_error

-- The chain of `isinstance` tests gives every class of exception its category in the taxonomy: no
-- test hides the category of a more special class, and only exceptions that the program does not
-- declare are unexpected.
pub classify-eq-category : (c : ErrorClass) → classify c ≡ category c
unfolding classify
classify-eq-category domain_error = refl
classify-eq-category _ = refl
