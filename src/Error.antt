-- ===== src/Error.antt =====
-- The exceptions of the four layers (app/domain/exceptions.py, app/application/exceptions.py,
-- app/governance/exceptions.py, app/security/exceptions.py), the built-in ones that the code
-- raises, and any other exception of a library.
use ai_risk_engine.Base.{ℕ, String, Bool, false, ◌||◌, Option, none, some, ◌==◌}

pub data ErrorClass : Type 0 where
  domain_error domain_validation_error invalid_status_transition_error : ErrorClass
  invalid_tenant_error risk_threshold_violation_error invalid_metadata_error : ErrorClass
  application_error idempotency_conflict_error messaging_failure_error : ErrorClass
  governance_error model_not_approved_error invalid_model_state_error : ErrorClass
  invalid_workflow_state_error : ErrorClass
  security_error authorization_error tenant_isolation_error encryption_error : ErrorClass
  value_error runtime_error attribute_error external_error : ErrorClass

-- The base class, of those that the program declares; `none` where that is a built-in one.
unfoldable pub base : ErrorClass → Option ErrorClass
base domain_validation_error = some domain_error
base invalid_status_transition_error = some domain_error
base invalid_tenant_error = some domain_error
base risk_threshold_violation_error = some domain_error
base invalid_metadata_error = some domain_error
base idempotency_conflict_error = some application_error
base messaging_failure_error = some application_error
base model_not_approved_error = some governance_error
base invalid_model_state_error = some governance_error
base invalid_workflow_state_error = some governance_error
base authorization_error = some security_error
base tenant_isolation_error = some security_error
base encryption_error = some security_error
base _ = none

index : ErrorClass → ℕ
index domain_error = 0
index domain_validation_error = 1
index invalid_status_transition_error = 2
index invalid_tenant_error = 3
index risk_threshold_violation_error = 4
index invalid_metadata_error = 5
index application_error = 6
index idempotency_conflict_error = 7
index messaging_failure_error = 8
index governance_error = 9
index model_not_approved_error = 10
index invalid_model_state_error = 11
index invalid_workflow_state_error = 12
index security_error = 13
index authorization_error = 14
index tenant_isolation_error = 15
index encryption_error = 16
index value_error = 17
index runtime_error = 18
index attribute_error = 19
index external_error = 20

unfoldable pub same_class : ErrorClass → ErrorClass → Bool
unfolding index
same_class a b = index a == index b

-- `isinstance(e, c)` for an exception of class `a`: no class of the program lies deeper than a
-- class and its base.
unfoldable pub is_instance : ErrorClass → ErrorClass → Bool
unfolding same_class base
is_instance a c = same_class a c || elim (base a) [ none ↦ false | some b ↦ same_class b c ]

-- An exception, with what its `message` says.
pub record Error : Type 0 where
  pub class : ErrorClass
  pub message : String

-- `raise C(message)`
abbrev pub error : ErrorClass → String → Error
error c m = record { class = c; message = m }
