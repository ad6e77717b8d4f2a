-- ===== src/Domain/Tests.antt =====
-- The theorems on app/domain at concrete events and requests.
use ai_risk_engine.Base.{String, ◌≡◌, ◌↔◌, ◌⊎◌, refl, true, none, some, List, [], ◌∷◌}
use ai_risk_engine.Python.Int.{pos}
use ai_risk_engine.Python.Float.{Float, float_of, leb_float}
use ai_risk_engine.Exec.{ok}
use ai_risk_engine.Domain.Status.{
  EventStatus, created, validated, processing, approved, rejected, validate_transition,
}
use ai_risk_engine.Domain.Event.{BaseEvent, transition_to, transition_all}
use ai_risk_engine.Domain.Schema.{
  RiskEventCreateRequest, conforms_risk, score_in_range, metadata_is_json,
}
use ai_risk_engine.Domain.Validators.{validate_risk_event_create_request}
use ai_risk_engine.Domain.Lifecycle.{Step, refusal, transition_to_outcome}
use ai_risk_engine.Domain.Requests.{IsValidRisk, validate_risk_event_create_request_iff}

abbrev new_event : BaseEvent
new_event = record {
  event_id = "e1";
  tenant_id = "acme";
  status = created;
  created_at = 1;
  metadata = none;
}

abbrev whole_life : List EventStatus
whole_life = validated ∷ processing ∷ approved ∷ []

whole_life-returns : (transition_all whole_life new_event).0 ≡ ok tt
unfolding transition_all transition_to validate_transition
whole_life-returns = refl

whole_life-ends : (transition_all whole_life new_event).1.status ≡ approved
unfolding transition_all transition_to validate_transition
whole_life-ends = refl

transition_to_outcome_example :
    (Step created rejected
      × (transition_to rejected new_event ≡ (ok tt, record new_event { status = rejected })))
    ⊎ (¬ (Step created rejected)
        × (transition_to rejected new_event ≡ (refusal created rejected, new_event)))
transition_to_outcome_example = transition_to_outcome rejected new_event

abbrev show : Float → String
show x = "a number"

abbrev request : RiskEventCreateRequest
request = record {
  tenant_id = "acme";
  risk_score = some (float_of (pos 100));
  category = none;
  metadata = none;
  version = "1.0";
}

validate_risk_event_create_request_iff_example :
    (validate_risk_event_create_request show request ≡ ok tt) ↔ IsValidRisk request
validate_risk_event_create_request_iff_example = validate_risk_event_create_request_iff show request

request-conforms : conforms_risk request ≡ true
unfolding conforms_risk score_in_range metadata_is_json leb_float
request-conforms = refl
