-- ===== src/Domain/Event.antt =====
-- The event entities of app/domain/models/event.py.
use ai_risk_engine.Base.{String, Option, List, [], ◌∷◌}
use ai_risk_engine.Python.Float.{Float}
use ai_risk_engine.Python.Time.{Datetime}
use ai_risk_engine.Python.Value.{Fields}
use ai_risk_engine.Exec.{Exec, lift, modify, ◌>>◌, pure}
use ai_risk_engine.Domain.Status.{EventStatus, validate_transition}

pub record BaseEvent : Type 0 where
  pub event_id : String
  pub tenant_id : String
  pub status : EventStatus
  pub created_at : Datetime
  pub metadata : Option Fields

pub record RiskEvent : Type 0 where
  pub base : BaseEvent
  pub risk_score : Option Float
  pub category : Option String

pub record ComplianceEvent : Type 0 where
  pub base : BaseEvent
  pub regulation_ref : Option String
  pub compliance_type : Option String

-- An instance of `BaseEvent`, by its class.
pub data Event : Type 0 where
  plain : BaseEvent → Event
  risk : RiskEvent → Event
  compliance : ComplianceEvent → Event

unfoldable pub base_of : Event → BaseEvent
base_of (plain e) = e
base_of (risk e) = e.base
base_of (compliance e) = e.base

-- `type(event).__name__`
unfoldable pub type_name : Event → String
type_name (plain _) = "BaseEvent"
type_name (risk _) = "RiskEvent"
type_name (compliance _) = "ComplianceEvent"

-- `BaseEvent.transition_to` changes the status in place.
unfoldable pub transition_to : EventStatus → Exec BaseEvent (Unit {0})
transition_to new_status e =
    (do
      lift (validate_transition e.status new_status)
      modify (λ x. record x { status = new_status }))
      e

-- Calls of `transition_to`, one after the other; the first that raises ends the sequence.
unfoldable pub transition_all : List EventStatus → Exec BaseEvent (Unit {0})
transition_all [] = pure tt
transition_all (s ∷ rest) = do transition_to s; transition_all rest
