-- ===== src/Domain/Status.antt =====
-- `EventStatus` and the transition table of app/domain/models/event.py.
use ai_risk_engine.Base.{ℕ, String, Bool, false, ◌||◌, List, [], ◌∷◌, ◌==◌, if◌then◌else◌}
use ai_risk_engine.Python.Text.{f_string}
use ai_risk_engine.Error.{error, invalid_status_transition_error}
use ai_risk_engine.Exec.{Result, ok, err}

pub data EventStatus : Type 0 where
  received created validated processing approved rejected failed : EventStatus

unfoldable pub value : EventStatus → String
value received = "received"
value created = "created"
value validated = "validated"
value processing = "processing"
value approved = "approved"
value rejected = "rejected"
value failed = "failed"

index : EventStatus → ℕ
index received = 0
index created = 1
index validated = 2
index processing = 3
index approved = 4
index rejected = 5
index failed = 6

-- `s in frozenset(...)`
unfoldable pub contains : EventStatus → List EventStatus → Bool
unfolding index
contains s [] = false
contains s (t ∷ ts) = index s == index t || contains s ts

unfoldable pub status_transitions : EventStatus → List EventStatus
status_transitions received = validated ∷ rejected ∷ []
status_transitions created = validated ∷ rejected ∷ []
status_transitions validated = processing ∷ []
status_transitions processing = approved ∷ rejected ∷ failed ∷ []
status_transitions approved = []
status_transitions rejected = []
status_transitions failed = []

abbrev pub transition_message : EventStatus → EventStatus → String
transition_message current new =
    f_string ("Invalid status transition from " ∷ value current ∷ " to " ∷ value new ∷ [])

-- `_validate_transition`
unfoldable pub validate_transition : EventStatus → EventStatus → Result (Unit {0})
unfolding contains status_transitions
validate_transition current new =
    if contains new (status_transitions current)
    then ok tt
    else err (error invalid_status_transition_error (transition_message current new))
