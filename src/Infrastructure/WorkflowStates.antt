-- ===== src/Infrastructure/WorkflowStates.antt =====
-- `RedisWorkflowStateStore` of app/workflows/langgraph/workflow_state_store.py, which implements both
-- protocols of that file. The JSON of a state is written and read by the schema library.
use ai_risk_engine.Base.{ℕ, String, ◌≡◌, Option, none, some, [], ◌∷◌, arith}
use ai_risk_engine.Python.Text.{f_string}
use ai_risk_engine.Exec.{Result, ok, err, Exec}
use ai_risk_engine.Infrastructure.Redis.{Redis, set_cache, get_cache, set_cache-get_cache}
use ai_risk_engine.Workflow.State.{RiskState, ComplianceState}
use ai_risk_engine.Workflow.Setup.{StateStore}

-- `model_dump_json` and `model_validate_json`. The latter reads back what the former wrote of a state
-- that JSON can hold; a float that is not finite, for one, is written as null.
pub record StateCodec (X : Type 0) : Type 1 where
  pub to_json : X → String
  pub from_json : String → Result X
  pub IsJson : X → Type 0
  pub from_json_to_json : (x : X) → IsJson x → from_json (to_json x) ≡ ok x

abbrev pub ttl_seconds : ℕ
ttl_seconds = 3600

-- `_key` and `_compliance_key`
abbrev pub risk_key : String → String → String
risk_key key_prefix event_id = f_string (key_prefix ∷ ":" ∷ event_id ∷ [])

abbrev pub compliance_key : String → String → String
compliance_key key_prefix event_id = f_string (key_prefix ∷ ":compliance:" ∷ event_id ∷ [])

-- A pair of getter and setter, over the keys that they use.
module _ {D X : Type 0} (redis : Redis D) (codec : StateCodec X) (key : String → String) where
  unfoldable pub get_state : String → D → Result (Option X)
  get_state event_id d = elim (get_cache redis (key event_id) d) [
    | err e ↦ err e
    | ok none ↦ ok none
    | ok (some raw) ↦ elim (codec.from_json raw) [ err e ↦ err e | ok x ↦ ok (some x) ]
  ]

  unfoldable pub set_state : String → X → Exec D (Unit {0})
  set_state event_id x = set_cache redis (key event_id) (codec.to_json x) ttl_seconds

  -- A state of JSON that has been stored is read back, as long as it is stored.
  pub set_state-get_state :
      (event_id : String) (x : X) (d : D)
      → codec.IsJson x
      → (set_state event_id x d).0 ≡ ok tt
      → get_state event_id (set_state event_id x d).1 ≡ ok (some x)
  unfolding set_state get_state
  set_state-get_state event_id x d json stored =
      let there = set_cache-get_cache redis (key event_id) (codec.to_json x) ttl_seconds d stored in
      let read = codec.from_json_to_json x json in ground arith

-- The state store of a workflow, over states that are all of JSON. `get_risk_state` and `set_risk_state`
unfoldable pub risk_states :
    {D : Type 0} (redis : Redis D) (codec : StateCodec RiskState)
    → ((x : RiskState) → codec.IsJson x)
    → String
    → StateStore D RiskState
unfolding get_state set_state
risk_states redis codec all_json key_prefix = record {
  get = get_state redis codec (risk_key key_prefix);
  set = set_state redis codec (risk_key key_prefix);
  set_ok = λ event_id x d.
      set_state-get_state redis codec (risk_key key_prefix) event_id x d (all_json x);
}

-- `get_compliance_state` and `set_compliance_state`
unfoldable pub compliance_states :
    {D : Type 0} (redis : Redis D) (codec : StateCodec ComplianceState)
    → ((x : ComplianceState) → codec.IsJson x)
    → String
    → StateStore D ComplianceState
unfolding get_state set_state
compliance_states redis codec all_json key_prefix = record {
  get = get_state redis codec (compliance_key key_prefix);
  set = set_state redis codec (compliance_key key_prefix);
  set_ok = λ event_id x d.
      set_state-get_state redis codec (compliance_key key_prefix) event_id x d (all_json x);
}
