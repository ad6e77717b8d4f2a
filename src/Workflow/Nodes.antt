-- ===== src/Workflow/Nodes.antt =====
-- The nodes of the risk workflow: app/workflows/langgraph/nodes/retrieval.py, policy_validation.py,
-- risk_scoring.py, guardrails.py and decision.py.
use ai_risk_engine.Base.{
  String, Bool, true, false, ◌||◌, Option, none, some, List, [], ◌∷◌, ◌++◌, str_eq, if◌then◌else◌,
}
use ai_risk_engine.Python.Int.{pos}
use ai_risk_engine.Python.Float.{Float, float_of, leb_float, is_zero_float}
use ai_risk_engine.Python.Text.{f_string, decimal_ℤ}
use ai_risk_engine.Python.Time.{Datetime}
use ai_risk_engine.Python.Value.{
  Value, Fields, null, bool, int, float, str, arr, obj, opaque, end, field, truthy, find_or, is_str,
}
use ai_risk_engine.Error.{error, attribute_error}
use ai_risk_engine.Exec.{Result, ok, err, Exec, lift, pure, ◌>>=◌, ◌>>◌}
use ai_risk_engine.Governance.Audit.{AuditRepository, LogEntry, log_action}
use ai_risk_engine.Workflow.State.{RiskState}

abbrev pub workflow_actor : String
workflow_actor = "workflow"

abbrev pub high_risk_threshold : Float
high_risk_threshold = float_of (pos 75)

-- What a node reads from the clocks: the time in its trail entry as text, the elapsed time rounded
-- to two digits, and the time of its audit record.
pub record Tick : Type 0 where
  pub at : String
  pub execution_ms : Float
  pub logged : Datetime

-- The entry that a node appends to the trail; `extra` is what the node found.
unfoldable pub trail_entry : Tick → (node action : String) → RiskState → Fields → Fields
trail_entry tick node action s extra = field "node" (str node) (
    field "action" (str action) (
      field "at" (str tick.at) (
        field "model_version" (str s.model_version) (
          field "prompt_version" (int (pos s.prompt_version))
            (field "execution_ms" (float tick.execution_ms) extra)))))

-- The audit entry of a node.
unfoldable pub node_entry : Tick → (action reason : String) → RiskState → Fields → LogEntry
node_entry tick action reason s extra = record {
  actor = workflow_actor;
  tenant_id = s.tenant_id;
  action = action;
  resource_type = "workflow";
  resource_id = s.event_id;
  reason = some reason;
  correlation_id = s.correlation_id;
  metadata = some (
      field "model_version" (str s.model_version) (
        field "prompt_version" (int (pos s.prompt_version))
          (field "execution_ms" (float tick.execution_ms) extra)));
}

abbrev pub add_trail : RiskState → Fields → List Fields
add_trail s e = s.audit_trail ++ e ∷ []

-- `raw.get("metadata") or {}`, of which the nodes call `get`: only a dict has that method.
unfoldable pub metadata_of : Fields → Result Fields
metadata_of raw =
    let m = find_or "metadata" null raw in
    if truthy m
    then elim m [ obj fs ↦ ok fs | _ ↦ err (error attribute_error "object has no attribute 'get'") ]
    else ok end

-- The text of a value in an f-string. `render` writes floats, lists, dicts and other objects.
unfoldable pub format : (Value → String) → Value → String
format render null = "None"
format render (bool true) = "True"
format render (bool false) = "False"
format render (int n) = decimal_ℤ n
format render (str s) = s
format render (float x) = render (float x)
format render (arr xs) = render (arr xs)
format render (obj fs) = render (obj fs)
format render (opaque b) = render (opaque b)

unfoldable pub policy_fails : Fields → Bool
policy_fails metadata =
    truthy (find_or "policy_override" (bool false) metadata)
    || is_str (find_or "category" (str "") metadata) "sensitive"

unfoldable pub score_of : Value → Fields → Float
score_of event_type metadata =
    if is_str event_type "high_risk"
    then float_of (pos 85)
    else if is_str (find_or "category" null metadata) "sensitive"
    then float_of (pos 70)
    else if is_str event_type "low_risk"
    then float_of (pos 15)
    else float_of (pos 30)

-- `risk_score or 0.0`
unfoldable pub score_or_zero : Option Float → Float
score_or_zero none = float_of (pos 0)
score_or_zero (some x) = if is_zero_float x then float_of (pos 0) else x

unfoldable pub over_threshold : Option Float → Bool
unfolding score_or_zero
over_threshold o = leb_float high_risk_threshold (score_or_zero o)

unfoldable pub violates : Fields → Option Float → Bool
violates metadata risk_score =
    truthy (find_or "blocked_pattern" (bool false) metadata) || over_threshold risk_score

abbrev pub is_text : Option String → String → Bool
is_text none t = false
is_text (some s) t = str_eq s t

-- the three tests of the decision node
unfoldable pub escalates : RiskState → Bool
escalates s =
    is_text s.policy_result "FAIL"
    || over_threshold s.risk_score
    || is_text s.guardrail_result "VIOLATION"

module _ {B : Type 0} (audit : AuditRepository B) where
  unfoldable pub retrieve_context : (Value → String) → Tick → RiskState → Exec B RiskState
  retrieve_context render tick s =
      let event_type = find_or "event_type" (str "unknown") s.raw_event in
      let context =
        f_string ("simulated_context:" ∷ s.tenant_id ∷ ":" ∷ format render event_type ∷ []) in
      do
        log_action audit tick.logged
            (node_entry tick "context_retrieved" "vector_retrieval_simulated" s end)
        pure (record s {
          retrieved_context = some context;
          audit_trail = add_trail s (trail_entry tick "retrieval" "context_retrieved" s end);
        })

  unfoldable pub validate_policy : Tick → RiskState → Exec B RiskState
  validate_policy tick s = do
    metadata ← lift (metadata_of s.raw_event)
    let policy_result = if policy_fails metadata then "FAIL" else "PASS"
    let extra = field "policy_result" (str policy_result) end
    log_action audit tick.logged
        (node_entry tick "policy_validated" "rule_based_validation" s extra)
    pure (record s {
      policy_result = some policy_result;
      audit_trail = add_trail s (trail_entry tick "policy_validation" "policy_validated" s extra);
    })

  unfoldable pub score_risk : Tick → RiskState → Exec B RiskState
  score_risk tick s = do
    let event_type = find_or "event_type" (str "standard") s.raw_event
    metadata ← lift (if is_str event_type "high_risk" then ok end else metadata_of s.raw_event)
    let risk_score = score_of event_type metadata
    let extra = field "risk_score" (float risk_score) end
    log_action audit tick.logged (node_entry tick "risk_scored" "deterministic_scoring" s extra)
    pure (record s {
      risk_score = some risk_score;
      audit_trail = add_trail s (trail_entry tick "risk_scoring" "risk_scored" s extra);
    })

  unfoldable pub apply_guardrails : Tick → RiskState → Exec B RiskState
  apply_guardrails tick s = do
    metadata ← lift (metadata_of s.raw_event)
    let guardrail_result = if violates metadata s.risk_score then "VIOLATION" else "OK"
    let extra = field "guardrail_result" (str guardrail_result) end
    log_action audit tick.logged
        (node_entry tick "guardrails_applied" "threshold_and_pattern_check" s extra)
    pure (record s {
      guardrail_result = some guardrail_result;
      audit_trail = add_trail s (trail_entry tick "guardrails" "guardrails_applied" s extra);
    })

  unfoldable pub make_decision : Tick → RiskState → Exec B RiskState
  make_decision tick s = do
    let final_decision = if escalates s then "REQUIRE_APPROVAL" else "APPROVED"
    let extra = field "final_decision" (str final_decision) end
    log_action audit tick.logged (node_entry tick "decision_made" "deterministic_decision" s extra)
    pure (record s {
      final_decision = some final_decision;
      audit_trail = add_trail s (trail_entry tick "decision" "decision_made" s extra);
    })
