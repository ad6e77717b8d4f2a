-- ===== src/Workflow/Tests.antt =====
-- The theorems on app/workflows/langgraph at concrete runs. The arithmetic of the tests keeps the
-- first operand, and the state store is a list.
use ai_risk_engine.Base.{
  String, ◌≡◌, refl, true, false, ◌||◌, Option, none, some, List, [], ◌∷◌, str_eq, eq_iff,
  if◌then◌else◌,
}
use ai_risk_engine.Python.Int.{pos}
use ai_risk_engine.Python.Float.{is_zero_float, leb_float, Float, float_of}
use ai_risk_engine.Python.Value.{is_str, Value, Fields, field, end, str, obj, truthy, find, find_or}
use ai_risk_engine.Exec.{Result, ok, err}
use ai_risk_engine.Governance.Audit.{log_action, AuditRecord}
use ai_risk_engine.Governance.Models.{ModelRecord}
use ai_risk_engine.Governance.Prompts.{PromptRecord}
use ai_risk_engine.Governance.InMemory.{trail_repository, model_repository, prompt_repository}
use ai_risk_engine.Observability.Arithmetic.{Arithmetic}
use ai_risk_engine.Observability.Metrics
use ai_risk_engine.Workflow.State.{RiskState, ComplianceState}
use ai_risk_engine.Workflow.Nodes.{
  retrieve_context, validate_policy, score_risk, apply_guardrails, make_decision, trail_entry,
  policy_fails, score_of, violates, escalates, over_threshold, score_or_zero, Tick, metadata_of,
}
use ai_risk_engine.Workflow.Setup.{Setup, StateStore, World, RunTimes, node_order}
use ai_risk_engine.Workflow.Engine.{
  run_body, run_fresh, resolve_versions, run_traced, run_node, node_done, observe, evaluate,
  save_state, meter, start_metrics, run_nodes, run, cached_state,
}
use ai_risk_engine.Workflow.Kinds.{risk_kind, compliance_kind, compliance_setup}
use ai_risk_engine.Workflow.Compliance.{has_flags}
use ai_risk_engine.Workflow.Decides.{risk_setup, run_nodes-decides}
use ai_risk_engine.Workflow.Decides.Steps.{flagged, fresh}
use ai_risk_engine.Workflow.Decides.Compliance.{with_run, compliance_nodes-decide}
use ai_risk_engine.Workflow.Hooks.{bare, run-hooks_add_only}
use ai_risk_engine.Workflow.Spans.{stack, run-keeps_stack}
use ai_risk_engine.Workflow.Cache.{run-idempotent}

abbrev ops : Arithmetic
ops = record { add = λ x y. x; sub = λ x y. x; mul = λ x y. x; div = λ x y. x; round = λ x n. x }

abbrev States : Type 0
States = List (String × RiskState)

unfoldable find_state : String → States → Option RiskState
find_state k [] = none
find_state k ((j, s) ∷ rest) = if str_eq j k then some s else find_state k rest

unfoldable state_store : StateStore States RiskState
unfolding find_state
state_store = record {
  get = λ k c. ok (find_state k c);
  set = λ k s c. (ok tt, (k, s) ∷ c);
  set_ok = λ k s c h. rw ((eq_iff k k).1 refl) refl;
}

abbrev render : Value → String
render v = "a value"

abbrev setup : Setup (List AuditRecord) States RiskState (List ModelRecord) (List PromptRecord)
setup = record {
  kind = risk_kind trail_repository render;
  ops = ops;
  audit = trail_repository;
  state_store = some state_store;
  model_repository = model_repository;
  models = none;
  prompt_repository = prompt_repository;
  prompts = none;
  evaluation = none;
  has_classifier = true;
}

abbrev zero_float : Float
zero_float = float_of (pos 0)

abbrev tick : Tick
tick = record { at = "noon"; execution_ms = zero_float; logged = 1 }

abbrev times : RunTimes
times = record {
  node = λ n. record { tick = tick; elapsed_ms = zero_float; span_id = "s"; start = 1; stop = 2 };
  root_span_id = "r";
  root_trace_id = "t";
  root_start = 1;
  root_stop = 2;
  request_latency_ms = zero_float;
  evaluated = 3;
}

abbrev metadata : Fields
metadata = field "category" (str "sensitive") end

abbrev state : RiskState
state = record {
  event_id = "e1";
  tenant_id = "acme";
  correlation_id = "c1";
  raw_event = field "metadata" (obj metadata) end;
  retrieved_context = none;
  policy_result = none;
  risk_score = none;
  guardrail_result = none;
  final_decision = none;
  model_version = "simulated@1";
  prompt_version = 1;
  audit_trail = [];
  idempotency_key = none;
  evaluation_result = none;
}

abbrev world : World (List AuditRecord) States
world = record {
  trail = [];
  store = [];
  metrics = some Metrics.empty;
  tracing = none;
  cost = none;
  langfuse = none;
}

trail_saves : (r : AuditRecord) (b : List AuditRecord) → (trail_repository.save r b).0 ≡ ok tt
unfolding trail_repository
trail_saves r b = refl

metadata-read : metadata_of state.raw_event ≡ ok metadata
unfolding metadata_of find_or find truthy
metadata-read = refl

run_nodes-decides_example :
    (s' : RiskState) × ((run_nodes
        (risk_setup trail_repository render setup)
        times
        none
        node_order
        (fresh state)
        world).0
      ≡ ok s')
    × (s'.final_decision
        ≡ some (if flagged state.raw_event metadata then "REQUIRE_APPROVAL" else "APPROVED"))
run_nodes-decides_example =
    run_nodes-decides trail_repository render metadata trail_saves setup times none state world
      metadata-read

run-hooks_add_only_example :
    run setup times state (bare world)
    ≡ ((run setup times state world).0, bare (run setup times state world).1)
run-hooks_add_only_example = run-hooks_add_only setup times state world

abbrev traced : World (List AuditRecord) States
traced = record world {
  tracing = some (record { traces = []; active_spans = []; span_stack = "request" ∷ [] });
}

run-keeps_stack_example : stack (run setup times state traced).1 ≡ some ("request" ∷ [])
run-keeps_stack_example = run-keeps_stack setup times state traced

abbrev result_or : RiskState → Result RiskState → RiskState
result_or s (ok r) = r
result_or s (err _) = s

abbrev final_state : RiskState
final_state = result_or state (run setup times state world).0

abbrev final_world : World (List AuditRecord) States
final_world = (run setup times state world).1

not_stored : cached_state setup "e1" world ≡ ok none
unfolding cached_state state_store find_state
not_stored = refl

run-returns : run setup times state world ≡ (ok final_state, final_world)
unfolding run run_body cached_state state_store find_state run_fresh resolve_versions run_traced
    run_nodes run_node node_done observe evaluate save_state risk_kind retrieve_context
    validate_policy score_risk apply_guardrails make_decision log_action trail_repository
    metadata_of find_or find truthy trail_entry is_str policy_fails score_of violates escalates
    over_threshold score_or_zero is_zero_float leb_float
run-returns = refl

same_event : state.event_id ≡ final_state.event_id
unfolding run run_body cached_state state_store find_state run_fresh resolve_versions run_traced
    run_nodes run_node node_done observe evaluate save_state risk_kind retrieve_context
    validate_policy score_risk apply_guardrails make_decision log_action trail_repository
    metadata_of find_or find truthy trail_entry is_str policy_fails score_of violates escalates
    over_threshold score_or_zero is_zero_float leb_float
same_event = refl

run-idempotent_example :
    run setup times state final_world
    ≡ (ok final_state, meter setup (start_metrics setup state) final_world)
unfolding risk_kind
run-idempotent_example =
    run-idempotent setup state_store refl times state final_state world final_world times state
      not_stored run-returns same_event

abbrev compliance_state : ComplianceState
compliance_state = record { run = state; regulatory_flags = "gdpr" ∷ []; approval_required = false }

abbrev base_setup :
    Setup (List AuditRecord) States ComplianceState (List ModelRecord) (List PromptRecord)
base_setup = record {
  kind = compliance_kind trail_repository render;
  ops = ops;
  audit = trail_repository;
  state_store = none;
  model_repository = model_repository;
  models = none;
  prompt_repository = prompt_repository;
  prompts = none;
  evaluation = none;
  has_classifier = true;
}

compliance_nodes-decide_example :
    let asks = flagged state.raw_event metadata || has_flags compliance_state.regulatory_flags in
    (c' : ComplianceState) × ((run_nodes
        (compliance_setup trail_repository render base_setup)
        times
        none
        node_order
        (with_run compliance_state (fresh state))
        world).0
      ≡ ok c')
    × (c'.approval_required ≡ asks)
    × (c'.run.final_decision ≡ some (if asks then "REQUIRE_APPROVAL" else "APPROVED"))
compliance_nodes-decide_example =
    compliance_nodes-decide trail_repository render metadata trail_saves base_setup times none
      compliance_state world metadata-read
