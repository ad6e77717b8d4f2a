-- ===== src/Workflow/Engine.antt =====
-- The engine of app/workflows/langgraph/risk_workflow.py, which compliance_workflow.py repeats with
-- its own nodes and names. Clock readings and identifiers are arguments. The
-- tracker and the collector of the generation log are objects of its own.
pub mod NodeRuns
unfoldable pub use NodeRuns.{
  node_done, on_trail, meter, resolve_versions, with_span, node_span, node_metrics, run_node,
  run_nodes,
}
use NodeRuns.{one}
use mathlib.Core.Option
use ai_risk_engine.Base.{
  ℕ, String, Bool, false, ◌||◌, not, Option, none, some, List, [], ◌∷◌, ◌==◌, str_eq, if◌then◌else◌,
}
use ai_risk_engine.Python.Int.{pos}
use ai_risk_engine.Python.Float.{Float, finite, float_of}
use ai_risk_engine.Python.Time.{Datetime}
use ai_risk_engine.Python.Value.{Fields, find_or, is_str, null}
use ai_risk_engine.Error.{Error}
use ai_risk_engine.Exec.{Result, ok, err, Exec, lift, pure, modify, ◌>>=◌, ◌>>◌}
use ai_risk_engine.Governance.Models.{ModelRecord, model_ref, get_model}
use ai_risk_engine.Governance.Prompts.{PromptRecord, get_prompt}
use ai_risk_engine.Observability.Metrics.{Metrics, increment, observe_latency}
use ai_risk_engine.Observability.Cost.{CostTracker, add_cost}
use ai_risk_engine.Observability.Tracing.{SpanArgs, enter_span, exit_span}
use ai_risk_engine.Observability.Langfuse.{Langfuse, log_generation}
use ai_risk_engine.Observability.Failure.{classify, category_value}
use ai_risk_engine.Observability.Evaluation.{to_dict, evaluate_decision}
use ai_risk_engine.Workflow.State.{RiskState}
use ai_risk_engine.Workflow.Setup.{
  NodeName, node_text, node_order, World, Setup, NodeTimes, RunTimes,
}

-- the double nearest to 0.01, and to 0.002
abbrev run_cost : Float
run_cost = finite (pos 5764607523034235) 59

abbrev default_rate : Float
default_rate = finite (pos 4611686018427388) 61

module _ {B C X M P : Type 0} (u : Setup B C X M P) where
  unfoldable pub root_span : RunTimes → RiskState → SpanArgs
  root_span times s = record {
    name = u.kind.span_name;
    trace_id = none;
    parent_span_id = none;
    tenant_id = some s.tenant_id;
    correlation_id = some s.correlation_id;
    model_version = none;
    prompt_version = none;
    new_span_id = times.root_span_id;
    new_trace_id = times.root_trace_id;
  }

  -- the nodes, under the root span if there is a tracing service
  unfoldable pub run_traced : RunTimes → RiskState → X → Exec (World B C) X
  unfolding root_span
  run_traced times first x w = elim w.tracing [
    | none ↦ run_nodes u times none node_order x w
    | some _ ↦
        with_span u times.root_start times.root_stop (root_span times first)
          (run_nodes u times (some (times.root_trace_id, times.root_span_id)) node_order x) w
  ]

  after_metrics : RunTimes → X → Metrics → Metrics
  after_metrics times x m = observe_latency "request_latency" times.request_latency_ms none (
      if u.kind.needs_approval x
      then increment u.ops "approval_required_count" one none none m
      else m)

  after_cost : RiskState → CostTracker → CostTracker
  after_cost s t = add_cost u.ops s.tenant_id run_cost (some s.model_version) (some s.event_id) t

  after_langfuse : RunTimes → RiskState → Langfuse → Langfuse
  after_langfuse times s c =
      (log_generation u.ops default_rate
        (record {
          event_id = s.event_id;
          tenant_id = s.tenant_id;
          prompt_version = s.prompt_version;
          model_version = s.model_version;
          input_tokens = 100;
          output_tokens = 50;
          latency_ms = times.request_latency_ms;
        })
        c).1

  -- the hooks between the nodes and the evaluation, none of which raises
  unfoldable pub observe : RunTimes → X → World B C → World B C
  unfolding after_metrics after_cost after_langfuse
  observe times x w = record w {
    metrics = Option.map (after_metrics times x) w.metrics;
    cost = Option.map (after_cost (u.kind.view x)) w.cost;
    langfuse = Option.map (after_langfuse times (u.kind.view x)) w.langfuse;
  }

  or_empty : Option String → String
  or_empty none = ""
  or_empty (some s) = s

  unfoldable pub evaluate : RunTimes → X → Exec (World B C) X
  unfolding or_empty
  evaluate times x = elim u.evaluation [
    | none ↦ pure x
    | some has_audit ↦
        let s = u.kind.view x in
        do
          result ← on_trail u (
              evaluate_decision u.ops u.audit has_audit times.evaluated (record {
                tenant_id = s.tenant_id;
                event_id = s.event_id;
                correlation_id = s.correlation_id;
                final_decision = or_empty s.final_decision;
                policy_result = or_empty s.policy_result;
                guardrail_result = or_empty s.guardrail_result;
                risk_score = s.risk_score;
              }))
          pure (u.kind.update (record s { evaluation_result = some (to_dict result) }) x)
  ]

  unfoldable pub save_state : X → Exec (World B C) (Unit {0})
  save_state x w = elim u.state_store [
    | none ↦ (ok tt, w)
    | some st ↦
        let (r, c) = st.set (u.kind.view x).event_id x w.store in (r, record w { store = c })
  ]

  unfoldable pub cached_state : String → World B C → Result (Option X)
  cached_state event_id w = elim u.state_store [
    | none ↦ ok none
    | some st ↦ st.get event_id w.store
  ]

  -- the body of the `try` where no state was cached
  unfoldable pub run_fresh : RunTimes → X → Exec (World B C) X
  run_fresh times x = do
    x₁ ← lift (resolve_versions u x)
    x₂ ← run_traced times (u.kind.view x) x₁
    modify (observe times x₂)
    x₃ ← evaluate times x₂
    save_state x₃
    pure x₃

  unfoldable pub run_body : RunTimes → X → Exec (World B C) X
  run_body times x w = elim (cached_state (u.kind.view x).event_id w) [
    | err e ↦ (err e, w)
    | ok (some cached) ↦ (ok cached, w)
    | ok none ↦ run_fresh times x w
  ]

  unfoldable pub start_metrics : RiskState → Metrics → Metrics
  start_metrics s m =
      increment u.ops "workflow_execution_count" one none none
        (increment u.ops "request_count" one (some s.tenant_id) none m)

  -- the `except` clause
  unfoldable pub count_failure : Error → World B C → World B C
  count_failure e w =
      if u.has_classifier
      then meter u
          (increment u.ops "failure_count" one none (some (category_value (classify e.class)))) w
      else w

  unfoldable pub handle_failure : Result X × World B C → Result X × World B C
  handle_failure (ok x, w) = (ok x, w)
  handle_failure (err e, w) = (err e, count_failure e w)

  -- `run`
  unfoldable pub run : RunTimes → X → Exec (World B C) X
  unfolding start_metrics handle_failure
  run times x w = handle_failure (run_body times x (meter u (start_metrics (u.kind.view x)) w))
