-- ===== src/Workflow/Engine/NodeRuns.antt =====
-- The nodes of a run, one after the other, as `run_all_nodes` of app/workflows/langgraph/risk_workflow.py
-- and of compliance_workflow.py has them, and the versions that a run starts with.
use mathlib.Core.Option
use ai_risk_engine.Base.{
  ℕ, String, Bool, false, ◌||◌, not, Option, none, some, List, [], ◌∷◌, ◌==◌, str_eq, if◌then◌else◌,
}
use ai_risk_engine.Python.Int.{pos}
use ai_risk_engine.Python.Float.{Float, float_of}
use ai_risk_engine.Python.Time.{Datetime}
use ai_risk_engine.Python.Value.{Fields, find_or, is_str, null}
use ai_risk_engine.Exec.{Result, ok, err, Exec, pure, modify, ◌>>=◌, ◌>>◌}
use ai_risk_engine.Governance.Models.{ModelRecord, model_ref, get_model}
use ai_risk_engine.Governance.Prompts.{PromptRecord, get_prompt}
use ai_risk_engine.Observability.Metrics.{Metrics, increment, observe_latency}
use ai_risk_engine.Observability.Tracing.{SpanArgs, enter_span, exit_span}
use ai_risk_engine.Workflow.State.{RiskState}
use ai_risk_engine.Workflow.Setup.{NodeName, node_text, World, Setup, NodeTimes, RunTimes}

abbrev default_model_version : String
default_model_version = "simulated@1"

abbrev default_prompt_version : ℕ
default_prompt_version = 1

abbrev pub one : Float
one = float_of (pos 1)

-- `_node_done`
unfoldable pub node_done : List Fields → NodeName → Bool
node_done [] n = false
node_done (e ∷ es) n = is_str (find_or "node" null e) (node_text n) || node_done es n

module _ {B C X M P : Type 0} (u : Setup B C X M P) where
  abbrev pub on_trail : {Y : Type 0} → Exec B Y → Exec (World B C) Y
  on_trail m w = let (r, b) = m w.trail in (r, record w { trail = b })

  abbrev pub meter : (Metrics → Metrics) → World B C → World B C
  meter f w = record w { metrics = Option.map f w.metrics }

  resolved_model : Result (Option ModelRecord) → String
  resolved_model (ok (some r)) = model_ref r.model_name r.version
  resolved_model (ok none) = default_model_version
  resolved_model (err _) = default_model_version

  model_version : String
  unfolding resolved_model
  model_version = elim u.models [
    | none ↦ default_model_version
    | some m ↦ resolved_model (get_model u.model_repository u.kind.model_name none m)
  ]

  resolved_prompt : Option PromptRecord → ℕ
  resolved_prompt none = default_prompt_version
  resolved_prompt (some r) = r.version

  prompt_version : Result ℕ
  unfolding resolved_prompt
  prompt_version = elim u.prompts [
    | none ↦ ok default_prompt_version
    | some p ↦ elim (get_prompt u.prompt_repository u.kind.prompt_name none p) [
      | ok found ↦ ok (resolved_prompt found)
      | err e ↦ err e
    ]
  ]

  -- `_resolve_versions`; an error of the model registry is swallowed, one of the prompt registry is
  -- not.
  unfoldable pub resolve_versions : X → Result X
  unfolding model_version prompt_version
  resolve_versions x = elim prompt_version [
    | err e ↦ err e
    | ok v ↦
        let s = u.kind.view x in
        ok (
          if not (str_eq s.model_version model_version) || not (s.prompt_version == v)
          then u.kind.update (record s { model_version = model_version; prompt_version = v }) x
          else x)
  ]

  -- `async with self._tracing.start_span(...)`: the span is closed however the body ends.
  unfoldable pub with_span :
      Datetime → Datetime → SpanArgs → Exec (World B C) X → Exec (World B C) X
  with_span start stop args body w =
      let (r, w') = body (record w { tracing = Option.map (enter_span start args) w.tracing }) in
      (r, record w' { tracing = Option.map (exit_span args.new_span_id stop) w'.tracing })

  unfoldable pub node_span : NodeName → NodeTimes → String → String → RiskState → SpanArgs
  node_span n t trace_id parent s = record {
    name = node_text n;
    trace_id = some trace_id;
    parent_span_id = some parent;
    tenant_id = some s.tenant_id;
    correlation_id = some s.correlation_id;
    model_version = some s.model_version;
    prompt_version = some s.prompt_version;
    new_span_id = t.span_id;
    new_trace_id = trace_id;
  }

  unfoldable pub node_metrics : NodeName → NodeTimes → Metrics → Metrics
  node_metrics n t m = increment u.ops "prompt_usage_count" one none none (
      increment u.ops "model_usage_count" one none none
        (observe_latency "node_execution_latency" t.elapsed_ms (some (node_text n)) m))

  -- `run_node`, on the current state. `trace` is the id of the trace and of the root span.
  unfoldable pub run_node : RunTimes → Option (String × String) → NodeName → X → Exec (World B C) X
  unfolding node_span node_metrics
  run_node times trace n x =
      let t = times.node n in
      let body : Exec (World B C) X = on_trail (u.kind.node n t.tick x) in
      do
        out ← elim trace [
          | none ↦ body
          | some (trace_id, parent) ↦
              with_span t.start t.stop (node_span n t trace_id parent (u.kind.view x)) body
        ]
        modify (meter (node_metrics n t))
        pure out

  -- `run_all_nodes`: the nodes that the trail does not show, in order
  unfoldable pub run_nodes :
      RunTimes → Option (String × String) → List NodeName → X → Exec (World B C) X
  run_nodes times trace [] x = pure x
  run_nodes times trace (n ∷ ns) x = do
    x' ← if node_done (u.kind.view x).audit_trail n then pure x else run_node times trace n x
    run_nodes times trace ns x'
