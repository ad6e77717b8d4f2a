-- ===== src/Workflow/Spans.antt =====
-- The span stack of app/observability/tracing.py over a run of app/workflows/langgraph.
use mathlib.Core.Option
use ai_risk_engine.Base.{
  String, ◌≡◌, refl, ap, ◌∙◌, inl, inr, Option, none, some, List, [], ◌∷◌, arith, eq_iff,
  Bool-cases, Option-cases,
}
use ai_risk_engine.Python.Time.{Datetime}
use ai_risk_engine.Exec.{Result, ok, err, Exec, Result-cases, lift, pure, modify, ◌>>=◌, ◌>>◌}
use ai_risk_engine.Observability.Tracing.{Tracing, SpanArgs, enter_span, exit_span, pop_if}
use ai_risk_engine.Workflow.State.{RiskState}
use ai_risk_engine.Workflow.Setup.{NodeName, World, Setup, RunTimes, node_order}
use ai_risk_engine.Workflow.Engine.{
  node_done, on_trail, meter, resolve_versions, with_span, node_span, node_metrics, run_node,
  run_nodes, root_span, run_traced, observe, evaluate, save_state, cached_state, run_fresh,
  run_body, start_metrics, count_failure, handle_failure, run,
}

module _ {B C : Type 0} where
  -- The ids of the spans that are open, the innermost first, if there is a tracing service.
  abbrev pub stack : World B C → Option (List String)
  stack w = Option.map (λ t. t.span_stack) w.tracing

  abbrev Keeps : {Y : Type 0} → Exec (World B C) Y → Type 0
  Keeps m = (w : World B C) → stack (m w).1 ≡ stack w

  bind-Keeps :
      {Y Z : Type 0} (m : Exec (World B C) Y) (f : Y → Exec (World B C) Z)
      → Keeps m
      → ((y : Y) → Keeps (f y))
      → Keeps (m >>= f)
  bind-Keeps m f first rest w = elim (Result-cases (m w).0) [
    | inl (y, done) ↦
        let same : (m >>= f) w ≡ f y (m w).1 = ground arith in rw same (rest y (m w).1 ∙ first w)
    | inr (e, failed) ↦ let same : ((m >>= f) w).1 ≡ (m w).1 = ground arith in rw same (first w)
  ]

exit-enter :
    (k : String) (now : Datetime) (t : Tracing) (rest : List String)
    → t.span_stack ≡ k ∷ rest
    → (exit_span k now t).span_stack ≡ rest
unfolding exit_span pop_if
exit-enter k now t rest top = let same = (eq_iff k k).1 refl in ground arith

-- the stack of a service, if there is one, after a span is left
exit-some :
    (k : String) (now : Datetime) (o : Option Tracing) (rest : List String)
    → Option.map (λ t. t.span_stack) o ≡ some (k ∷ rest)
    → Option.map (λ t. t.span_stack) (Option.map (exit_span k now) o) ≡ some rest
exit-some k now none rest top = absurd (ground arith)
exit-some k now (some t) rest top = ap some (exit-enter k now t rest (ground arith))

exit-none :
    (k : String) (now : Datetime) (o : Option Tracing)
    → Option.map (λ t. t.span_stack) o ≡ none
    → Option.map (λ t. t.span_stack) (Option.map (exit_span k now) o) ≡ none
exit-none k now none off = refl
exit-none k now (some t) off = absurd (ground arith)

module _ {B C X M P : Type 0} (u : Setup B C X M P) where
  with_span-Keeps :
      (start stop : Datetime) (args : SpanArgs) (body : Exec (World B C) X)
      → Keeps body
      → Keeps (with_span u start stop args body)
  unfolding with_span enter_span
  with_span-Keeps start stop args body kept w = elim (Option-cases w.tracing) [
    | inl off ↦
        let w' = record w { tracing = Option.map (enter_span start args) w.tracing } in
        let below : stack w' ≡ none = rw off refl in
        exit-none args.new_span_id stop (body w').1.tracing (kept w' ∙ below) ∙ rw off refl
    | inr (t, on) ↦
        let w' = record w { tracing = Option.map (enter_span start args) w.tracing } in
        let below : stack w' ≡ some (args.new_span_id ∷ t.span_stack) = rw on refl in
        exit-some args.new_span_id stop (body w').1.tracing t.span_stack (kept w' ∙ below)
        ∙ rw on refl
  ]

  run_node-Keeps :
      (times : RunTimes) (trace : Option (String × String)) (n : NodeName) (x : X)
      → Keeps (run_node u times trace n x)
  unfolding run_node
  run_node-Keeps times none n x w =
      bind-Keeps (on_trail u (u.kind.node n (times.node n).tick x))
        (λ out. modify (meter u (node_metrics u n (times.node n))) >> pure out) (λ v. refl)
        (λ out v. refl) w
  run_node-Keeps times (some (t, parent)) n x w =
      let body : Exec (World B C) X = on_trail u (u.kind.node n (times.node n).tick x) in
      let args = node_span u n (times.node n) t parent (u.kind.view x) in
      bind-Keeps (with_span u (times.node n).start (times.node n).stop args body)
        (λ out. modify (meter u (node_metrics u n (times.node n))) >> pure out)
        (with_span-Keeps (times.node n).start (times.node n).stop args body (λ v. refl))
        (λ out v. refl) w

  run_nodes-Keeps :
      (times : RunTimes) (trace : Option (String × String)) (ns : List NodeName) (x : X)
      → Keeps (run_nodes u times trace ns x)
  unfolding run_nodes
  run_nodes-Keeps times trace [] x w = refl
  run_nodes-Keeps times trace (n ∷ ns) x w =
      elim (Bool-cases (node_done (u.kind.view x).audit_trail n)) [
        | inl done ↦ rw done (run_nodes-Keeps times trace ns x w)
        | inr new ↦ rw new (
            bind-Keeps (run_node u times trace n x) (run_nodes u times trace ns)
              (run_node-Keeps times trace n x) (run_nodes-Keeps times trace ns) w)
      ]

  run_traced-Keeps :
      (times : RunTimes) (first : RiskState) (x : X) → Keeps (run_traced u times first x)
  unfolding run_traced
  run_traced-Keeps times first x w = elim (Option-cases w.tracing) [
    | inl off ↦
        let same : run_traced u times first x w ≡ run_nodes u times none node_order x w =
          ground arith in
        rw same (run_nodes-Keeps times none node_order x w)
    | inr (t, on) ↦
        let trace = some (times.root_trace_id, times.root_span_id) in
        let nodes : Exec (World B C) X = run_nodes u times trace node_order x in
        let same : run_traced u times first x w
            ≡ with_span u times.root_start times.root_stop (root_span u times first) nodes w =
          ground arith in
        rw same (
          with_span-Keeps times.root_start times.root_stop (root_span u times first) nodes
            (run_nodes-Keeps times trace node_order x) w)
  ]

  evaluate-Keeps : (times : RunTimes) (x : X) → Keeps (evaluate u times x)
  unfolding evaluate
  evaluate-Keeps times x w = elim (Option-cases u.evaluation) [
    | inl off ↦ rw off refl
    | inr (has_audit, on) ↦ ground arith
  ]

  save_state-Keeps : (x : X) → Keeps (save_state u x)
  unfolding save_state
  save_state-Keeps x w = elim (Option-cases u.state_store) [
    | inl off ↦ rw off refl
    | inr (st, on) ↦ rw on refl
  ]

  run_fresh-Keeps : (times : RunTimes) (x : X) → Keeps (run_fresh u times x)
  unfolding run_fresh observe
  run_fresh-Keeps times x =
      let saving : X → Exec (World B C) X = λ x₃. save_state u x₃ >> pure x₃ in
      let judging : X → Exec (World B C) X = λ x₂. evaluate u times x₂ >>= saving in
      let watching : X → Exec (World B C) X = λ x₂. modify (observe u times x₂) >> judging x₂ in
      let running : X → Exec (World B C) X =
        λ x₁. run_traced u times (u.kind.view x) x₁ >>= watching in
      bind-Keeps (lift (resolve_versions u x)) running (λ v. refl)
        (λ x₁.
          bind-Keeps (run_traced u times (u.kind.view x) x₁) watching
            (run_traced-Keeps times (u.kind.view x) x₁)
            (λ x₂.
              bind-Keeps (modify (observe u times x₂)) (λ _. judging x₂) (λ v. refl)
                (λ _. bind-Keeps (evaluate u times x₂) saving (evaluate-Keeps times x₂) (λ x₃.
                  bind-Keeps (save_state u x₃) (λ _. pure x₃) (save_state-Keeps x₃)
                    (λ _ v. refl)))))

  run_body-Keeps : (times : RunTimes) (x : X) → Keeps (run_body u times x)
  unfolding run_body cached_state
  run_body-Keeps times x w = elim (Result-cases (cached_state u (u.kind.view x).event_id w)) [
    | inl (none, missed) ↦ let same = run_fresh-Keeps times x w in ground arith
    | inl (some y, hit) ↦ ground arith
    | inr (e, failed) ↦ ground arith
  ]

  handled-keeps_stack : (p : Result X × World B C) → stack (handle_failure u p).1 ≡ stack p.1
  unfolding handle_failure count_failure
  handled-keeps_stack (ok x, w) = refl
  handled-keeps_stack (err e, w) = elim (Bool-cases u.has_classifier) [
    | inl on ↦ rw on refl
    | inr off ↦ rw off refl
  ]

  -- Whether a run returns a state or raises an error, the span stack of the tracing service, if there
  -- is one, holds after the run the ids that it held before it, in the same order.
  pub run-keeps_stack :
      (times : RunTimes) (x : X) (w : World B C) → stack (run u times x w).1 ≡ stack w
  unfolding run
  run-keeps_stack times x w =
      handled-keeps_stack (run_body u times x (meter u (start_metrics u (u.kind.view x)) w))
      ∙ run_body-Keeps times x (meter u (start_metrics u (u.kind.view x)) w)
