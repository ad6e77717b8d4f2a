-- ===== src/Workflow/Hooks.antt =====
-- Runs of app/workflows/langgraph/risk_workflow.py and compliance_workflow.py with and without the
-- metrics, the tracing, the cost tracker and the generation log.
use ai_risk_engine.Base.{
  String, ◌≡◌, refl, Option, none, some, List, [], ◌∷◌, arith, if◌then◌else◌, Bool-cases,
  Option-cases, inl, inr,
}
use mathlib.Core.Option
use ai_risk_engine.Python.Time.{Datetime}
use ai_risk_engine.Observability.Tracing.{SpanArgs, enter_span}
use ai_risk_engine.Exec.{Exec, Result-cases, lift, pure, modify, ◌>>=◌, ◌>>◌}
use ai_risk_engine.Workflow.State.{RiskState}
use ai_risk_engine.Workflow.Setup.{Setup, World, NodeName, RunTimes, node_order}
use ai_risk_engine.Workflow.Engine.{
  node_done, with_span, run_node, run_nodes, run_traced, observe, evaluate, save_state,
  cached_state, run_fresh, run_body, count_failure, run, resolve_versions, on_trail, meter,
  node_metrics, node_span, root_span, start_metrics,
}

-- the same world with no hook
abbrev pub bare : {B C : Type 0} → World B C → World B C
bare w = record w { metrics = none; tracing = none; cost = none; langfuse = none }

-- `m'` does without hooks what `m` does with them
abbrev Same : {B C Y : Type 0} → (m m' : Exec (World B C) Y) → Type 0
Same {B} {C} m m' = (w : World B C) → m' (bare w) ≡ ((m w).0, bare (m w).1)

module _ {B C Y Z : Type 0} where
  bind-Same :
      (m m' : Exec (World B C) Y) (f f' : Y → Exec (World B C) Z)
      → Same m m'
      → ((y : Y) → Same (f y) (f' y))
      → Same (m >>= f) (m' >>= f')
  bind-Same m m' f f' first next w = elim (Result-cases (m w).0) [
    | inl (y, e) ↦ let one = first w in let two = next y (m w).1 in ground arith
    | inr (x, e) ↦ let one = first w in ground arith
  ]

module _ {B C X M P : Type 0} (u : Setup B C X M P) where
  with_span-Same :
      (a b : Datetime) (s : SpanArgs) (m m' : Exec (World B C) X)
      → Same m m'
      → Same (with_span u a b s m) m'
  unfolding with_span
  with_span-Same a b s m m' same w =
      same (record w { tracing = Option.map (enter_span a s) w.tracing })

  run_node-Same :
      (times : RunTimes) (trace : Option (String × String)) (n : NodeName) (x : X)
      → Same (run_node u times trace n x) (run_node u times none n x)
  unfolding run_node
  run_node-Same times trace n x =
      let body : Exec (World B C) X = on_trail u (u.kind.node n (times.node n).tick x) in
      let count : X → Exec (World B C) X =
        λ out. do modify (meter u (node_metrics u n (times.node n))); pure out
      in elim trace as (λ tr. Same (run_node u times tr n x) (run_node u times none n x)) [
        | none ↦ bind-Same body body count count (λ w. refl) (λ out w. refl)
        | some (t, p) ↦
            bind-Same _ body count count
              (with_span-Same (times.node n).start (times.node n).stop
                (node_span u n (times.node n) t p (u.kind.view x)) body body (λ w. refl))
              (λ out w. refl)
      ]

  run_nodes-Same :
      (times : RunTimes) (trace : Option (String × String)) (ns : List NodeName) (x : X)
      → Same (run_nodes u times trace ns x) (run_nodes u times none ns x)
  unfolding run_nodes
  run_nodes-Same times trace [] x = λ w. refl
  run_nodes-Same times trace (n ∷ ns) x =
      bind-Same
        (if node_done (u.kind.view x).audit_trail n then pure x else run_node u times trace n x)
        (if node_done (u.kind.view x).audit_trail n then pure x else run_node u times none n x)
        (run_nodes u times trace ns) (run_nodes u times none ns)
        (elim (Bool-cases (node_done (u.kind.view x).audit_trail n)) [
          | inl e ↦ rw e (λ w. refl)
          | inr e ↦ rw e (run_node-Same times trace n x)
        ])
        (run_nodes-Same times trace ns)

  run_traced-Same :
      (times : RunTimes) (s : RiskState) (x : X)
      → Same (run_traced u times s x) (run_traced u times s x)
  unfolding run_traced
  run_traced-Same times s x w = elim (Option-cases w.tracing) [
    | inl e ↦ let same = run_nodes-Same times none node_order x w in ground arith
    | inr (t, e) ↦
        let trace : Option (String × String) = some (times.root_trace_id, times.root_span_id) in
        let same =
          with_span-Same times.root_start times.root_stop (root_span u times s)
            (run_nodes u times trace node_order x) (run_nodes u times none node_order x)
            (run_nodes-Same times trace node_order x) w in
        ground arith
  ]

  evaluate-Same : (times : RunTimes) (x : X) → Same (evaluate u times x) (evaluate u times x)
  unfolding evaluate
  evaluate-Same times x w = elim (Option-cases u.evaluation) [
    | inl e ↦ rw e refl
    | inr (has_audit, e) ↦ ground arith
  ]

  save_state-Same : (x : X) → Same (save_state u x) (save_state u x)
  unfolding save_state
  save_state-Same x w = elim (Option-cases u.state_store) [
    | inl e ↦ rw e refl
    | inr (st, e) ↦ rw e refl
  ]

  run_fresh-Same : (times : RunTimes) (x : X) → Same (run_fresh u times x) (run_fresh u times x)
  unfolding run_fresh observe
  run_fresh-Same times x =
      let saving : X → Exec (World B C) X = λ x₃. save_state u x₃ >> pure x₃ in
      let judging : X → Unit {0} → Exec (World B C) X = λ x₂ _. evaluate u times x₂ >>= saving in
      let watching : X → Exec (World B C) X = λ x₂. modify (observe u times x₂) >>= judging x₂ in
      let running : X → Exec (World B C) X =
        λ x₁. run_traced u times (u.kind.view x) x₁ >>= watching in
      let save_same : (x₃ : X) → Same (saving x₃) (saving x₃) = λ x₃.
        bind-Same (save_state u x₃) (save_state u x₃) (λ _. pure x₃) (λ _. pure x₃)
          (save_state-Same x₃) (λ _ w. refl) in
      let judge_same : (x₂ : X) (o : Unit {0}) → Same (judging x₂ o) (judging x₂ o) = λ x₂ _.
        bind-Same (evaluate u times x₂) (evaluate u times x₂) saving saving (evaluate-Same times x₂)
          save_same in
      let watch_same : (x₂ : X) → Same (watching x₂) (watching x₂) = λ x₂.
        bind-Same (modify (observe u times x₂)) (modify (observe u times x₂)) (judging x₂)
          (judging x₂) (λ w. refl) (judge_same x₂) in
      let run_same : (x₁ : X) → Same (running x₁) (running x₁) = λ x₁.
        bind-Same (run_traced u times (u.kind.view x) x₁) (run_traced u times (u.kind.view x) x₁)
          watching watching (run_traced-Same times (u.kind.view x) x₁) watch_same in
      bind-Same (lift (resolve_versions u x)) (lift (resolve_versions u x)) running running
        (λ w. refl) run_same

  run_body-Same : (times : RunTimes) (x : X) → Same (run_body u times x) (run_body u times x)
  unfolding run_body cached_state
  run_body-Same times x w = elim (Result-cases (cached_state u (u.kind.view x).event_id w)) [
    | inr (e, failed) ↦ ground arith
    | inl (none, got) ↦ let same = run_fresh-Same times x w in ground arith
    | inl (some c, got) ↦ ground arith
  ]

  -- Whichever of the metrics, the tracing, the cost tracker and the generation log are given and
  -- whatever they hold, a run without these four, with the evaluation and the failure classifier as
  -- they are, has the same result, the same audit trail and the same stored states.
  pub run-hooks_add_only :
      (times : RunTimes) (x : X) (w : World B C)
      → run u times x (bare w) ≡ ((run u times x w).0, bare (run u times x w).1)
  unfolding run count_failure
  run-hooks_add_only times x w =
      let v = meter u (start_metrics u (u.kind.view x)) w in
      let same = run_body-Same times x v in
      elim (Result-cases (run_body u times x v).0) [
        | inl (y, e) ↦ ground arith
        | inr (y, e) ↦ elim (Bool-cases u.has_classifier) [
          | inl c ↦ ground arith
          | inr c ↦ ground arith
        ]
      ]
