-- ===== src/Observability/Tracing.antt =====
-- `TracingService` of app/observability/tracing.py. A span object stands in its trace and among the
-- active spans at once; here it stands in the trace, and the active spans are ids. Identifiers and
-- times are arguments.
use ai_risk_engine.Base.{ℕ, String, Option, none, some, List, [], ◌∷◌, ◌++◌, str_eq, if◌then◌else◌}
use mathlib.Core.List.{map}
use ai_risk_engine.Python.Int.{pos}
use ai_risk_engine.Python.Time.{Datetime}
use ai_risk_engine.Python.Value.{Fields, end, put, str, int}

pub record Span : Type 0 where
  pub span_id : String
  pub trace_id : String
  pub name : String
  pub parent_span_id : Option String
  pub start_time_utc : Datetime
  pub end_time_utc : Option Datetime
  pub attributes : Fields

pub record Trace : Type 0 where
  pub trace_id : String
  pub spans : List Span

-- `Trace.get_span`
find_span : String → List Span → Option Span
find_span k [] = none
find_span k (s ∷ rest) = if str_eq s.span_id k then some s else find_span k rest

unfoldable pub get_span : String → Trace → Option Span
unfolding find_span
get_span k t = find_span k t.spans

-- the last of the span stack is its first element
pub record Tracing : Type 0 where
  pub traces : List Trace
  pub active_spans : List String
  pub span_stack : List String

abbrev pub empty : Tracing
empty = record { traces = []; active_spans = []; span_stack = [] }

-- The arguments of `start_span`, with the identifiers that it draws.
pub record SpanArgs : Type 0 where
  pub name : String
  pub trace_id : Option String
  pub parent_span_id : Option String
  pub tenant_id : Option String
  pub correlation_id : Option String
  pub model_version : Option String
  pub prompt_version : Option ℕ
  pub new_span_id : String
  pub new_trace_id : String

put_text : String → Option String → Fields → Fields
put_text k none fs = fs
put_text k (some s) fs = put k (str s) fs

put_number : String → Option ℕ → Fields → Fields
put_number k none fs = fs
put_number k (some n) fs = put k (int (pos n)) fs

unfoldable pub span_attributes : SpanArgs → Fields
unfolding put_text put_number
span_attributes a = put_number "prompt_version" a.prompt_version (
    put_text "model_version" a.model_version
      (put_text "correlation_id" a.correlation_id (put_text "tenant_id" a.tenant_id end)))

unfoldable pub span_trace_id : SpanArgs → String
span_trace_id a = elim a.trace_id [ none ↦ a.new_trace_id | some t ↦ t ]

unfoldable pub new_span : Datetime → SpanArgs → Span
new_span start a = record {
  span_id = a.new_span_id;
  trace_id = span_trace_id a;
  name = a.name;
  parent_span_id = a.parent_span_id;
  start_time_utc = start;
  end_time_utc = none;
  attributes = span_attributes a;
}

-- The span joins the trace of its id, which is made if it is not there.
unfoldable pub record_span : Span → List Trace → List Trace
record_span s [] = record { trace_id = s.trace_id; spans = s ∷ [] } ∷ []
record_span s (t ∷ ts) =
    if str_eq t.trace_id s.trace_id
    then record t { spans = t.spans ++ s ∷ [] } ∷ ts
    else t ∷ record_span s ts

-- `start_span` up to its `yield`
unfoldable pub enter_span : Datetime → SpanArgs → Tracing → Tracing
enter_span start a t =
    let span = new_span start a in
    record {
      traces = record_span span t.traces;
      active_spans = t.active_spans ++ a.new_span_id ∷ [];
      span_stack = a.new_span_id ∷ t.span_stack;
    }

close : String → Datetime → Span → Span
close k now s = if str_eq s.span_id k then record s { end_time_utc = some now } else s

close_in : String → Datetime → Trace → Trace
unfolding close
close_in k now t = record t { spans = map (close k now) t.spans }

unfoldable pub pop_if : String → List String → List String
pop_if k [] = []
pop_if k (top ∷ rest) = if str_eq top k then rest else top ∷ rest

without : String → List String → List String
without k [] = []
without k (j ∷ rest) = let kept = without k rest in if str_eq j k then kept else j ∷ kept

-- the `finally` of `start_span`
unfoldable pub exit_span : String → Datetime → Tracing → Tracing
unfolding close_in pop_if without
exit_span k now t = record {
  traces = map (close_in k now) t.traces;
  active_spans = without k t.active_spans;
  span_stack = pop_if k t.span_stack;
}

unfoldable pub get_traces : Tracing → List Trace
get_traces t = t.traces

find_trace : String → List Trace → Option Trace
find_trace k [] = none
find_trace k (t ∷ rest) = if str_eq t.trace_id k then some t else find_trace k rest

unfoldable pub get_trace : String → Tracing → Option Trace
unfolding find_trace
get_trace k t = find_trace k t.traces

unfoldable pub reset : Tracing → Tracing
reset t = empty
