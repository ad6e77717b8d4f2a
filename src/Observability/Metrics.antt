-- ===== src/Observability/Metrics.antt =====
-- `MetricsCollector` of app/observability/metrics.py. A method runs under the collector's lock, so
-- it is one step.
use ai_risk_engine.Base.{ℕ, String, Option, none, some, List, [], ◌∷◌, ◌++◌, length}
use mathlib.Core.List.{foldl, map}
use ai_risk_engine.Python.Float.{Float}
use ai_risk_engine.Python.Text.{f_string}
use ai_risk_engine.Python.Dict.{Dict, get_or, insert}
use ai_risk_engine.Observability.Arithmetic.{Arithmetic, zero_float}

pub record Metrics : Type 0 where
  pub counters : Dict Float
  pub counters_by_labels : Dict (Dict Float)
  pub histograms : Dict (List Float)

abbrev pub empty : Metrics
empty = record { counters = []; counters_by_labels = []; histograms = [] }

abbrev pub tenant_key : String → String → String
tenant_key name tenant_id = f_string (name ∷ ":tenant=" ∷ tenant_id ∷ [])

abbrev pub category_key : String → String → String
category_key name category = f_string (name ∷ ":category=" ∷ category ∷ [])

module _ (ops : Arithmetic) where
  -- `d[key] = d.get(key, 0) + value`
  unfoldable pub bump : String → Float → Dict Float → Dict Float
  bump key value d = insert key (ops.add (get_or key zero_float d) value) d

  add_labelled : String → String → Float → Metrics → Metrics
  add_labelled name key value m = record m {
    counters_by_labels =
        insert name (bump key value (get_or name [] m.counters_by_labels)) m.counters_by_labels;
  }

  unfoldable pub increment :
      String → Float → (tenant_id category : Option String) → Metrics → Metrics
  unfolding add_labelled
  increment name value (some tenant_id) category m =
      add_labelled name (tenant_key name tenant_id) value m
  increment name value none (some category) m =
      add_labelled name (category_key name category) value m
  increment name value none none m = record m { counters = bump name value m.counters }

-- the name of a histogram
unfoldable pub bucket : String → Option String → String
bucket name none = name
bucket name (some node) = f_string (name ∷ ":node=" ∷ node ∷ [])

unfoldable pub observe_latency : String → Float → Option String → Metrics → Metrics
unfolding bucket
observe_latency name latency_ms node m =
    let b = bucket name node in
    record m { histograms = insert b (get_or b [] m.histograms ++ latency_ms ∷ []) m.histograms }

-- What `export_metrics` says of a histogram.
pub record HistogramExport : Type 0 where
  pub count : ℕ
  pub sum : Float
  pub values : List Float

pub record MetricsExport : Type 0 where
  pub counters : Dict Float
  pub counters_by_labels : Dict (Dict Float)
  pub histograms : Dict HistogramExport

export_histogram : Arithmetic → String × List Float → String × HistogramExport
export_histogram ops (name, vs) =
    (name, record { count = length vs; sum = foldl ops.add zero_float vs; values = vs })

unfoldable pub export_metrics : Arithmetic → Metrics → MetricsExport
unfolding export_histogram
export_metrics ops m = record {
  counters = m.counters;
  counters_by_labels = m.counters_by_labels;
  histograms = map (export_histogram ops) m.histograms;
}

unfoldable pub reset : Metrics → Metrics
reset m = empty
