-- ===== src/Metrics/Options.antt =====
-- gateway/metrics/metrics.go: the metrics of the gateway, and what is registered. Vectors and their
-- registry belong to the Prometheus client.
pub mod Fits
mod Tests
use faas_drl.Base.{Bool, true, false, List, [], ◌∷◌, ◌++◌, if◌then◌else◌}
use faas_drl.Base.Bytes.{Bytes, codes}
use faas_drl.Base.Dict.{Dict}
use faas_drl.Handlers.Notifiers.{MetricCall, started_inc, seconds_observed, invocation_inc}
use faas_drl.Metrics.Exporter.{GaugeCall, gauge_reset, gauge_set}

-- The options of a vector, as `prometheus.CounterOpts`: a part that is left out is empty.
pub record Opts : Type 0 where
  pub namespace : Bytes
  pub subsystem : Bytes
  pub name : Bytes
  pub help : Bytes

pub data Kind : Type 0 where
  counter : Kind
  gauge : Kind
  histogram : Kind

-- `NewCounterVec`, `NewGaugeVec` and `NewHistogramVec`, with the names of the labels.
pub record Vec : Type 0 where
  pub kind : Kind
  pub opts : Opts
  pub labels : List Bytes

-- `MetricOptions`
pub record MetricOptions : Type 0 where
  pub gateway_function_invocation : Vec
  pub gateway_functions_histogram : Vec
  pub gateway_function_invocation_started : Vec
  pub service_replicas_gauge : Vec

unfoldable pub build_metrics_options : MetricOptions
build_metrics_options = record {
  gateway_functions_histogram = record {
    kind = histogram;
    opts = record {
      namespace = [];
      subsystem = [];
      name = codes "gateway_functions_seconds";
      help = codes "Function time taken";
    };
    labels = codes "function_name" ∷ codes "code" ∷ [];
  };
  gateway_function_invocation = record {
    kind = counter;
    opts = record {
      namespace = codes "gateway";
      subsystem = codes "function";
      name = codes "invocation_total";
      help = codes "Function metrics";
    };
    labels = codes "function_name" ∷ codes "code" ∷ [];
  };
  service_replicas_gauge = record {
    kind = gauge;
    opts = record {
      namespace = codes "gateway";
      subsystem = [];
      name = codes "service_count";
      help = codes "Current count of replicas for function";
    };
    labels = codes "function_name" ∷ [];
  };
  gateway_function_invocation_started = record {
    kind = counter;
    opts = record {
      namespace = codes "gateway";
      subsystem = codes "function";
      name = codes "invocation_started";
      help = codes "The total number of function HTTP requests started.";
    };
    labels = codes "function_name" ∷ [];
  };
}

-- The vectors in the order in which `Exporter.Describe` gives their descriptions.
unfoldable pub describe : MetricOptions → List Vec
describe m =
    m.gateway_function_invocation ∷ m.gateway_functions_histogram ∷ m.service_replicas_gauge
    ∷ m.gateway_function_invocation_started ∷ []

-- The `sync.Once`, and the descriptions that were given to the registry.
pub record Registration : Type 0 where
  pub once : Bool
  pub registered : List Vec

abbrev pub unregistered : Registration
unregistered = record { once = false; registered = [] }

-- `RegisterExporter`; `once.Do` calls its function the first time only.
unfoldable pub register_exporter : MetricOptions → Registration → Registration
unfolding describe
register_exporter m s =
    if s.once then s else record { once = true; registered = s.registered ++ describe m }

-- What a vector is asked for a metric with: the values of the labels in their order, or a map.
pub data Labels : Type 0 where
  by_value : List Bytes → Labels
  by_name : Dict Bytes → Labels

abbrev pub function_labels : Bytes → Bytes → Labels
function_labels name code = by_name ((codes "function_name", name) ∷ (codes "code", code) ∷ [])

-- The vector that a call of a notifier or of the exporter asks, and with what.
unfoldable pub notified_vec : MetricOptions → MetricCall → Vec × Labels
notified_vec m (started_inc name) = (m.gateway_function_invocation_started, by_value (name ∷ []))
notified_vec m (seconds_observed name code duration) =
    (m.gateway_functions_histogram, function_labels name code)
notified_vec m (invocation_inc name code) =
    (m.gateway_function_invocation, function_labels name code)

unfoldable pub gauge_labels : GaugeCall → List Labels
gauge_labels gauge_reset = []
gauge_labels (gauge_set name value) = by_value (name ∷ []) ∷ []
