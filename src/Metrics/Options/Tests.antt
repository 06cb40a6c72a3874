-- ===== src/Metrics/Options/Tests.antt =====
-- The calls of the vectors for a call that was forwarded, and for one service.
use faas_drl.Base.{◌≡◌, none, [], ◌∷◌, length, All}
use faas_drl.Base.Int.{pos}
use faas_drl.Base.Bytes.{codes}
use faas_drl.Handlers.Forwarding.Proxy.{Notice}
use faas_drl.Handlers.Notifiers.{prometheus_notifier, metric_calls}
use faas_drl.Metrics.Exporter.{Exporter, collect}
use faas_drl.Metrics.Options.{build_metrics_options, notified_vec, gauge_labels}
use faas_drl.Metrics.Options.Fits.{register_times, Among, Fits, metrics-Fits}

abbrev completion : Notice
completion = record {
  notifier = prometheus_notifier;
  method = codes "GET";
  url = codes "/";
  original_url = codes "/function/echo";
  status_code = 200;
  event = codes "completed";
  duration = pos 5;
}

abbrev one_service : Exporter
one_service = record {
  services = record { name = codes "echo"; namespace = codes "fn"; replicas = 3 } ∷ [];
  credentials = none;
  function_namespace = codes "fn";
}

metrics-Fits_example :
    let m = build_metrics_options in
    let exposed = (register_times 2 m).registered in
    (length exposed ≡ 4)
    × All
        (λ c. let (v, labels) = notified_vec m c in Among v exposed × Fits v labels)
        (metric_calls (codes "fn") (completion ∷ []))
    × (Among m.service_replicas_gauge exposed)
    × All (λ c. All (Fits m.service_replicas_gauge) (gauge_labels c)) (collect one_service)
metrics-Fits_example = metrics-Fits 1 (codes "fn") (completion ∷ []) one_service
