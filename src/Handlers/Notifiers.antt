-- ===== src/Handlers/Notifiers.antt =====
-- gateway/handlers/notifiers.go and notifier_handler.go: what a notifier does when it is told about
-- a request. The counters and the histogram belong to the Prometheus client: what is recorded here
-- are the calls of it. Lines that only log are left out.
pub mod Balance
pub mod Logged
pub mod Named
pub mod Concurrent
mod Tests
use faas_drl.Base.{
  ℕ, ◌≡◌, ap, Bool, true, false, not, ◌&&◌, Option, none, some, List, [], ◌∷◌, ◌++◌, map, ◌==◌,
  if◌then◌else◌,
}
use faas_drl.Base.Int.{ℤ}
use faas_drl.Base.Bytes.{Bytes, codes, eq_bytes}
use faas_drl.Effect.{M, Exit, done, panicked}
use faas_drl.Text.{contains, trim_right}
use faas_drl.Text.Decimal.{format}
use faas_drl.Http.{Request, Writer}
use faas_drl.Middleware.Resolver.{get_service_name}
use faas_drl.Handlers.Forwarding.{is_empty}
use faas_drl.Handlers.Forwarding.Proxy.{Notice}

-- `WithLabelValues(name).Inc()`, `With(labels).Observe(duration)` and `With(labels).Inc()`.
pub data MetricCall : Type 0 where
  started_inc : (name : Bytes) → MetricCall
  seconds_observed : (name code : Bytes) → (duration : ℤ) → MetricCall
  invocation_inc : (name code : Bytes) → MetricCall

unfoldable pub url_to_label : Bytes → Bytes
url_to_label path =
    let trimmed = if not (is_empty path) then trim_right b'/' path else path in
    if is_empty trimmed then codes "/" else trimmed

-- The name under which a function is counted.
unfoldable pub metric_name : Bytes → Bytes → Bytes
metric_name function_namespace original_url =
    let service_name = get_service_name original_url in
    if not (is_empty function_namespace) && not (contains b'.' service_name)
    then service_name ++ b'.' ∷ function_namespace
    else service_name

-- `PrometheusFunctionNotifier.Notify`
unfoldable pub notify_prometheus : Bytes → Notice → List MetricCall
unfolding metric_name
notify_prometheus function_namespace notice =
    let name = metric_name function_namespace notice.original_url in
    let code = format notice.status_code in
    if eq_bytes notice.event (codes "completed")
    then seconds_observed name code notice.duration ∷ invocation_inc name code ∷ []
    else (if eq_bytes notice.event (codes "started") then started_inc name ∷ [] else [])

-- The two notifiers of the gateway: one that only logs, and that of Prometheus.
abbrev pub logging_notifier : ℕ
logging_notifier = 0

abbrev pub prometheus_notifier : ℕ
prometheus_notifier = 1

unfoldable pub notify_calls : Bytes → Notice → List MetricCall
unfolding notify_prometheus
notify_calls function_namespace notice =
    if notice.notifier == prometheus_notifier
    then notify_prometheus function_namespace notice
    else []

-- The calls of the Prometheus client behind a list of notices, the oldest first.
unfoldable pub metric_calls : Bytes → List Notice → List MetricCall
unfolding notify_calls
metric_calls function_namespace [] = []
metric_calls function_namespace (notice ∷ notices) =
    notify_calls function_namespace notice ++ metric_calls function_namespace notices

-- The notice of a request that the wrapped handler has served.
abbrev pub completed_notice : Request → ℕ → ℤ → ℕ → Notice
completed_notice r status elapsed notifier = record {
  notifier = notifier;
  method = r.method;
  url = r.url.text;
  original_url = r.url.text;
  status_code = status;
  event = codes "completed";
  duration = elapsed;
}

-- Behind the next handler: the notifiers are told when it has returned.
abbrev pub tell :
    {S : Type 0}
    → (Writer → ℕ)
    → List ℕ
    → ℤ
    → Request
    → List Notice
    → Exit (Unit {0}) × (Writer × S)
    → Exit (Unit {0}) × (Writer × (S × List Notice))
tell status notifiers elapsed r notices (done _, (w, s)) =
    (done tt, (w, (s, notices ++ map (completed_notice r (status w) elapsed) notifiers)))
tell status notifiers elapsed r notices (panicked, (w, s)) = (panicked, (w, (s, notices)))

-- `MakeNotifierWrapper`. `status` is that of the write interceptor of faas-provider, which the next
-- handler writes to.
unfoldable pub notifier_wrapper :
    {S : Type 0}
    → (Writer → ℕ)
    → (Request → M (Writer × S) (Unit {0}))
    → List ℕ
    → ℤ
    → Request
    → M (Writer × (S × List Notice)) (Unit {0})
notifier_wrapper status next notifiers elapsed r (w, (s, notices)) =
    tell status notifiers elapsed r notices (next r (w, s))

-- Behind a next handler that returns, each notifier has been told of the completion.
pub notifier_wrapper-done :
    {S : Type 0} (status : Writer → ℕ) (next : Request → M (Writer × S) (Unit {0}))
    (notifiers : List ℕ) (elapsed : ℤ) (r : Request) (w u : Writer) (s s' : S)
    (notices : List Notice)
    → next r (w, s) ≡ (done tt, (u, s'))
    → notifier_wrapper status next notifiers elapsed r (w, (s, notices))
      ≡ (done tt, (u, (s', notices ++ map (completed_notice r (status u) elapsed) notifiers)))
unfolding notifier_wrapper
notifier_wrapper-done status next notifiers elapsed r w u s s' notices h =
    ap (tell status notifiers elapsed r notices) h
