-- ===== src/Gateway/Wiring.antt =====
-- gateway/main.go: the handlers of the gateway, made and put together. What is read from the
-- environment is in the configuration; the clients, the provider, JSON and the identifiers and
-- times of one request are given.
pub mod Calls
pub mod Guarded
pub mod Reached
pub mod Balanced
pub mod Bounded
mod Listed
mod ListTests
mod Tests
mod RunTests
use faas_drl.Base.{ℕ, Bool, Option, none, some, List, [], ◌∷◌, if◌then◌else◌, ◌⊎◌}
use mathlib.Core.Option
use faas_drl.Base.Int.{ℤ, pos}
use faas_drl.Base.Bytes.{Bytes, codes}
use faas_drl.Effect.{Error, M, Exit, done}
use faas_drl.Http.{Request, Writer}
use faas_drl.Middleware.Injector.{inject_basic_auth, transport_headers}
use faas_drl.Middleware.Resolver.{resolve_single_host, transform_transparent}
use faas_drl.Types.Config.{GatewayConfig, use_nats}
use faas_drl.Scaling.Response.{Environment, ScalingConfig, History}
use faas_drl.Scaling.Cacher.{FunctionCacher, function_cacher, Group}
use faas_drl.Scaling.Scaler.{State, FunctionScaleResult, scale}
use faas_drl.Scaling.Ranges.{ScaleServiceRequest, horizontal_scaling_handler}
use faas_drl.Metrics.Query.{PrometheusQuery, fetch}
use faas_drl.Metrics.Added.{Floats, FunctionStatus, add_metrics_handler}
use faas_drl.Handlers.Alert.{PrometheusAlert}
use faas_drl.Handlers.Alert.Handler.{alert_handler}
use faas_drl.Handlers.Forwarding.{UpstreamRequest}
use faas_drl.Handlers.Forwarding.Proxy.{ProxyConfig, Sent, Notice}
use faas_drl.Handlers.Forwarding.Stream.{StreamConfig, handle_event_stream}
use faas_drl.Handlers.Health.{decorate_with_cors}
use faas_drl.Handlers.Info.{build_version, Build, GatewayInfo, info_handler}
use faas_drl.Handlers.Logs.{LogConfig, log_handler}
use faas_drl.Handlers.Notifiers.{logging_notifier, notifier_wrapper}
use faas_drl.Handlers.Queue.{QueueConfig}
use faas_drl.Handlers.Scaling.{scaling_handler}
use faas_drl.Gateway.Routes.{Handler, HandlerSet, RoutePattern, decorate_handlers, routes, serve}
use faas_drl.Gateway.Calls.{async_function_handler}
use faas_drl.Gateway.Functions.{proxy_handler, function_handler}
use faas_drl.Gateway.Store.{
  GatewayState, on_part, on_part_handler, scaling_part, notices_part, alert_part, queue_part,
}

-- `scalingConfig`, with durations in nanoseconds.
abbrev pub scaling_config : ScalingConfig
scaling_config = record {
  max_poll_count = 1000;
  set_scale_retries = 20;
  function_poll_interval = pos 100000000;
  cache_expiry = pos 250000000;
}

-- The cache of the scaler is a `FunctionCache`.
abbrev pub Store : Type 0
Store = GatewayState function_cacher

-- What the handlers are made with. `status` reads that of a write interceptor, the credentials are
-- those of basic auth, if it is used, and `elapsed` is the time that a request takes.
pub record Parts (P Rest : Type 0) : Type 1 where
  pub config : GatewayConfig Bytes
  pub provider_url : Bytes
  pub credentials : Option (Bytes × Bytes)
  pub set_basic_auth : Bytes → Bytes → UpstreamRequest → UpstreamRequest
  pub parses : Bytes → Bytes → Bool
  pub transport : UpstreamRequest → Sent
  pub streams : StreamConfig
  pub elapsed : ℤ
  pub status : Writer → ℕ
  pub call_id : Bytes
  pub start : Bytes
  pub env : Environment
  pub group : Group (State function_cacher)
  pub decode_alerts : Bytes → Option PrometheusAlert
  pub decode_scaling : Bytes → Option ScaleServiceRequest
  pub encode_scaling : ScaleServiceRequest → Bytes
  pub queue : QueueConfig
  pub floats : Floats
  pub escape : Bytes → Bytes
  pub prometheus : PrometheusQuery
  pub decode_functions : Bytes → Error ⊎ List (FunctionStatus floats.Float Rest)
  pub encode_functions : List (FunctionStatus floats.Float Rest) → Error ⊎ Bytes
  pub build : Build
  pub decode_info : Bytes → Option Error × Option P
  pub encode_info : GatewayInfo P → Error ⊎ Bytes
  pub logs : LogConfig

module _ {P Rest : Type 0} (p : Parts P Rest) where
  -- The client of the reverse proxy, whose transport names the gateway.
  unfoldable pub send : UpstreamRequest → Sent
  unfolding transport_headers build_version
  send r = p.transport (record r { header = transport_headers (build_version p.build) r.header })

  -- `serviceAuthInjector`
  unfoldable pub injector : Option (UpstreamRequest → UpstreamRequest)
  unfolding inject_basic_auth
  injector =
      if p.config.use_basic_auth
      then some (inject_basic_auth p.set_basic_auth p.credentials)
      else none

  -- The configuration of a forwarding handler to the provider, with an injector or none.
  abbrev pub proxy_config : Option (UpstreamRequest → UpstreamRequest) → ProxyConfig
  proxy_config inject =
      let resolve : Request → Bytes = λ r. resolve_single_host p.provider_url in
      let transform : Request → Bytes = λ r. transform_transparent r.url.path in
      record {
        resolve = resolve;
        transform = transform;
        inject = inject;
        parses = p.parses;
        send = send;
        stream = handle_event_stream p.streams resolve transform;
        elapsed = p.elapsed;
      }

  -- `handlers.MakeForwardingProxyHandler(reverseProxy, forwardingNotifiers, urlResolver, …)`
  unfoldable pub forwarding : Option (UpstreamRequest → UpstreamRequest) → Handler Store
  forwarding inject =
      on_part_handler notices_part (proxy_handler (proxy_config inject) (logging_notifier ∷ []))

  -- `faasHandlers.Proxy`
  unfoldable pub proxy : Handler Store
  proxy =
      on_part_handler notices_part
        (function_handler p.call_id p.start p.build.version (proxy_config none))

  -- `scaler.Scale`, on the state that is shared.
  unfoldable pub scaler : Bytes → Bytes → M Store FunctionScaleResult
  scaler fn ns = on_part scaling_part (scale p.env function_cacher p.group scaling_config fn ns)

  -- `functionProxy`
  unfoldable pub function_proxy : Handler Store
  unfolding proxy scaler
  function_proxy =
      if p.config.scale_from_zero then scaling_handler scaler proxy p.config.namespace else proxy

  unfoldable pub queued_handler : Handler Store
  queued_handler =
      on_part_handler queue_part
        (async_function_handler p.status p.call_id p.start p.build.version p.queue p.elapsed)

  abbrev pub serve_log : Handler Store
  serve_log r (w, s) = let (ended, w') = log_handler p.logs r w in (ended, (w', s))

  abbrev pub served_alert : Handler Store
  served_alert = on_part_handler alert_part (
      notifier_wrapper p.status (alert_handler p.env p.config.namespace p.decode_alerts) []
        p.elapsed)

  -- The handlers before basic auth.
  unfoldable pub handlers : HandlerSet Store
  unfolding forwarding proxy queued_handler injector
  handlers = record {
    proxy = proxy;
    deploy_function = forwarding injector;
    delete_function = forwarding injector;
    list_functions =
        add_metrics_handler p.floats (forwarding injector) p.escape (fetch p.prometheus)
          p.decode_functions p.encode_functions;
    alert = served_alert;
    update_function = forwarding injector;
    function_status = forwarding injector;
    queued_proxy = if use_nats p.config then some queued_handler else none;
    scale_function =
        horizontal_scaling_handler p.decode_scaling p.encode_scaling (forwarding injector);
    info_handler = info_handler p.build p.decode_info p.encode_info (forwarding injector);
    telemetry_handler = forwarding none;
    secret_handler = forwarding injector;
    log_proxy_handler = serve_log;
    namespace_lister_handler = forwarding injector;
    namespace_mutator_handler = forwarding injector;
  }

  -- The server. `decorate` is `auth.DecorateWithBasicAuth` with credentials. The files of the UI,
  -- with the prefix of the path cut off, and the redirect are handlers of net/http.
  unfoldable pub gateway :
      (List RoutePattern → Request → Option ℕ)
      → (Request → Writer → Writer)
      → (Bytes × Bytes → Handler Store → Handler Store)
      → (Handler Store → Handler Store)
      → Handler Store
      → Handler Store
      → Handler Store
  unfolding handlers function_proxy forwarding injector
  gateway choose own decorate strip_prefix files redirect =
      let guard : Option (Handler Store → Handler Store) = Option.map decorate p.credentials in
      serve choose own (
        routes guard (decorate_handlers guard handlers) function_proxy
          (strip_prefix (decorate_with_cors files (codes "raw.githubusercontent.com")))
          (forwarding injector) redirect)
