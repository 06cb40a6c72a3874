-- ===== src/Gateway/Servers.antt =====
-- gateway/main.go: the two servers, that of the gateway and that of the metrics. Listening on the
-- ports is code of net/http, and the handler of the metrics that of the Prometheus client.
mod Unrouted
pub mod Internal
use faas_drl.Base.{Option, List, [], ◌∷◌}
use faas_drl.Base.Int.{ℤ, pos}
use faas_drl.Base.Bytes.{Bytes, codes}
use faas_drl.Effect.{done}
use faas_drl.Types.Config.{GatewayConfig}
use faas_drl.Handlers.Health.{healthz_handler}
use faas_drl.Gateway.Routes.{Handler, HandlerSet, Route, route, routes, decorate_handlers}

-- `http.Server`, with the routes of its handler; timeouts are in nanoseconds.
pub record Server (S : Type 0) : Type 0 where
  pub addr : Bytes
  pub read_timeout : ℤ
  pub write_timeout : ℤ
  pub routes : List (Route S)

module _ {S : Type 0} where
  abbrev pub healthz : Handler S
  healthz r (w, s) = (done tt, (healthz_handler r w, s))

  -- `runMetricsServer`
  unfoldable pub metrics_server : Handler S → Server S
  metrics_server metrics_handler = record {
    addr = codes ":8082";
    read_timeout = pos 5000000000;
    write_timeout = pos 5000000000;
    routes = route (codes "/metrics") [] metrics_handler ∷ route (codes "/healthz") [] healthz ∷ [];
  }

  -- The server of the gateway, from the handlers before basic auth.
  unfoldable pub gateway_server :
      {Url : Type 0}
      → GatewayConfig Url
      → Option (Handler S → Handler S)
      → HandlerSet S
      → Handler S
      → Handler S
      → Handler S
      → Handler S
      → Server S
  gateway_server config guard hs function_proxy ui forwarded_healthz redirect = record {
    addr = codes ":8080";
    read_timeout = config.read_timeout;
    write_timeout = config.write_timeout;
    routes = routes guard (decorate_handlers guard hs) function_proxy ui forwarded_healthz redirect;
  }
