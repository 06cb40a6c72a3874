-- ===== src/Gateway/Servers/Internal.antt =====
-- What is served where: the metrics are on the port of their own server alone.
use faas_drl.Base.{ℕ, ◌≡◌, Option, none, some, List, ◌≢◌, if◌then◌else◌}
use faas_drl.Base.Bytes.{codes, eq_bytes}
use faas_drl.Effect.{done, Exit}
use faas_drl.Http.{Request, Writer}
use faas_drl.Gateway.Routes.{Handler, RoutePattern}
use faas_drl.Gateway.Servers.{metrics_server}
use faas_drl.Gateway.Servers.Unrouted.{TakesPlain, patterns_of}

-- How the server of the metrics answers: with the metrics at /metrics, with its own health at
-- /healthz, and for any other path not at all.
pub data MetricsAnswer {S : Type 0} (metrics_handler : Handler S) (own : Request → Writer → Writer)
    (r : Request) (w : Writer) (s : S) (m : Exit (Unit {0}) × (Writer × S)) : Type 0 where
  metrics_shown :
      r.url.path ≡ codes "/metrics"
      → m ≡ metrics_handler r (w, s)
      → MetricsAnswer metrics_handler own r w s m
  health_shown :
      (u : Writer)
      → r.url.path ≡ codes "/healthz"
      → u.status ≡ some (if eq_bytes r.method (codes "GET") then 200 else 405)
      → m ≡ (done tt, (u, s))
      → MetricsAnswer metrics_handler own r w s m
  unrouted :
      r.url.path ≢ codes "/metrics"
      → r.url.path ≢ codes "/healthz"
      → m ≡ (done tt, (own r w, s))
      → MetricsAnswer metrics_handler own r w s m

module _ {S : Type 0} (metrics_handler : Handler S) (own : Request → Writer → Writer) (r : Request)
    (w : Writer) (s : S) (new : w.status ≡ none) where
  module _ (choose : List RoutePattern → Request → Option ℕ) (plain : TakesPlain choose) where
    abbrev patterns : List RoutePattern
    patterns = patterns_of (metrics_server metrics_handler).routes
