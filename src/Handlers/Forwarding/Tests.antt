-- ===== src/Handlers/Forwarding/Tests.antt =====
-- The theorems about forwarded requests, event streams and logs at a concrete request.
use faas_drl.Base.{ℕ, ◌≡◌, refl, true, false, none, some, [], ◌∷◌, ◌++◌, map, inr}
use faas_drl.Base.Int.{pos}
use faas_drl.Base.Bytes.{codes}
use faas_drl.Base.Dict.{lookup}
use faas_drl.Text.{has_prefix, strip_prefix, trim_suffix}
use faas_drl.Effect.{done}
use faas_drl.Http.{Request, Writer, new_writer, final_status}
use faas_drl.Http.Headers.{get_header, canonical_key}
use faas_drl.Handlers.Forwarding.{UpstreamRequest, build_upstream_request, upstream_headers}
use faas_drl.Handlers.Forwarding.Upstream.{seen, lookup-upstream_headers}
use faas_drl.Handlers.Forwarding.Proxy.{
  Sent, answered, ProxyConfig, is_event_stream, notice_of, forwarding_proxy_handler,
}
use faas_drl.Handlers.Forwarding.Proxy.Laws.{IsRelayed, forwarding_proxy_handler_lem}
use faas_drl.Handlers.Logs.{LogConfig, log_handler}
use faas_drl.Handlers.Logs.Relayed.{IsRelayedLog, log_handler_lem}

abbrev get_echo : Request
get_echo = record {
  method = codes "GET";
  url = record { path = codes "/function/echo"; raw_query = []; text = codes "/function/echo" };
  header = (codes "Connection", codes "close" ∷ []) ∷ [];
  host = codes "gateway";
  remote_addr = codes "10.0.0.1:80";
  body = some (record { content = codes "x"; failure = none });
}

lookup-upstream_headers_example :
    lookup
      (codes "Connection")
      (upstream_headers get_echo.header (codes "gateway") (codes "10.0.0.1:80"))
    ≡ seen get_echo.header (codes "gateway") (codes "10.0.0.1:80") (codes "Connection")
lookup-upstream_headers_example =
    lookup-upstream_headers get_echo.header (codes "gateway") (codes "10.0.0.1:80")
      (codes "Connection")

abbrev hello : Sent
hello = answered (record { status_code = 200; header = []; body = some (codes "hello") })

abbrev proxy : ProxyConfig
proxy = record {
  resolve = λ r. codes "http://echo:8080";
  transform = λ r. codes "/";
  inject = none;
  parses = λ method url. true;
  send = λ r. hello;
  stream = λ r upstream w. (200, w);
  elapsed = pos 5;
}

abbrev upstream : UpstreamRequest
upstream = record {
  method = codes "GET";
  url = codes "http://echo:8080/";
  header = upstream_headers get_echo.header (codes "gateway") (codes "10.0.0.1:80");
  body = get_echo.body;
}

no_stream : is_event_stream get_echo ≡ false
unfolding has_prefix strip_prefix get_header canonical_key lookup
no_stream = refl

built :
    build_upstream_request proxy.parses get_echo (codes "http://echo:8080") (codes "/")
    ≡ done upstream
unfolding build_upstream_request
built = refl

forwarding_proxy_handler_lem_example :
    (status : ℕ) × (w : Writer) × (forwarding_proxy_handler proxy
        (1 ∷ [])
        get_echo
        (record { writer = new_writer; notices = [] })
      ≡ (
        done tt,
        record {
          writer = w;
          notices =
              map (notice_of proxy get_echo 102 (codes "started") (pos 0)) (1 ∷ [])
              ++ map (notice_of proxy get_echo status (codes "completed") (pos 5)) (1 ∷ []);
        },
      ))
    × IsRelayed hello status w
    × (final_status w ≡ status)
forwarding_proxy_handler_lem_example =
    forwarding_proxy_handler_lem proxy (1 ∷ []) get_echo upstream no_stream built

abbrev log_config : LogConfig
log_config = record {
  log_provider = codes "http://logs/";
  parses = λ method url. true;
  round_trip = λ r. inr (record { status_code = 200; copied = codes "{}" });
  is_close_notifier = true;
  is_flusher = true;
}

abbrev log_upstream : UpstreamRequest
log_upstream = record {
  method = codes "GET";
  url = codes "http://logs/system/logs";
  header = upstream_headers get_echo.header (codes "gateway") (codes "10.0.0.1:80");
  body = get_echo.body;
}

log_handler_lem_example :
    (u : Writer) × (log_handler log_config get_echo new_writer ≡ (done tt, u))
    × IsRelayedLog (log_config.round_trip log_upstream) u
unfolding build_upstream_request trim_suffix
log_handler_lem_example = log_handler_lem log_config get_echo log_upstream refl refl refl
