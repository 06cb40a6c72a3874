-- ===== src/Handlers/Forwarding/Stream.antt =====
-- gateway/handlers/forwarding_proxy.go: event streams, which a reverse proxy of net/http/httputil
-- serves. Lines that only log are left out.
use faas_drl.Base.{ℕ, ◌≡◌, refl, true, Option, none, some}
use faas_drl.Base.Bytes.{Bytes, codes}
use faas_drl.Effect.{Exit, done, panicked}
use faas_drl.Http.{Request, Writer, Body}
use faas_drl.Http.Headers.{Header}
use faas_drl.Handlers.Forwarding.{UpstreamRequest, build_upstream_request}
use faas_drl.Handlers.Forwarding.Proxy.{
  ProxyConfig, ProxyState, is_event_stream, forward, forward_request,
}

-- The request that the reverse proxy sends.
pub record StreamRequest : Type 0 where
  pub method : Bytes
  pub scheme : Bytes
  pub url_host : Bytes
  pub path : Bytes
  pub raw_query : Bytes
  pub header : Header
  pub host : Bytes
  pub body : Option Body

-- What event streams are served with: the host of a base URL that `URL.Parse` reads, none where it
-- cannot read it; the reverse proxy behind its director, which writes the response and may panic
-- with an error; and the status of the write interceptor of faas-provider.
pub record StreamConfig : Type 0 where
  pub host_of : Request → Bytes → Option Bytes
  pub serve_http : StreamRequest → Writer → Exit (Unit {0}) × Writer
  pub status : Writer → ℕ

module _ (stream : StreamConfig) (resolve transform : Request → Bytes) where
  -- The `Director` of `makeRewriteProxy`. The error of `URL.Parse` is dropped, and the nil URL is
  -- used: a panic.
  unfoldable pub director : Request → Exit StreamRequest
  director r = elim (stream.host_of r (resolve r)) [
    | none ↦ panicked
    | some host ↦ done (record {
      method = r.method;
      scheme = codes "http";
      url_host = host;
      path = transform r;
      raw_query = r.url.raw_query;
      header = r.header;
      host = r.host;
      body = r.body;
    })
  ]

  -- The response that the goroutine leaves: a panic in it is recovered.
  abbrev pub streamed : Exit StreamRequest → Writer → Writer
  streamed panicked w = w
  streamed (done t) w = (stream.serve_http t w).1

  -- `handleEventStream`; of the upstream request only the name is read, for the log.
  unfoldable pub handle_event_stream : Request → UpstreamRequest → Writer → ℕ × Writer
  unfolding director
  handle_event_stream r upstream w = let w' = streamed (director r) w in (stream.status w', w')

-- The forwarding of the gateway, with its reverse proxy.
abbrev pub streaming : ProxyConfig → StreamConfig → ProxyConfig
streaming config stream = record config {
  stream = handle_event_stream stream config.resolve config.transform;
}

-- A request for an event stream whose upstream request can be made gets, with no error, the
-- response that the reverse proxy leaves for what the director makes of the incoming request,
-- whatever an injector adds to the upstream request: the injected credentials are not sent. A panic
-- of the director or of the reverse proxy does not leave the handler, and the status is that of the
-- response.
pub forward_request-event_stream :
    (config : ProxyConfig) (stream : StreamConfig)
    (inject : Option (UpstreamRequest → UpstreamRequest)) (r : Request) (base url : Bytes)
    (upstream : UpstreamRequest) (s : ProxyState)
    → is_event_stream r ≡ true
    → build_upstream_request config.parses r base url ≡ done upstream
    → let w =
        streamed stream config.resolve config.transform
          (director stream config.resolve config.transform r)
          s.writer in
      forward_request (streaming (record config { inject = inject }) stream) r base url s
      ≡ (done (stream.status w, none), record s { writer = w })
unfolding handle_event_stream forward_request
forward_request-event_stream config stream inject r base url upstream s events built =
    rw (built, forward_request) (rw (events, forward) refl)
