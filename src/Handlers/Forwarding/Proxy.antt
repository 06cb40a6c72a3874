-- ===== src/Handlers/Forwarding/Proxy.antt =====
-- gateway/handlers/forwarding_proxy.go: `forwardRequest` and the handler around it, with the
-- notifiers that it calls. Lines that only log are left out.
pub mod Laws
use faas_drl.Base.{
  ℕ, ◌≡◌, refl, Bool, true, false, Option, none, some, List, [], ◌∷◌, ◌++◌, map, if◌then◌else◌,
}
use faas_drl.Base.Int.{ℤ, pos}
use faas_drl.Base.Bytes.{Bytes, codes}
use faas_drl.Effect.{Error, Exit, done, panicked, M, pure, continue, ◌>>=◌, ◌>>◌}
use faas_drl.Text.{has_prefix}
use faas_drl.Http.{Request, Writer, write_header, write}
use faas_drl.Http.Headers.{Header, get_header}
use faas_drl.Handlers.Forwarding.{UpstreamRequest, build_upstream_request, copy_headers}

pub record UpstreamResponse : Type 0 where
  pub status_code : ℕ
  pub header : Header
  pub body : Option Bytes

-- `http.Client.Do`: an error, or a response.
pub data Sent : Type 0 where
  failed : Error → Sent
  answered : UpstreamResponse → Sent

-- A call of `HTTPNotifier.Notify`, with the notifier that it was made on.
pub record Notice : Type 0 where
  pub notifier : ℕ
  pub method : Bytes
  pub url : Bytes
  pub original_url : Bytes
  pub status_code : ℕ
  pub event : Bytes
  pub duration : ℤ

-- What the handler changes: the response and the calls of notifiers, the newest last.
pub record ProxyState : Type 0 where
  pub writer : Writer
  pub notices : List Notice

-- What the handler is made with and what answers it: the resolver, the transformer and the
-- injector; `http.NewRequest`, the client, and for event streams the reverse proxy of net/http,
-- which writes the response itself and gives its status.
pub record ProxyConfig : Type 0 where
  pub resolve : Request → Bytes
  pub transform : Request → Bytes
  pub inject : Option (UpstreamRequest → UpstreamRequest)
  pub parses : Bytes → Bytes → Bool
  pub send : UpstreamRequest → Sent
  pub stream : Request → UpstreamRequest → Writer → ℕ × Writer
  pub elapsed : ℤ

abbrev pub injected : Option (UpstreamRequest → UpstreamRequest) → UpstreamRequest → UpstreamRequest
injected none r = r
injected (some inject) r = inject r

abbrev pub is_event_stream : Request → Bool
is_event_stream r = has_prefix (get_header (codes "Accept") r.header) (codes "text/event-stream")

-- `io.Copy` of the body, if there is one.
abbrev pub copy_body : Option Bytes → Writer → Writer
copy_body none w = w
copy_body (some []) w = w
copy_body (some (b ∷ bytes)) w = write (b ∷ bytes) w

module _ (config : ProxyConfig) where
  -- The status, the error and the response behind the client.
  unfoldable pub answer : Writer → Sent → ℕ × Option Error × Writer
  answer w (failed err) = (502, some err, write_header 502 w)
  answer w (answered res) =
      let copied = record w { header = copy_headers w.header res.header } in
      (res.status_code, none, copy_body res.body (write_header res.status_code copied))

  unfoldable pub forward : Writer → Request → UpstreamRequest → ℕ × Option Error × Writer
  unfolding answer
  forward w r upstream =
      let (status, streamed) = config.stream r upstream w in
      if is_event_stream r then (status, none, streamed) else answer w (config.send upstream)

  unfoldable pub forward_request : Request → Bytes → Bytes → M ProxyState (ℕ × Option Error)
  unfolding forward
  forward_request r base_url request_url s =
      elim (build_upstream_request config.parses r base_url request_url) [
        | panicked ↦ (panicked, s)
        | done upstream ↦
            let (status, err, w) = forward s.writer r (injected config.inject upstream) in
            (done (status, err), record s { writer = w })
      ]

  -- One call of `Notify` on each notifier.
  unfoldable pub notify : List ℕ → (ℕ → Notice) → M ProxyState (Unit {0})
  notify notifiers notice s = (done tt, record s { notices = s.notices ++ map notice notifiers })

  abbrev pub notice_of : Request → ℕ → Bytes → ℤ → ℕ → Notice
  notice_of r status event duration notifier = record {
    notifier = notifier;
    method = r.method;
    url = config.transform r;
    original_url = r.url.text;
    status_code = status;
    event = event;
    duration = duration;
  }

  -- `MakeForwardingProxyHandler`; the status 102 is `http.StatusProcessing`.
  unfoldable pub forwarding_proxy_handler : List ℕ → Request → M ProxyState (Unit {0})
  unfolding forward_request notify
  forwarding_proxy_handler notifiers r = do
    notify notifiers (notice_of r 102 (codes "started") (pos 0))
    result ← forward_request r (config.resolve r) (config.transform r)
    notify notifiers (notice_of r result.0 (codes "completed") config.elapsed)
