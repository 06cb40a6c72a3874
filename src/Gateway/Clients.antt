-- ===== src/Gateway/Clients.antt =====
-- gateway/types/proxy_client.go, gateway/plugin/external.go, gateway/metrics/exporter.go and
-- gateway/main.go: the HTTP clients of the gateway. `http.DefaultClient` is one object for the
-- whole process, and what holds a pointer to it sees what others have made of it. What a transport
-- does is code of net/http.
pub mod Shared
use faas_drl.Base.{ℕ, ◌==◌, if◌then◌else◌, Bool, true, false, Option, none, some}
use faas_drl.Base.Int.{ℤ, pos}
use faas_drl.Base.Bytes.{Bytes}
use faas_drl.Effect.{M, done, pure, continue, ◌>>=◌, ◌>>◌}
use faas_drl.Http.Headers.{Header}
use faas_drl.Middleware.Injector.{transport_headers}
use faas_drl.Types.Config.{GatewayConfig}

-- What is set of an `http.Transport` and its `net.Dialer`; durations are in nanoseconds, and zero
-- is what is not set.
pub record Transport : Type 0 where
  pub dial_timeout : ℤ
  pub dial_keep_alive : ℤ
  pub max_idle_conns : ℤ
  pub max_idle_conns_per_host : ℤ
  pub disable_keep_alives : Bool
  pub idle_conn_timeout : ℤ
  pub tls_handshake_timeout : ℤ
  pub expect_continue_timeout : ℤ

-- The `Transport` of a client: nil, which is that of net/http, a transport, or one within a
-- `proxyTransport`.
pub data RoundTripper : Type 0 where
  default_transport : RoundTripper
  plain : Transport → RoundTripper
  proxy_transport : Transport → RoundTripper

-- `http.Client`: whether its `CheckRedirect` follows redirects, as a nil one does.
pub record Client : Type 0 where
  pub transport : RoundTripper
  pub follows_redirects : Bool

-- A `*http.Client` is the address of a client.
abbrev pub ClientPointer : Type 0
ClientPointer = ℕ

-- What the process shares: the clients at their addresses, and where `http.DefaultClient` is.
pub record Globals : Type 0 where
  pub client_at : ClientPointer → Client
  pub default_client : ClientPointer

abbrev pub pointee : ClientPointer → Globals → Client
pointee p g = g.client_at p

-- `http.DefaultClient`
abbrev pub read_default : M Globals ClientPointer
read_default g = (done g.default_client, g)

-- A change of the client at an address.
abbrev pub set_client : ClientPointer → (Client → Client) → M Globals (Unit {0})
set_client p f g =
    (done tt, record g { client_at = λ q. if q == p then f (g.client_at q) else g.client_at q })

pub record HttpClientReverseProxy (Url : Type 0) : Type 0 where
  pub base_url : Url
  pub client : ClientPointer
  pub timeout : ℤ

-- `h.Client.CheckRedirect = …` and `h.Client.Transport = …`, on what the pointer points to.
abbrev pub set_redirects : ClientPointer → Bool → M Globals (Unit {0})
set_redirects p follows = set_client p (λ c. record c { follows_redirects = follows })

abbrev pub set_transport : ClientPointer → RoundTripper → M Globals (Unit {0})
set_transport p t = set_client p (λ c. record c { transport = t })

abbrev pub proxy_dialing : ℤ → ℤ → ℤ → Transport
proxy_dialing timeout max_idle_conns max_idle_conns_per_host = record {
  dial_timeout = timeout;
  dial_keep_alive = timeout;
  max_idle_conns = max_idle_conns;
  max_idle_conns_per_host = max_idle_conns_per_host;
  disable_keep_alives = false;
  idle_conn_timeout = pos 90000000000;
  tls_handshake_timeout = pos 10000000000;
  expect_continue_timeout = pos 1000000000;
}

-- `NewHTTPClientReverseProxy`
unfoldable pub new_http_client_reverse_proxy :
    {Url : Type 0} → Url → ℤ → ℤ → ℤ → M Globals (HttpClientReverseProxy Url)
new_http_client_reverse_proxy base_url timeout max_idle_conns max_idle_conns_per_host = do
  client ← read_default
  set_redirects client false
  set_transport client
      (proxy_transport (proxy_dialing timeout max_idle_conns max_idle_conns_per_host))
  pure (record { base_url = base_url; client = client; timeout = timeout })

-- A client that opens a connection for each request.
abbrev pub single_use : ℤ → Client
single_use timeout = record {
  transport = plain (record {
    dial_timeout = timeout;
    dial_keep_alive = pos 0;
    max_idle_conns = pos 1;
    max_idle_conns_per_host = pos 0;
    disable_keep_alives = true;
    idle_conn_timeout = pos 120000000;
    tls_handshake_timeout = pos 0;
    expect_continue_timeout = pos 1500000000;
  });
  follows_redirects = true;
}

-- The client of `NewExternalServiceQuery`, and that of `Exporter.getHTTPClient` with its timeout.
unfoldable pub external_client : Client
external_client = single_use (pos 3000000000)

unfoldable pub get_http_client : ℤ → Client
get_http_client timeout = single_use timeout

abbrev pub exporter_timeout : ℤ
exporter_timeout = pos 5000000000

-- The clients that the gateway is made with.
pub record Clients (Url : Type 0) : Type 0 where
  pub reverse_proxy : HttpClientReverseProxy Url
  pub external : Client
  pub prometheus : ClientPointer

unfoldable pub make_clients : {Url : Type 0} → GatewayConfig Url → Url → M Globals (Clients Url)
unfolding new_http_client_reverse_proxy external_client
make_clients config provider_url = do
  reverse_proxy ←
      new_http_client_reverse_proxy provider_url config.upstream_timeout config.max_idle_conns
        config.max_idle_conns_per_host
  prometheus ← read_default
  pure (record {
    reverse_proxy = reverse_proxy;
    external = external_client;
    prometheus = prometheus;
  })

-- The headers that the transport of net/http is called with for a request with others.
unfoldable pub outgoing : Bytes → Client → Header → Header
unfolding transport_headers
outgoing build_version client header = elim client.transport [
  | default_transport ↦ header
  | plain t ↦ header
  | proxy_transport t ↦ transport_headers build_version header
]
