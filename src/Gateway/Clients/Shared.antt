-- ===== src/Gateway/Clients/Shared.antt =====
-- What the clients of the gateway share.
use faas_drl.Base.{◌≡◌, refl, true, false, is_some, ◌≢◌, ◌==◌, arith, Bool-cases, inl, inr}
use faas_drl.Base.Bytes.{Bytes}
use faas_drl.Base.Dict.{lookup, insert, lookup-insert}
use faas_drl.Effect.{done}
use faas_drl.Http.Headers.{Header, set_header, canonical_key}
use faas_drl.Middleware.Injector.{user_agent, transport_headers}
use faas_drl.Types.Config.{GatewayConfig}
use faas_drl.Metrics.Query.{PrometheusQuery, query_request}
use faas_drl.Gateway.Clients.{
  proxy_transport, ClientPointer, Globals, pointee, Clients, make_clients,
  new_http_client_reverse_proxy, outgoing, proxy_dialing,
}

transport_headers-agent :
    (build_version : Bytes) (h : Header)
    → is_some (lookup user_agent (transport_headers build_version h)) ≡ true
unfolding transport_headers set_header canonical_key
transport_headers-agent build_version h = elim (Bool-cases (is_some (lookup user_agent h))) [
  | inl e ↦ rw (e, transport_headers) e
  | inr e ↦ rw (e, transport_headers) (rw (lookup-insert user_agent user_agent _ h) refl)
]

transport_headers-query :
    (build_version : Bytes) (q : PrometheusQuery) (query : Bytes)
    → transport_headers build_version (query_request q query).header
      ≡ (query_request q query).header
unfolding transport_headers set_header canonical_key lookup insert
transport_headers-query build_version q query = refl

-- Whatever clients there are in the process, the gateway makes its own without a panic. Functions
-- and Prometheus are called with the client at one address, that of `http.DefaultClient`, which now
-- follows no redirects, waits for a connection as long as the timeout of upstreams says, and gives
-- every request a User-Agent, where the query of Prometheus keeps its own; so does all else in the
-- process that uses the default client, and the clients at other addresses are as they were.
pub make_clients_lem :
    {Url : Type 0} (config : GatewayConfig Url) (provider_url : Url) (build_version : Bytes)
    (h : Header) (q : PrometheusQuery) (query : Bytes) (g : Globals)
    → (clients : Clients Url) × (g' : Globals) × (make_clients config provider_url g
        ≡ (done clients, g'))
      × (clients.reverse_proxy.client ≡ g.default_client)
      × (clients.prometheus ≡ g.default_client)
      × ((p : ClientPointer) → p ≢ g.default_client → pointee p g' ≡ pointee p g)
      × (let shared = pointee g.default_client g' in
          (shared.follows_redirects ≡ false)
          × (shared.transport
              ≡ proxy_transport (
                  proxy_dialing config.upstream_timeout config.max_idle_conns
                    config.max_idle_conns_per_host))
          × (is_some (lookup user_agent (outgoing build_version shared h)) ≡ true)
          × (outgoing build_version shared (query_request q query).header
              ≡ (query_request q query).header))
unfolding make_clients new_http_client_reverse_proxy outgoing
make_clients_lem config provider_url build_version h q query g =
    let here : (g.default_client == g.default_client) ≡ true = ground arith in
    (
      _,
      _,
      refl,
      refl,
      refl,
      λ p other.
          let there : (p == g.default_client) ≡ false = ground (arith, other) in rw there refl,
      rw here (
        refl,
        refl,
        transport_headers-agent build_version h,
        transport_headers-query build_version q query,
      ),
    )
