-- ===== src/Gateway/Functions.antt =====
-- gateway/main.go: the handler of calls of functions, put together, and the identifier of a call.
use faas_drl.Base.{ℕ, ◌≡◌, ◌∙◌, ap, some, List, [], ◌∷◌, ◌++◌, Bool, arith}
use faas_drl.Base.Bytes.{Bytes}
use faas_drl.Base.Dict.{lookup}
use faas_drl.Effect.{M, done}
use faas_drl.Http.{Request, Writer}
use faas_drl.Http.Headers.{Header, get_header, canonical_key, first_value, values}
use faas_drl.Handlers.CallId.{call_id_key, tag_call, call_id_middleware, tag_call-call_id}
use faas_drl.Handlers.Forwarding.{UpstreamRequest, build_upstream_request, upstream_headers}
use faas_drl.Handlers.Forwarding.Upstream.{lookup-upstream_headers}
use faas_drl.Handlers.Forwarding.Proxy.{Notice, ProxyConfig, forwarding_proxy_handler}
use faas_drl.Handlers.Notifiers.Balance.{function_notifiers}

-- The forwarding handler, on a response and what the notifiers were told.
unfoldable pub proxy_handler : ProxyConfig → List ℕ → Request → M (Writer × List Notice) (Unit {0})
proxy_handler config notifiers r (w, notices) =
    let (ended, t) =
      forwarding_proxy_handler config notifiers r (record { writer = w; notices = notices }) in
    (ended, (t.writer, t.notices))

-- `faasHandlers.Proxy`
unfoldable pub function_handler :
    Bytes → Bytes → Bytes → ProxyConfig → Request → M (Writer × List Notice) (Unit {0})
function_handler call_id start version config =
    call_id_middleware call_id start version (proxy_handler config function_notifiers)

header-build_upstream_request :
    (parses : Bytes → Bytes → Bool) (r : Request) (base url : Bytes) (upstream : UpstreamRequest)
    → build_upstream_request parses r base url ≡ done upstream
    → upstream.header ≡ upstream_headers r.header r.host r.remote_addr
unfolding build_upstream_request
header-build_upstream_request parses r base url upstream h = ground arith

call_id-upstream_headers :
    (h : Header) (host remote_addr : Bytes)
    → get_header call_id_key (upstream_headers h host remote_addr) ≡ get_header call_id_key h
unfolding get_header canonical_key
call_id-upstream_headers h host remote_addr =
    ap first_value (lookup-upstream_headers h host remote_addr call_id_key)

-- The upstream request that is made for a tagged call, if one is made, carries the identifier of
-- the call: the first value of X-Call-Id that the call came with, or, if it came with none, the
-- generated one.
pub call_id-build_upstream_request :
    (call_id start version : Bytes) (parses : Bytes → Bytes → Bool) (r : Request) (w : Writer)
    (base url : Bytes) (upstream : UpstreamRequest)
    → build_upstream_request parses (tag_call call_id start version r w).0 base url ≡ done upstream
    → get_header call_id_key upstream.header
      ≡ first_value (some (values (lookup call_id_key r.header) ++ call_id ∷ []))
unfolding tag_call
call_id-build_upstream_request call_id start version parses r w base url upstream h =
    rw (header-build_upstream_request parses _ base url upstream h) (
      call_id-upstream_headers (tag_call call_id start version r w).0.header r.host r.remote_addr
      ∙ tag_call-call_id call_id start version r w)
