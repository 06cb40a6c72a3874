-- ===== src/Middleware/Injector.antt =====
-- gateway/pkg/middleware/basic_auth_injector.go and gateway/types/proxy_client.go: what is added to
-- the requests that the gateway sends.
use faas_drl.Base.{Option, none, some, ◌++◌, is_some, if◌then◌else◌}
use faas_drl.Base.Bytes.{Bytes, codes}
use faas_drl.Base.Dict.{lookup}
use faas_drl.Http.Headers.{Header, set_header}

-- `BasicAuthInjector.Inject`, on a request that is there; `set_basic_auth` is that of net/http.
unfoldable pub inject_basic_auth :
    {R : Type 0} → (Bytes → Bytes → R → R) → Option (Bytes × Bytes) → R → R
inject_basic_auth set_basic_auth credentials r = elim credentials [
  | none ↦ r
  | some (user, password) ↦ set_basic_auth user password r
]

abbrev pub user_agent : Bytes
user_agent = codes "User-Agent"

-- The headers with which `proxyTransport.RoundTrip` calls the transport below it.
unfoldable pub transport_headers : Bytes → Header → Header
transport_headers build_version header =
    if is_some (lookup user_agent header)
    then header
    else set_header user_agent (codes "openfaas-ce-gateway/" ++ build_version) header
