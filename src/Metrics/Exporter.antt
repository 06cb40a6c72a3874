-- ===== src/Metrics/Exporter.antt =====
-- gateway/metrics/exporter.go: the replica counts of the functions, polled from the provider and
-- shown to Prometheus. Lines that only log are left out. The gauge and the counters belong to the
-- Prometheus client: what is recorded here are the calls of the gauge.
pub mod Gauge
pub mod Watcher
mod Polled
pub mod Reached
use faas_drl.Base.{
  ℕ, ◌≡◌, refl, Bool, true, false, Option, none, some, List, [], ◌∷◌, ◌++◌, ◌==◌, if◌then◌else◌,
  ◌⊎◌, inl, inr,
}
use faas_drl.Base.Bytes.{Bytes, codes}
use faas_drl.Effect.{Error, Exit, done, panicked}
use faas_drl.Float64.{Float64, of_uint64}
use faas_drl.Handlers.Forwarding.{is_empty}
use faas_drl.Http.{Body, read_all}
use faas_drl.Metrics.Added.{and_then}
use faas_drl.Plugin.External.{ClientRequest}

-- `types.FunctionStatus` of faas-provider: the fields that the exporter reads.
pub record Service : Type 0 where
  pub name : Bytes
  pub namespace : Bytes
  pub replicas : ℕ

-- The fields of the exporter that change or are sent. The credentials are those of basic auth.
pub record Exporter : Type 0 where
  pub services : List Service
  pub credentials : Option (Bytes × Bytes)
  pub function_namespace : Bytes

unfoldable pub new_exporter : Option (Bytes × Bytes) → Bytes → Exporter
new_exporter credentials namespace = record {
  services = [];
  credentials = credentials;
  function_namespace = namespace;
}

-- `ServiceReplicasGauge.Reset()` and `WithLabelValues(name).Set(value)`.
pub data GaugeCall : Type 0 where
  gauge_reset : GaugeCall
  gauge_set : (name : Bytes) → (value : Float64) → GaugeCall

abbrev pub service_name : Service → Bytes
service_name s = if is_empty s.namespace then s.name else s.name ++ b'.' ∷ s.namespace

-- The loop over the services.
unfoldable pub set_replicas : List Service → List GaugeCall
set_replicas [] = []
set_replicas (s ∷ services) =
    gauge_set (service_name s) (of_uint64 s.replicas) ∷ set_replicas services

-- The calls of the gauge in `Collect`.
unfoldable pub collect : Exporter → List GaugeCall
unfolding set_replicas
collect e = gauge_reset ∷ set_replicas e.services

-- A response of the provider.
pub record ProviderResponse : Type 0 where
  pub status_code : ℕ
  pub body : Option Body

-- What the requests are made with, and what answers them in one round of polling: the URL for a
-- path below the provider's with a namespace as query, `http.NewRequest`, `SetBasicAuth`, the
-- client and JSON are code of Go's library. What is decoded before an error stays.
pub record Provider : Type 0 where
  pub url_for : Bytes → Option Bytes → Bytes
  pub parses : Bytes → Bool
  pub set_basic_auth : Bytes × Bytes → ClientRequest → ClientRequest
  pub send : ClientRequest → Error ⊎ ProviderResponse
  pub unmarshal_services : Bytes → Option Error × List Service
  pub unmarshal_names : Bytes → Option Error × List Bytes

abbrev pub bad_json : Bytes → Error → Error
bad_json body err = codes "error unmarshalling response: " ++ (body ++ (codes ", error: " ++ err))

-- The services of one namespace, behind those of the namespaces before it; an error skips it.
abbrev pub append_services : List Service → Error ⊎ List Service → List Service
append_services services (inl err) = services
append_services services (inr more) = services ++ more

-- Where there are no namespaces, an error keeps what was polled before.
abbrev pub keep_or_set : Exporter → Error ⊎ List Service → Exporter
keep_or_set e (inl err) = e
keep_or_set e (inr services) = record e { services = services }

module _ (p : Provider) where
  -- The error of `http.NewRequest` is dropped, and the nil request is used: a panic.
  unfoldable pub request : Exporter → Bytes → Exit (Error ⊎ ProviderResponse)
  request e url =
      let get : ClientRequest = record {
        method = codes "GET";
        url = url;
        header = [];
        body = [];
      } in
      let signed : ClientRequest = elim e.credentials [
        | none ↦ get
        | some c ↦ p.set_basic_auth c get
      ] in
      if p.parses url then done (p.send signed) else panicked

  unfoldable pub decode_services : Error ⊎ Bytes → Error ⊎ List Service
  decode_services (inl err) = inl err
  decode_services (inr []) = inl (codes "no response body from /system/functions")
  decode_services (inr (b ∷ body)) =
      let (err, services) = p.unmarshal_services (b ∷ body) in
      elim err [ some e ↦ inl (bad_json (b ∷ body) e) | none ↦ inr services ]

  abbrev pub functions_of : Error ⊎ ProviderResponse → Error ⊎ List Service
  functions_of (inl err) = inl err
  functions_of (inr res) = decode_services (read_all res.body)

  unfoldable pub get_functions : Exporter → Bytes → Exit (Error ⊎ List Service)
  unfolding request decode_services
  get_functions e namespace =
      let query : Option Bytes = if is_empty namespace then none else some namespace in
      and_then (request e (p.url_for (codes "/system/functions") query))
        (λ res. done (functions_of res))

  -- The names that are there also behind an error, which is only logged.
  unfoldable pub decode_names : Error ⊎ Bytes → List Bytes
  decode_names (inl err) = []
  decode_names (inr []) = []
  decode_names (inr (b ∷ body)) = (p.unmarshal_names (b ∷ body)).1

  abbrev pub namespaces_of : Error ⊎ ProviderResponse → List Bytes
  namespaces_of (inl err) = []
  namespaces_of (inr res) = if res.status_code == 404 then [] else decode_names (read_all res.body)

  unfoldable pub get_namespaces : Exporter → Exit (List Bytes)
  unfolding request decode_names
  get_namespaces e =
      and_then (request e (p.url_for (codes "system/namespaces") none))
        (λ res. done (namespaces_of res))

  unfoldable pub gather : Exporter → List Service → List Bytes → Exit (List Service)
  unfolding get_functions
  gather e services [] = done services
  gather e services (namespace ∷ namespaces) =
      and_then (get_functions e namespace)
        (λ got. gather e (append_services services got) namespaces)

  abbrev pub poll_namespaces : Exporter → List Bytes → Exit Exporter
  poll_namespaces e [] =
      and_then (get_functions e e.function_namespace) (λ got. done (keep_or_set e got))
  poll_namespaces e (namespace ∷ namespaces) =
      and_then (gather e [] (namespace ∷ namespaces))
        (λ services. done (record e { services = services }))

  -- One tick of `StartServiceWatcher`.
  unfoldable pub tick : Exporter → Exit Exporter
  unfolding get_namespaces gather
  tick e = and_then (get_namespaces e) (poll_namespaces e)
