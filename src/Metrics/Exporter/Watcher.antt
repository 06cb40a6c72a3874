-- ===== src/Metrics/Exporter/Watcher.antt =====
-- What one round of polling leaves in the exporter, and what the gauge shows then.
use faas_drl.Base.{
  ◌≡◌, refl, ap, true, Option, none, some, List, [], ◌∷◌, ◌++◌, append_assoc, append-nil,
  if◌then◌else◌, ◌⊎◌, inl, inr,
}
use faas_drl.Base.Bytes.{Bytes, codes}
use faas_drl.Effect.{Error, done}
use faas_drl.Float64.{Float64}
use faas_drl.Handlers.Forwarding.{is_empty}
use faas_drl.Metrics.Exporter.{
  Service, Exporter, Provider, ProviderResponse, request, functions_of, get_functions,
  namespaces_of, get_namespaces, append_services, gather, keep_or_set, poll_namespaces, tick,
  collect,
}
use faas_drl.Metrics.Exporter.Gauge.{reading, last_replicas, shown, reading-collect}
use faas_drl.Plugin.External.{ClientRequest}

module _ (p : Provider) (e : Exporter) where
  -- The answer of the provider for a URL.
  abbrev pub answer : Bytes → Error ⊎ ProviderResponse
  answer url =
      let get : ClientRequest = record {
        method = codes "GET";
        url = url;
        header = [];
        body = [];
      } in
      p.send (elim e.credentials [ none ↦ get | some c ↦ p.set_basic_auth c get ])

  -- What the provider lists of a namespace, and the namespaces that it lists.
  abbrev pub functions_in : Bytes → Error ⊎ List Service
  functions_in namespace = functions_of p (
      answer (
        p.url_for (codes "/system/functions")
          (if is_empty namespace then none else some namespace)))

  abbrev pub listed_namespaces : List Bytes
  listed_namespaces = namespaces_of p (answer (p.url_for (codes "system/namespaces") none))

  -- The services of those of the namespaces that the provider answers for, in order.
  abbrev pub services_in : List Bytes → List Service
  services_in [] = []
  services_in (namespace ∷ namespaces) =
      append_services [] (functions_in namespace) ++ services_in namespaces

  -- Where there are no namespaces, those of the namespace of the gateway, or the old ones.
  abbrev pub polled : List Bytes → List Service
  polled [] = (keep_or_set e (functions_in e.function_namespace)).services
  polled (namespace ∷ namespaces) = services_in (namespace ∷ namespaces)

  module _ (parses : (url : Bytes) → p.parses url ≡ true) where
    request-answer : (url : Bytes) → request p e url ≡ done (answer url)
    unfolding request
    request-answer url = rw (parses url) refl

    get_functions-functions_in :
        (namespace : Bytes) → get_functions p e namespace ≡ done (functions_in namespace)
    unfolding get_functions
    get_functions-functions_in namespace =
        rw
          (request-answer (
            p.url_for (codes "/system/functions")
              (if is_empty namespace then none else some namespace)))
          refl

    append_services-append :
        (acc : List Service) (got : Error ⊎ List Service) (rest : List Service)
        → append_services acc got ++ rest ≡ acc ++ (append_services [] got ++ rest)
    append_services-append acc (inl err) rest = refl
    append_services-append acc (inr more) rest = append_assoc acc more rest

    gather-services_in :
        (acc : List Service) (namespaces : List Bytes)
        → gather p e acc namespaces ≡ done (acc ++ services_in namespaces)
    unfolding gather
    gather-services_in acc [] = rw (append-nil acc) refl
    gather-services_in acc (namespace ∷ namespaces) =
        rw
          (
            get_functions-functions_in namespace,
            gather-services_in (append_services acc (functions_in namespace)) namespaces,
          )
          (ap done (append_services-append acc (functions_in namespace) (services_in namespaces)))

    gather-polled :
        (namespace : Bytes) (namespaces : List Bytes)
        → poll_namespaces p e (namespace ∷ namespaces)
          ≡ done (record e { services = polled (namespace ∷ namespaces) })
    gather-polled namespace namespaces = rw (gather-services_in [] (namespace ∷ namespaces)) refl

    keep_or_set-services :
        (got : Error ⊎ List Service)
        → keep_or_set e got ≡ record e { services = (keep_or_set e got).services }
    keep_or_set-services (inl err) = refl
    keep_or_set-services (inr more) = refl

    poll_namespaces-polled :
        (namespaces : List Bytes)
        → poll_namespaces p e namespaces ≡ done (record e { services = polled namespaces })
    poll_namespaces-polled [] =
        rw (get_functions-functions_in e.function_namespace)
          (ap done (keep_or_set-services (functions_in e.function_namespace)))
    poll_namespaces-polled (namespace ∷ namespaces) = gather-polled namespace namespaces

    get_namespaces-listed_namespaces : get_namespaces p e ≡ done listed_namespaces
    unfolding get_namespaces
    get_namespaces-listed_namespaces =
        rw (request-answer (p.url_for (codes "system/namespaces") none)) refl

    -- When each URL of the provider parses, a tick does not panic and leaves the credentials and
    -- the namespace of the exporter as they are. Where the provider lists namespaces, the services
    -- are those of the namespaces that it answers for, in their order; where it lists none, those
    -- of the namespace of the gateway, or the old ones if that fails. Behind the next collection
    -- the gauge shows for each name the replicas of the last of these services of that name,
    -- whatever it showed before.
    pub tick_lem :
        (tick p e ≡ done (record e { services = polled listed_namespaces }))
        × ((name : Bytes) (value : Option Float64)
            → reading name value (collect (record e { services = polled listed_namespaces }))
              ≡ shown none (last_replicas name (polled listed_namespaces)))
    unfolding tick
    tick_lem = (
      rw (get_namespaces-listed_namespaces) (poll_namespaces-polled listed_namespaces),
      λ name value. reading-collect name value (record e { services = polled listed_namespaces }),
    )
