-- ===== src/Metrics/Exporter/Polled.antt =====
-- What a poll of the exporter brings in, whatever the provider answers.
use faas_drl.Base.{◌≡◌, refl, ◌⊎◌, inl, inr, List, [], ◌∷◌, All, All-append}
use faas_drl.Base.Bytes.{Bytes}
use faas_drl.Effect.{Error, Exit, done, panicked}
use faas_drl.Metrics.Added.{and_then}
use faas_drl.Metrics.Exporter.{
  Service, Exporter, Provider, get_functions, get_namespaces, append_services, keep_or_set, gather,
  poll_namespaces, tick,
}

-- What holds of the services that a poll ends with, unless it panics.
module _ (P : Service → Type 0) where
  abbrev AllOf : Exit (List Service) → Type 0
  AllOf panicked = Unit
  AllOf (done services) = All P services

  abbrev pub Holds : Exit Exporter → Type 0
  Holds panicked = Unit
  Holds (done e') = All P e'.services

  pub Holds-All : (m : Exit Exporter) (e' : Exporter) → Holds m → m ≡ done e' → All P e'.services
  Holds-All panicked e' h q = absurd (cc q)
  Holds-All (done e) e' h q = let same : e ≡ e' = cc q in rw⁻¹ same h

-- A poll brings in only what satisfies what the answers satisfy.
module _ (P : Service → Type 0) (p : Provider) (e : Exporter)
    (listed : (namespace : Bytes) (services : List Service)
      → get_functions p e namespace ≡ done (inr services)
      → All P services) where
  All-append_services :
      (namespace : Bytes) (got : Error ⊎ List Service) (acc : List Service)
      → get_functions p e namespace ≡ done got
      → All P acc
      → All P (append_services acc got)
  All-append_services namespace (inl err) acc q a = a
  All-append_services namespace (inr more) acc q a =
      All-append P acc more a (listed namespace more q)

  All-keep_or_set :
      (got : Error ⊎ List Service)
      → get_functions p e e.function_namespace ≡ done got
      → All P e.services
      → All P (keep_or_set e got).services
  All-keep_or_set (inl err) q a = a
  All-keep_or_set (inr services) q a = listed e.function_namespace services q

  All-gather :
      (acc : List Service) (namespaces : List Bytes)
      → All P acc
      → AllOf P (gather p e acc namespaces)
  unfolding gather
  All-gather acc [] a = a
  All-gather acc (namespace ∷ namespaces) a =
      go (λ acc'. All-gather acc' namespaces) (get_functions p e namespace) refl
    where
      go :
          ((acc' : List Service) → All P acc' → AllOf P (gather p e acc' namespaces))
          → (m : Exit (Error ⊎ List Service)) → get_functions p e namespace ≡ m
          → AllOf P (and_then m (λ got. gather p e (append_services acc got) namespaces))
      go rest panicked q = tt
      go rest (done got) q =
          rest (append_services acc got) (All-append_services namespace got acc q a)

  poll-Holds :
      (namespaces : List Bytes) → All P e.services → Holds P (poll_namespaces p e namespaces)
  poll-Holds [] a = go (get_functions p e e.function_namespace) refl
    where
      go :
          (m : Exit (Error ⊎ List Service))
          → get_functions p e e.function_namespace ≡ m
          → Holds P (and_then m (λ got. done (keep_or_set e got)))
      go panicked q = tt
      go (done got) q = All-keep_or_set got q a
  poll-Holds (namespace ∷ namespaces) a =
      go (gather p e [] (namespace ∷ namespaces)) (All-gather [] (namespace ∷ namespaces) tt)
    where
      go :
          (m : Exit (List Service))
          → AllOf P m
          → Holds P (and_then m (λ services. done (record e { services = services })))
      go panicked h = tt
      go (done services) h = h

  pub tick-Holds : All P e.services → Holds P (tick p e)
  unfolding tick
  tick-Holds a = go (get_namespaces p e)
    where
      go : (m : Exit (List Bytes)) → Holds P (and_then m (poll_namespaces p e))
      go panicked = tt
      go (done namespaces) = poll-Holds namespaces a
