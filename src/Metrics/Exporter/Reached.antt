-- ===== src/Metrics/Exporter/Reached.antt =====
-- The exporter through any sequence of polls and collections: where what the gauge shows comes
-- from.
use faas_drl.Base.{
  ℕ, ◌≡◌, refl, sym, ap, ◌∙◌, ◌⊎◌, inl, inr, Option, none, some, List, [], ◌∷◌, ◌++◌, All,
  if◌then◌else◌, arith, Option-cases, Bool-cases,
}
use faas_drl.Base.Bytes.{Bytes, eq_bytes, eq_of_eq_bytes}
use faas_drl.Effect.{done}
use faas_drl.Float64.{Float64, of_uint64}
use faas_drl.Metrics.Exporter.{
  Service, Exporter, new_exporter, Provider, GaugeCall, gauge_reset, gauge_set, service_name,
  collect, get_functions, tick,
}
use faas_drl.Metrics.Exporter.Polled.{Holds-All, tick-Holds}
use faas_drl.Metrics.Exporter.Gauge.{reading, last_replicas, shown, reading-collect}

-- The exporter and the calls of the gauge, behind polls of providers, the last one first, and
-- collections in any order. A poll that panics ends the program.
pub data Reached (credentials : Option (Bytes × Bytes)) (namespace : Bytes)
    : List (Provider × Exporter) → Exporter → List GaugeCall → Type 0 where
  begun : Reached credentials namespace [] (new_exporter credentials namespace) []
  ticked :
      {polls : List (Provider × Exporter)} {e e' : Exporter} {calls : List GaugeCall} (p : Provider)
      → Reached credentials namespace polls e calls
      → tick p e ≡ done e'
      → Reached credentials namespace ((p, e) ∷ polls) e' calls
  collected :
      {polls : List (Provider × Exporter)} {e : Exporter} {calls : List GaugeCall}
      → Reached credentials namespace polls e calls
      → Reached credentials namespace polls e (calls ++ collect e)

abbrev Mem : Service → List Service → Type 0
Mem s [] = ⊥
Mem s (x ∷ xs) = (s ≡ x) ⊎ Mem s xs

-- The provider lists the service, if it is asked with the exporter.
abbrev pub IsListed : Provider → Exporter → Service → Type 0
IsListed p e s =
    (namespace : Bytes) × (services : List Service) × (get_functions p e namespace
      ≡ done (inr services))
    × Mem s services

-- One of the polls listed the service.
abbrev pub Reported : List (Provider × Exporter) → Service → Type 0
Reported [] s = ⊥
Reported ((p, e) ∷ polls) s = IsListed p e s ⊎ Reported polls s

All-Mem : (P : Service → Type 0) (xs : List Service) → ((s : Service) → Mem s xs → P s) → All P xs
All-Mem P [] h = tt
All-Mem P (x ∷ xs) h = (h x (inl refl), All-Mem P xs (λ s m. h s (inr m)))

All-imp :
    (P Q : Service → Type 0) (xs : List Service) → ((s : Service) → P s → Q s) → All P xs → All Q xs
All-imp P Q [] h a = tt
All-imp P Q (x ∷ xs) h (a, b) = (h x a, All-imp P Q xs h b)

last_replicas-All :
    (P : Service → Type 0) (name : Bytes) (services : List Service) {n : ℕ}
    → All P services
    → last_replicas name services ≡ some n
    → (s : Service) × P s × (service_name s ≡ name) × (s.replicas ≡ n)
last_replicas-All P name [] a e = absurd (cc e)
last_replicas-All P name (s ∷ services) {n} (k, a) e =
    elim (Option-cases (last_replicas name services)) [
      | inr (m, q) ↦ last_replicas-All P name services a (q ∙ ground (arith, e, q))
      | inl q ↦ elim (Bool-cases (eq_bytes (service_name s) name)) [
        | inl b ↦ (s, k, eq_of_eq_bytes (service_name s) name b, ground (arith, e, q, b))
        | inr b ↦ absurd (ground (arith, e, q, b))
      ]
    ]

reading-append :
    (name : Bytes) (value : Option Float64) (xs ys : List GaugeCall)
    → reading name value (xs ++ ys) ≡ reading name (reading name value xs) ys
reading-append name value [] ys = refl
reading-append name value (gauge_reset ∷ xs) ys = reading-append name none xs ys
reading-append name value (gauge_set n v ∷ xs) ys =
    reading-append name (if eq_bytes n name then some v else value) xs ys

module _ (credentials : Option (Bytes × Bytes)) (namespace : Bytes) where
  services-Reported :
      {polls : List (Provider × Exporter)} {e : Exporter} {calls : List GaugeCall}
      → Reached credentials namespace polls e calls
      → All (Reported polls) e.services
  unfolding new_exporter
  services-Reported begun = tt
  services-Reported (ticked {polls} {e} {e'} p h q) =
      let brought =
        tick-Holds (Reported ((p, e) ∷ polls)) p e
          (λ ns l k. All-Mem _ l (λ s m. inl (ns, l, k, m)))
          (All-imp (Reported polls) _ e.services (λ s. inr) (services-Reported h)) in
      Holds-All (Reported ((p, e) ∷ polls)) (tick p e) e' brought q
  services-Reported (collected h) = services-Reported h

  -- Whatever polls and collections came before, in whatever order: a value that the gauge shows for
  -- a name is the count of replicas, as a float64, of a service of that name that the provider
  -- listed at one of the polls. The gauge never shows a function that no poll has found.
  pub reading-Reported :
      {polls : List (Provider × Exporter)} {e : Exporter} {calls : List GaugeCall} {v : Float64}
      (name : Bytes)
      → Reached credentials namespace polls e calls
      → reading name none calls ≡ some v
      → (s : Service) × Reported polls s × (service_name s ≡ name) × (v ≡ of_uint64 s.replicas)
  reading-Reported name begun r = absurd (cc r)
  reading-Reported {v = v} name (ticked {polls} {e} p h q) r =
      let (s, k, named, counted) = reading-Reported {v = v} name h r in (s, inr k, named, counted)
  reading-Reported {v = v} name (collected {polls} {e} {calls} h) r =
      let read : shown none (last_replicas name e.services) ≡ some v =
        sym (
          reading-append name none calls (collect e)
          ∙ reading-collect name (reading name none calls) e)
        ∙ r in
      elim (Option-cases (last_replicas name e.services)) [
        | inl q ↦ absurd (cc (read, ap (shown none) q))
        | inr (n, q) ↦
            let (s, k, named, counted) =
              last_replicas-All (Reported polls) name e.services (services-Reported h) q in
            let same : some (of_uint64 n) ≡ some v = sym (ap (shown none) q) ∙ read in
            (s, k, named, rw counted (sym (cc same)))
      ]
