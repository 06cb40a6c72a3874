-- ===== src/Metrics/Exporter/Gauge.antt =====
-- What the gauge of replicas shows when it has been collected.
use faas_drl.Base.{ℕ, ◌≡◌, refl, ◌∙◌, Option, none, some, List, [], ◌∷◌, if◌then◌else◌, arith}
use faas_drl.Base.Bytes.{Bytes, eq_bytes}
use faas_drl.Float64.{Float64, of_uint64}
use faas_drl.Metrics.Exporter.{
  Service, Exporter, GaugeCall, gauge_reset, gauge_set, service_name, set_replicas, collect,
}

-- The value of a gauge for a name behind calls that found it at `value`: the last that was set
-- since the last reset.
abbrev pub reading : Bytes → Option Float64 → List GaugeCall → Option Float64
reading name value [] = value
reading name value (gauge_reset ∷ calls) = reading name none calls
reading name value (gauge_set n v ∷ calls) =
    reading name (if eq_bytes n name then some v else value) calls

-- The replicas of the last service of that full name.
abbrev pub last_replicas : Bytes → List Service → Option ℕ
last_replicas name [] = none
last_replicas name (s ∷ services) = elim (last_replicas name services) [
  | some n ↦ some n
  | none ↦ if eq_bytes (service_name s) name then some s.replicas else none
]

abbrev pub shown : Option Float64 → Option ℕ → Option Float64
shown value none = value
shown value (some n) = some (of_uint64 n)

reading-set_replicas :
    (name : Bytes) (value : Option Float64) (services : List Service)
    → reading name value (set_replicas services) ≡ shown value (last_replicas name services)
unfolding set_replicas
reading-set_replicas name value [] = refl
reading-set_replicas name value (s ∷ services) =
    let ih =
      reading-set_replicas name
        (if eq_bytes (service_name s) name then some (of_uint64 s.replicas) else value) services in
    ih ∙ ground arith

-- Whatever the gauge showed before and whatever calls came before, behind `Collect` it shows for
-- each name the replicas of the last polled service of that name, as a float64, and nothing for a
-- name that no service has.
pub reading-collect :
    (name : Bytes) (value : Option Float64) (e : Exporter)
    → reading name value (collect e) ≡ shown none (last_replicas name e.services)
unfolding collect
reading-collect name value e = reading-set_replicas name none e.services
