-- ===== src/Metrics/Options/Fits.antt =====
-- The labels that vectors are asked with are those that they were made with.
use faas_drl.Base.{
  ℕ, zero, suc, get_elem?, ◌≡◌, refl, true, some, List, [], ◌∷◌, length, All, is_some,
}
use faas_drl.Base.Bytes.{Bytes}
use faas_drl.Base.Dict.{lookup}
use faas_drl.Handlers.Forwarding.Proxy.{Notice}
use faas_drl.Handlers.Notifiers.{
  MetricCall, started_inc, seconds_observed, invocation_inc, metric_calls,
}
use faas_drl.Metrics.Exporter.{Exporter, GaugeCall, gauge_reset, gauge_set, collect}
use faas_drl.Metrics.Options.{
  Vec, MetricOptions, build_metrics_options, describe, Registration, unregistered,
  register_exporter, Labels, by_value, by_name, notified_vec, gauge_labels,
}

-- A vector gives a metric for labels, and else panics: as many values as it has labels, or a map
-- with exactly its labels.
abbrev pub Fits : Vec → Labels → Type 0
Fits v (by_value values) = length values ≡ length v.labels
Fits v (by_name labels) =
    (length labels ≡ length v.labels) × All (λ l. is_some (lookup l labels) ≡ true) v.labels

notified-Fits :
    (c : MetricCall) → let (v, labels) = notified_vec build_metrics_options c in Fits v labels
unfolding notified_vec build_metrics_options lookup
notified-Fits (started_inc name) = refl
notified-Fits (seconds_observed name code d) = (refl, (refl, (refl, tt)))
notified-Fits (invocation_inc name code) = (refl, (refl, (refl, tt)))

All-everywhere : {A : Type 0} (P : A → Type 0) → ((a : A) → P a) → (xs : List A) → All P xs
All-everywhere P k [] = tt
All-everywhere P k (x ∷ xs) = (k x, All-everywhere P k xs)

gauge-Fits :
    (c : GaugeCall) → All (Fits build_metrics_options.service_replicas_gauge) (gauge_labels c)
unfolding gauge_labels build_metrics_options
gauge-Fits gauge_reset = tt
gauge-Fits (gauge_set name value) = (refl, tt)

-- The registrations of `k` calls.
abbrev pub register_times : ℕ → MetricOptions → Registration
register_times zero m = unregistered
register_times (suc k) m = register_exporter m (register_times k m)

register_times_lem :
    (m : MetricOptions) (k : ℕ)
    → register_times (suc k) m ≡ record { once = true; registered = describe m }
unfolding register_exporter
register_times_lem m zero = refl
register_times_lem m (suc k) = rw (register_times_lem m k, register_exporter) refl

abbrev pub Among : Vec → List Vec → Type 0
Among v vs = (i : ℕ) × (get_elem? vs i ≡ some v)

notified-Among : (m : MetricOptions) (c : MetricCall) → Among (notified_vec m c).0 (describe m)
unfolding notified_vec describe
notified-Among m (started_inc name) = (3, refl)
notified-Among m (seconds_observed name code d) = (1, refl)
notified-Among m (invocation_inc name code) = (0, refl)

gauge-Among : (m : MetricOptions) → Among m.service_replicas_gauge (describe m)
unfolding describe
gauge-Among m = (2, refl)

-- However often the exporter is registered, once or more, the registry is given the four vectors of
-- the gateway once. Every call that the notifiers make on a vector, and every value that the
-- exporter sets, is made on one of them, with exactly the labels that this vector was made with,
-- so that none of these calls panics.
pub metrics-Fits :
    (k : ℕ) (ns : Bytes) (notices : List Notice) (e : Exporter)
    → let m = build_metrics_options in
      let exposed = (register_times (suc k) m).registered in
      (length exposed ≡ 4)
      × All
          (λ c. let (v, labels) = notified_vec m c in Among v exposed × Fits v labels)
          (metric_calls ns notices)
      × (Among m.service_replicas_gauge exposed)
      × All (λ c. All (Fits m.service_replicas_gauge) (gauge_labels c)) (collect e)
unfolding build_metrics_options describe
metrics-Fits k ns notices e =
    let m = build_metrics_options in
    rw (register_times_lem m k) (
      refl,
      All-everywhere _ (λ c. (notified-Among m c, notified-Fits c)) _,
      gauge-Among m,
      All-everywhere _ gauge-Fits _,
    )
