-- ===== src/Handlers/Alert.antt =====
-- gateway/handlers/alerthandler.go: alerts of Prometheus scale functions up and down, with the
-- alerts of gateway/requests/prometheus.go. Lines that only log are left out.
pub mod Replicas
pub mod Justified
pub mod Handler
pub mod Bounded
use faas_drl.Base.{
  ℕ, ◌+◌, ◌%◌, ◌^◌, ◌≡◌, refl, Bool, true, false, ◌&&◌, Option, none, some, List, [], ◌∷◌, ◌++◌,
  ltb, ◌==◌, if◌then◌else◌,
}
use faas_drl.Base.Bytes.{Bytes, codes, eq_bytes}
use faas_drl.Effect.{Error, M, done, pure, continue, ◌>>=◌, ◌>>◌}
use faas_drl.Float64.{Float64, of_uint64, divide, multiply, minimum, truncate, ceiling}
use faas_drl.Middleware.ServiceName.{get_namespace}
use faas_drl.Scaling.Response.{
  ServiceQueryResponse, Environment, History, replicas_asked, replicas_set,
}

pub record PrometheusInnerAlertLabel : Type 0 where
  pub alert_name : Bytes
  pub function_name : Bytes

pub record PrometheusInnerAlert : Type 0 where
  pub status : Bytes
  pub labels : PrometheusInnerAlertLabel

pub record PrometheusAlert : Type 0 where
  pub status : Bytes
  pub receiver : Bytes
  pub alerts : List PrometheusInnerAlert

abbrev pub default_max_replicas : ℕ
default_max_replicas = 5

-- `uint64(math.Min(float64(maxReplicas), float64(scaling.DefaultMaxReplicas)))`
unfoldable pub clamp_max : ℕ → ℕ
clamp_max max_replicas =
    truncate (minimum (of_uint64 max_replicas) (of_uint64 default_max_replicas))

-- `uint64(math.Ceil(float64(maxReplicas) / 100 * float64(scalingFactor)))`
unfoldable pub scaling_step : ℕ → ℕ → ℕ
scaling_step max_replicas scaling_factor =
    ceiling (multiply (divide (of_uint64 max_replicas) (of_uint64 100)) (of_uint64 scaling_factor))

-- Sums of type uint64 wrap.
abbrev pub add64 : ℕ → ℕ → ℕ
add64 a b = (a + b) % 2 ^ 64

abbrev pub is_firing : Bytes → Bool
is_firing status = eq_bytes status (codes "firing")

unfoldable pub calculate_replicas : Bytes → ℕ → ℕ → ℕ → ℕ → ℕ
calculate_replicas status current_replicas max_replicas min_replicas scaling_factor =
    let max = clamp_max max_replicas in
    let step = scaling_step max scaling_factor in
    if is_firing status && ltb 0 step
    then (if ltb max (add64 current_replicas step) then max else add64 current_replicas step)
    else min_replicas

-- The count that an alert asks for, from the answer of the provider.
abbrev pub new_replicas : Bytes → ServiceQueryResponse → ℕ
new_replicas status r =
    calculate_replicas status r.replicas r.max_replicas r.min_replicas r.scaling_factor

abbrev pub append_error : List Error → Option Error → List Error
append_error errors none = errors
append_error errors (some err) = errors ++ err ∷ []

module _ (env : Environment) where
  -- Calls of the service query; the state is what has happened so far.
  unfoldable pub get_replicas : Bytes → Bytes → M History (ServiceQueryResponse × Option Error)
  get_replicas name namespace h =
      (done (env.get_replicas h name namespace), replicas_asked name namespace ∷ h)

  unfoldable pub set_replicas : Bytes → Bytes → ℕ → M History (Option Error)
  set_replicas name namespace count h =
      (env.set_replicas h name namespace count, replicas_set name namespace count ∷ h)

  -- Behind the query: its error is dropped.
  unfoldable pub adjust :
      Bytes → Bytes → Bytes → ServiceQueryResponse × Option Error → M History (Option Error)
  unfolding set_replicas
  adjust status name namespace (r, some err) = pure none
  adjust status name namespace (r, none) =
      if new_replicas status r == r.replicas
      then pure none
      else set_replicas name namespace (new_replicas status r)

  scale_named : Bytes → Bytes × Bytes → M History (Option Error)
  unfolding get_replicas adjust
  scale_named status ([], namespace) = pure none
  scale_named status (c ∷ name, namespace) =
      get_replicas (c ∷ name) namespace >>= adjust status (c ∷ name) namespace

  unfoldable pub scale_service : Bytes → PrometheusInnerAlert → M History (Option Error)
  unfolding scale_named
  scale_service default_namespace alert =
      scale_named alert.status (get_namespace default_namespace alert.labels.function_name)

  handle_from : Bytes → List Error → List PrometheusInnerAlert → M History (List Error)
  unfolding scale_service
  handle_from default_namespace errors [] = pure errors
  handle_from default_namespace errors (alert ∷ alerts) =
      scale_service default_namespace alert >>= λ err.
      handle_from default_namespace (append_error errors err) alerts

  unfoldable pub handle_alerts : Bytes → PrometheusAlert → M History (List Error)
  unfolding handle_from
  handle_alerts default_namespace req = handle_from default_namespace [] req.alerts
