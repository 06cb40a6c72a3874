-- ===== src/Scaling/Response.antt =====
-- gateway/scaling/service_query.go and scaling_config.go. `ServiceQuery` is an interface: the
-- answers of a provider may depend on all that has happened, so they are functions of the history.
use faas_drl.Base.{ℕ, Option, List, none}
use faas_drl.Base.Int.{ℤ}
use faas_drl.Base.Bytes.{Bytes}
use faas_drl.Base.Dict.{Dict}
use faas_drl.Effect.{Error, Exit}

-- The counts are of type uint64.
pub record ServiceQueryResponse : Type 0 where
  pub replicas : ℕ
  pub max_replicas : ℕ
  pub min_replicas : ℕ
  pub scaling_factor : ℕ
  pub available_replicas : ℕ
  pub annotations : Option (Dict Bytes)

abbrev pub empty_response : ServiceQueryResponse
empty_response = record {
  replicas = 0;
  max_replicas = 0;
  min_replicas = 0;
  scaling_factor = 0;
  available_replicas = 0;
  annotations = none;
}

-- What a computation does that its environment sees: it reads the clock, asks for the replicas of
-- a function, sets their count, or sleeps.
pub data Event : Type 0 where
  clock_read : Event
  replicas_asked : (service namespace : Bytes) → Event
  replicas_set : (service namespace : Bytes) → (count : ℕ) → Event
  slept : (interval : ℤ) → Event

-- The newest event first.
abbrev pub History : Type 0
History = List Event

-- The environment: the time in nanoseconds and the answers of the provider. A `SetReplicas` may
-- panic, as that of gateway/plugin/external.go does behind a client that gives no response; its
-- `GetReplicas` returns whatever a client gives that keeps to its contract.
pub record Environment : Type 0 where
  pub time : History → ℤ
  pub get_replicas : History → Bytes → Bytes → ServiceQueryResponse × Option Error
  pub set_replicas : History → Bytes → Bytes → ℕ → Exit (Option Error)

-- The provider and the clock are in the environment.
pub record ScalingConfig : Type 0 where
  pub max_poll_count : ℕ
  pub function_poll_interval : ℤ
  pub cache_expiry : ℤ
  pub set_scale_retries : ℕ
