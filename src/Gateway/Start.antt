-- ===== src/Gateway/Start.antt =====
-- gateway/main.go: how the gateway starts, as far as its configuration decides it. Reading the
-- credentials from their files and connecting to the queue is code of other projects.
pub mod Outcome
mod Tests
use faas_drl.Base.{
  ℕ, ◌≡◌, refl, sym, Bool, true, false, not, ◌&&◌, ◌||◌, Option, none, some, List, [], ◌∷◌, is_some,
  if◌then◌else◌, ◌⊎◌, inl, inr, arith, Option-cases, Bool-cases,
}
use faas_drl.Base.Int.{ℤ}
use faas_drl.Base.Bytes.{Bytes, codes}
use faas_drl.Effect.{Error}
use faas_drl.Types.Config.{Parsers, GatewayConfig, Result, read, use_nats, use_external_provider}
use faas_drl.Types.Config.Laws.{of_read, read-logs_provider_url, read-nats_names}

-- What the queue is made with.
pub record NatsTarget : Type 0 where
  pub address : Bytes
  pub port : ℤ
  pub cluster_name : Bytes
  pub channel : Bytes

-- A gateway that runs, with what its pointers point to.
pub record Running (Url : Type 0) : Type 0 where
  pub functions_url : Url
  pub logs_url : Url
  pub nats : Option NatsTarget
  pub credentials : Option (Bytes × Bytes)

-- `log.Fatalln`, `log.Panicf`, and the panic of a nil pointer.
pub data Start (Url : Type 0) : Type 0 where
  fatal : Error → Start Url
  gave_up : Error → Start Url
  nil_dereferenced : Start Url
  running : Running Url → Start Url

abbrev pub no_provider : Error
no_provider = codes "You must provide an external provider via 'functions_provider_url' env-var."

module _ {Url : Type 0} where
  -- The pointers that are read for the queue.
  abbrev pub nats_target : GatewayConfig Url → Option NatsTarget
  nats_target cfg = elim cfg.nats_address [
    | none ↦ none
    | some address ↦ elim cfg.nats_port [
      | none ↦ none
      | some port ↦ elim cfg.nats_cluster_name [
        | none ↦ none
        | some cluster_name ↦ elim cfg.nats_channel [
          | none ↦ none
          | some channel ↦ some (record {
            address = address;
            port = port;
            cluster_name = cluster_name;
            channel = channel;
          })
        ]
      ]
    ]
  ]

  abbrev pub running_with : Option (Bytes × Bytes) → Url → Url → Option NatsTarget → Running Url
  running_with credentials functions_url logs_url nats = record {
    functions_url = functions_url;
    logs_url = logs_url;
    nats = nats;
    credentials = credentials;
  }

module _ {Url : Type 0} (create_queue : NatsTarget → Option Error) where
  -- With both a port and an address, the queue of `natsHandler.CreateNATSQueue` is made.
  abbrev pub with_queue : GatewayConfig Url → Option (Bytes × Bytes) → Url → Url → Start Url
  with_queue cfg credentials functions_url logs_url =
      if use_nats cfg
      then (elim (nats_target cfg) [
        | none ↦ nil_dereferenced
        | some nats ↦ elim (create_queue nats) [
          | some err ↦ fatal err
          | none ↦ running (running_with credentials functions_url logs_url (some nats))
        ]
      ])
      else running (running_with credentials functions_url logs_url none)

  -- The dereferences of the URLs and of what names the queue.
  unfoldable pub wire : GatewayConfig Url → Option (Bytes × Bytes) → Start Url
  wire cfg credentials = elim cfg.functions_provider_url [
    | none ↦ nil_dereferenced
    | some functions_url ↦ elim cfg.logs_provider_url [
      | none ↦ nil_dereferenced
      | some logs_url ↦ with_queue cfg credentials functions_url logs_url
    ]
  ]

  abbrev pub with_credentials : GatewayConfig Url → Error ⊎ (Bytes × Bytes) → Start Url
  with_credentials cfg (inl err) = gave_up err
  with_credentials cfg (inr credentials) = wire cfg (some credentials)

  unfoldable pub start :
      Parsers Url → (Bytes → Bytes) → (Bytes → Error ⊎ (Bytes × Bytes)) → Start Url
  unfolding wire
  start p getenv read_credentials = elim (read p getenv) [
    | inl err ↦ fatal err
    | inr cfg ↦
        if not (use_external_provider cfg)
        then fatal no_provider
        else (if cfg.use_basic_auth
            then with_credentials cfg (read_credentials cfg.secret_mount_path)
            else wire cfg none)
  ]
