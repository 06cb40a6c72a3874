-- ===== src/Gateway/Start/Outcome.antt =====
-- What becomes of a gateway that starts.
use faas_drl.Base.{◌≡◌, true, Option, none, some, is_some, ◌⊎◌, inl, inr}
use faas_drl.Base.Bytes.{Bytes}
use faas_drl.Effect.{Error}
use faas_drl.Types.Config.{Parsers, GatewayConfig, read, use_nats}
use faas_drl.Gateway.Start.{NatsTarget, Running, Start, fatal, gave_up, running, no_provider}

-- How a gateway starts. No pointer of the configuration that is read is nil.
pub data IsStart {Url : Type 0} (p : Parsers Url) (getenv : Bytes → Bytes)
    (read_credentials : Bytes → Error ⊎ (Bytes × Bytes)) (create_queue : NatsTarget → Option Error)
    (result : Start Url) : Type 0 where
  no_config :
      (err : Error)
      → read p getenv ≡ inl err
      → result ≡ fatal err
      → IsStart p getenv read_credentials create_queue result
  unprovided :
      (cfg : GatewayConfig Url)
      → read p getenv ≡ inr cfg
      → cfg.functions_provider_url ≡ none
      → result ≡ fatal no_provider
      → IsStart p getenv read_credentials create_queue result
  no_credentials :
      (cfg : GatewayConfig Url) (err : Error)
      → read p getenv ≡ inr cfg
      → cfg.use_basic_auth ≡ true
      → read_credentials cfg.secret_mount_path ≡ inl err
      → result ≡ gave_up err
      → IsStart p getenv read_credentials create_queue result
  no_queue :
      (cfg : GatewayConfig Url) (nats : NatsTarget) (err : Error)
      → read p getenv ≡ inr cfg
      → use_nats cfg ≡ true
      → create_queue nats ≡ some err
      → result ≡ fatal err
      → IsStart p getenv read_credentials create_queue result
  up :
      (cfg : GatewayConfig Url) (g : Running Url)
      → read p getenv ≡ inr cfg
      → cfg.functions_provider_url ≡ some g.functions_url
      → cfg.logs_provider_url ≡ some g.logs_url
      → is_some g.nats ≡ use_nats cfg
      → is_some g.credentials ≡ cfg.use_basic_auth
      → result ≡ running g
      → IsStart p getenv read_credentials create_queue result

module _ {Url : Type 0} (p : Parsers Url) (getenv : Bytes → Bytes)
    (read_credentials : Bytes → Error ⊎ (Bytes × Bytes)) (create_queue : NatsTarget → Option Error)
    (cfg : GatewayConfig Url) (got : read p getenv ≡ inr cfg)
    (named : (is_some cfg.nats_cluster_name ≡ true) × (is_some cfg.nats_channel ≡ true)) where
  abbrev Starts : Start Url → Type 0
  Starts result = IsStart p getenv read_credentials create_queue result
