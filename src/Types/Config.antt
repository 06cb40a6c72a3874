-- ===== src/Types/Config.antt =====
-- gateway/types/readconfig.go: the configuration, read from environment variables. An unset
-- variable is empty. `url.Parse` and `time.ParseDuration` are code of Go's library: they are given
-- by `Parsers`, where an error is its text.
pub mod Laws
use faas_drl.Base.{
  ℕ, ◌≡◌, refl, Bool, true, false, ◌&&◌, Option, none, some, List, [], ◌∷◌, ◌++◌, is_some,
  if◌then◌else◌, ◌⊎◌, inl, inr,
}
use faas_drl.Base.Int.{ℤ, pos, negsuc, ◌*ℤ◌, wrap_int}
use faas_drl.Base.Bytes.{Bytes, codes, eq_bytes}
use faas_drl.Effect.{Error}
use faas_drl.Text.Decimal.{atoi}

-- What of Go's library reads the variables; durations are nanoseconds in 64 bits.
pub record Parsers (Url : Type 0) : Type 0 where
  pub parse_url : Bytes → Option Error × Option Url
  pub print_url : Url → Bytes
  pub parse_duration : Bytes → Option ℤ

pub record GatewayConfig (Url : Type 0) : Type 0 where
  pub read_timeout : ℤ
  pub write_timeout : ℤ
  pub upstream_timeout : ℤ
  pub functions_provider_url : Option Url
  pub logs_provider_url : Option Url
  pub nats_address : Option Bytes
  pub nats_port : Option ℤ
  pub nats_cluster_name : Option Bytes
  pub nats_channel : Option Bytes
  pub prometheus_host : Bytes
  pub prometheus_port : ℤ
  pub use_basic_auth : Bool
  pub secret_mount_path : Bytes
  pub scale_from_zero : Bool
  pub max_idle_conns : ℤ
  pub max_idle_conns_per_host : ℤ
  pub auth_proxy_url : Bytes
  pub auth_proxy_pass_body : Bool
  pub namespace : Bytes

abbrev pub second : ℤ
second = pos 1000000000

abbrev pub parse_bool_value : Bytes → Bool
parse_bool_value val = eq_bytes val (codes "true")

-- A number of seconds; the product wraps to 64 bits.
abbrev pub seconds : Option ℤ → Option ℤ
seconds none = none
seconds (some (negsuc n)) = none
seconds (some (pos n)) = some (wrap_int (pos n *ℤ second))

-- A value, or one in its place.
abbrev pub or_else {ℓ} : {A : Type ℓ} → Option A → A → A
or_else none fallback = fallback
or_else (some a) fallback = a

-- An empty string is not a number.
unfoldable pub parse_int_or_duration_value : {Url : Type 0} → Parsers Url → Bytes → ℤ → ℤ
unfolding atoi
parse_int_or_duration_value p val fallback =
    or_else (seconds (atoi val)) (or_else (p.parse_duration val) fallback)

-- `(value, error)` of a step that returns at an error.
abbrev pub Result : Type 0 → Type 0
Result A = Error ⊎ A

infixl 5 ◌>=>◌
unfoldable pub ◌>=>◌ : {A B : Type 0} → Result A → (A → Result B) → Result B
inl err >=> f = inl err
inr a >=> f = f a

abbrev pub nonempty : Bytes → Option Bytes
nonempty [] = none
nonempty (b ∷ s) = some (b ∷ s)

-- A number, where the variable is set.
unfoldable pub read_int : Error → ℤ → Bytes → Result ℤ
read_int err fallback [] = inr fallback
read_int err fallback (b ∷ s) = elim (atoi (b ∷ s)) [ none ↦ inl err | some n ↦ inr n ]

-- The same for an optional number.
unfoldable pub read_optional_int : Error → Bytes → Result (Option ℤ)
read_optional_int err [] = inr none
read_optional_int err (b ∷ s) = elim (atoi (b ∷ s)) [ none ↦ inl err | some n ↦ inr (some n) ]

abbrev pub bad_url : Bytes → Error → Error
bad_url key err =
    codes "if " ++ (key ++ (codes " is provided, then it should be a valid URL, error: " ++ err))

module _ {Url : Type 0} (p : Parsers Url) where
  -- A URL, where the variable is set.
  unfoldable pub read_url : Bytes → Option Url → Bytes → Result (Option Url)
  read_url key fallback [] = inr fallback
  read_url key fallback (b ∷ s) =
      let (err, url) = p.parse_url (b ∷ s) in
      (elim err [ some e ↦ inl (bad_url key e) | none ↦ inr url ])

  -- The URL of the logs, if its variable is not set.
  abbrev pub logs_fallback : Option Url → Option Url
  logs_fallback none = none
  logs_fallback (some url) = (p.parse_url (p.print_url url)).1

  -- The message for a bad port of Prometheus names the port of NATS.
  unfoldable pub read : (Bytes → Bytes) → Result (GatewayConfig Url)
  unfolding parse_int_or_duration_value read_url read_int read_optional_int
  read getenv =
      let duration =
        λ (key : Bytes). parse_int_or_duration_value p (getenv key) (pos 60000000000) in
      let nats_port_text = getenv (codes "faas_nats_port") in
      let idle_text = getenv (codes "max_idle_conns") in
      let per_host_text = getenv (codes "max_idle_conns_per_host") in
      read_url (codes "functions_provider_url") none (getenv (codes "functions_provider_url"))
      >=> λ functions_url.
          read_url (codes "logs_provider_url") (logs_fallback functions_url)
            (getenv (codes "logs_provider_url"))
          >=> λ logs_url.
              read_optional_int (codes "faas_nats_port invalid number: " ++ nats_port_text)
                nats_port_text
              >=> λ nats_port.
                  read_int (codes "faas_prometheus_port invalid number: " ++ nats_port_text)
                    (pos 9090) (getenv (codes "faas_prometheus_port"))
                  >=> λ prometheus_port.
                      read_int (codes "invalid value for max_idle_conns: " ++ idle_text) (pos 1024)
                        idle_text
                      >=> λ idle.
                          read_int
                            (codes "invalid value for max_idle_conns_per_host: " ++ per_host_text)
                            (pos 1024) per_host_text
                          >=> λ idle_per_host. inr (record {
                            read_timeout = duration (codes "read_timeout");
                            write_timeout = duration (codes "write_timeout");
                            upstream_timeout = duration (codes "upstream_timeout");
                            functions_provider_url = functions_url;
                            logs_provider_url = logs_url;
                            nats_address = nonempty (getenv (codes "faas_nats_address"));
                            nats_port = nats_port;
                            nats_cluster_name = some (
                                or_else (nonempty (getenv (codes "faas_nats_cluster_name")))
                                  (codes "faas-cluster"));
                            nats_channel = some (
                                or_else (nonempty (getenv (codes "faas_nats_channel")))
                                  (codes "faas-request"));
                            prometheus_host =
                                or_else (nonempty (getenv (codes "faas_prometheus_host")))
                                  (codes "prometheus");
                            prometheus_port = prometheus_port;
                            use_basic_auth = parse_bool_value (getenv (codes "basic_auth"));
                            secret_mount_path =
                                or_else (nonempty (getenv (codes "secret_mount_path")))
                                  (codes "/run/secrets/");
                            scale_from_zero = parse_bool_value (getenv (codes "scale_from_zero"));
                            max_idle_conns = idle;
                            max_idle_conns_per_host = idle_per_host;
                            auth_proxy_url = getenv (codes "auth_proxy_url");
                            auth_proxy_pass_body =
                                parse_bool_value (getenv (codes "auth_proxy_pass_body"));
                            namespace = getenv (codes "function_namespace");
                          })

abbrev pub use_nats : {Url : Type 0} → GatewayConfig Url → Bool
use_nats cfg = is_some cfg.nats_port && is_some cfg.nats_address

abbrev pub use_external_provider : {Url : Type 0} → GatewayConfig Url → Bool
use_external_provider cfg = is_some cfg.functions_provider_url
