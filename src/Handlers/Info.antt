-- ===== src/Handlers/Info.antt =====
-- gateway/handlers/infohandler.go, with gateway/types/inforequest.go and
-- gateway/version/version.go. Lines that only log are left out.
use faas_drl.Base.{◌⊎◌, inl, inr, Option, if◌then◌else◌}
use faas_drl.Base.Bytes.{Bytes, codes}
use faas_drl.Effect.{Error, Exit, done, panicked, M}
use faas_drl.Http.{Request, Writer, new_writer, write_header, write}
use faas_drl.Http.Headers.{set_header}
use faas_drl.Handlers.Forwarding.{is_empty}

-- What is set when the gateway is built.
pub record Build : Type 0 where
  pub version : Bytes
  pub git_commit_sha : Bytes
  pub git_commit_message : Bytes
  pub arch : Bytes

unfoldable pub build_version : Build → Bytes
build_version build = if is_empty build.version then codes "dev" else build.version

-- `VersionInfo` of faas-provider.
pub record VersionInfo : Type 0 where
  pub commit_message : Bytes
  pub sha : Bytes
  pub release : Bytes

-- `types.GatewayInfo`; the information on the provider is of a type of faas-provider.
pub record GatewayInfo (P : Type 0) : Type 0 where
  pub provider : Option P
  pub version : VersionInfo
  pub arch : Bytes

module _ {P : Type 0} (build : Build) (unmarshal : Bytes → Option Error × Option P)
    (marshal : GatewayInfo P → Error ⊎ Bytes) where
  unfoldable pub gateway_info : Bytes → GatewayInfo P
  unfolding build_version
  gateway_info body = record {
    provider = (unmarshal body).1;
    version = record {
      commit_message = build.git_commit_message;
      sha = build.git_commit_sha;
      release = build_version build;
    };
    arch = build.arch;
  }

  abbrev pub write_info : Error ⊎ Bytes → Writer → Writer
  write_info (inl err) w = write_header 500 w
  write_info (inr out) w = write out (
      write_header 200 (record w {
        header = set_header (codes "Content-Type") (codes "application/json") w.header;
      }))

  -- The answer behind the recorded one.
  abbrev pub with_recorded :
      {S : Type 0} → Writer → Exit (Unit {0}) × (Writer × S) → Exit (Unit {0}) × (Writer × S)
  with_recorded w (done _, (recorder, s)) =
      (done tt, (write_info (marshal (gateway_info recorder.body)) w, s))
  with_recorded w (panicked, (recorder, s)) = (panicked, (w, s))

  -- `MakeInfoHandler`; the next handler writes to a recorder.
  unfoldable pub info_handler :
      {S : Type 0} → (Request → M (Writer × S) (Unit {0})) → Request → M (Writer × S) (Unit {0})
  unfolding gateway_info
  info_handler h r (w, s) = with_recorded w (h r (new_writer, s))
