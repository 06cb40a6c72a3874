-- ===== src/Handlers/Logs.antt =====
-- gateway/handlers/logs.go: the logs of a function are streamed from their provider. Lines that
-- only log are left out; the timeout and the cancelling of the request are those of Go's contexts.
pub mod Relayed
use faas_drl.Base.{
  ℕ, Bool, true, false, not, ◌||◌, Option, none, some, List, [], ◌∷◌, ◌++◌, ◌==◌, if◌then◌else◌,
  ◌⊎◌, inl, inr,
}
use faas_drl.Base.Bytes.{Bytes, codes}
use faas_drl.Effect.{Error, Exit, done, panicked, M}
use faas_drl.Text.{trim_suffix}
use faas_drl.Text.Decimal.{format}
use faas_drl.Http.{Request, Writer, write_header, write, http_error}
use faas_drl.Handlers.Forwarding.{UpstreamRequest, build_upstream_request}

-- An answer of the provider of logs: the bytes are those that came before the body ended or broke
-- off, or the client closed its connection.
pub record LogResponse : Type 0 where
  pub status_code : ℕ
  pub copied : Bytes

-- What the handler is made with: the URL of the provider, `http.NewRequest` and the transport, and
-- whether the writer of the response tells of closed connections and can be flushed.
pub record LogConfig : Type 0 where
  pub log_provider : Bytes
  pub parses : Bytes → Bytes → Bool
  pub round_trip : UpstreamRequest → Error ⊎ LogResponse
  pub is_close_notifier : Bool
  pub is_flusher : Bool

abbrev pub not_found : Writer → Writer
not_found w = http_error (codes "404 page not found") 404 w

-- Each write is flushed; without any the header is not written.
abbrev pub copy_notify : Bytes → Writer → Writer
copy_notify [] w = w
copy_notify (b ∷ bytes) w = write (b ∷ bytes) w

abbrev pub unknown_error : ℕ → Bytes
unknown_error code = codes "unknown log request error (" ++ (format code ++ codes ")")

unfoldable pub relay_logs : Error ⊎ LogResponse → Writer → Writer
relay_logs (inl err) w = http_error (codes "log request failed") 500 w
relay_logs (inr res) w =
    if res.status_code == 404 || res.status_code == 501
    then write_header 501 w
    else (if res.status_code == 200
        then copy_notify res.copied w
        else http_error (unknown_error res.status_code) 500 w)

abbrev pub serve_logs : LogConfig → UpstreamRequest → Writer → Writer
serve_logs config log_request w =
    if not config.is_close_notifier
    then not_found w
    else (if not config.is_flusher
        then not_found w
        else relay_logs (config.round_trip log_request) w)

-- `NewLogHandlerFunc`
unfoldable pub log_handler : LogConfig → Request → M Writer (Unit {0})
unfolding relay_logs
log_handler config r w =
    let base = trim_suffix b'/' config.log_provider in
    elim (build_upstream_request config.parses r base (codes "/system/logs")) [
      | panicked ↦ (panicked, w)
      | done log_request ↦ (done tt, serve_logs config log_request w)
    ]
