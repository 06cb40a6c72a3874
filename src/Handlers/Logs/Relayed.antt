-- ===== src/Handlers/Logs/Relayed.antt =====
-- The answers of the provider of logs, as the client sees them.
use faas_drl.Base.{◌≡◌, refl, true, ◌||◌, [], ◌∷◌, ◌==◌, if◌then◌else◌, ◌⊎◌, inl, inr, arith}
use faas_drl.Base.Bytes.{Bytes, codes}
use faas_drl.Effect.{Error, done}
use faas_drl.Text.{trim_suffix}
use faas_drl.Http.{Request, Writer, new_writer, write_header, write, final_status}
use faas_drl.Http.Laws.{status-http_error}
use faas_drl.Handlers.Forwarding.{UpstreamRequest, build_upstream_request}
use faas_drl.Handlers.Logs.{
  LogResponse, LogConfig, copy_notify, unknown_error, relay_logs, log_handler,
}

-- A provider that cannot be reached is a 500; logs that it does not have or cannot give are a 501;
-- its 200 is a 200 with the bytes that came; any other answer of it is a 500.
abbrev pub IsRelayedLog : Error ⊎ LogResponse → Writer → Type 0
IsRelayedLog (inl err) u = final_status u ≡ 500
IsRelayedLog (inr res) u =
    (final_status u ≡ (
      if res.status_code == 200
      then 200
      else (if res.status_code == 404 || res.status_code == 501 then 501 else 500)))
    × (res.status_code ≡ 200 → u.body ≡ res.copied)

copy_notify_lem :
    (bytes : Bytes)
    → (final_status (copy_notify bytes new_writer) ≡ 200)
      × ((copy_notify bytes new_writer).body ≡ bytes)
unfolding write write_header
copy_notify_lem [] = (refl, refl)
copy_notify_lem (b ∷ bytes) = (refl, refl)

relay_logs-IsRelayedLog : (got : Error ⊎ LogResponse) → IsRelayedLog got (relay_logs got new_writer)
unfolding relay_logs write_header
relay_logs-IsRelayedLog (inl err) =
    rw (status-http_error (codes "log request failed") 500 new_writer refl) refl
relay_logs-IsRelayedLog (inr res) = ground (
  arith,
  copy_notify_lem res.copied,
  status-http_error (unknown_error res.status_code) 500 new_writer refl,
)

-- On a new response that can be streamed, for a request of logs that can be made, the handler
-- returns. A provider of logs that cannot be reached is answered with 500; its 404 and its 501 with
-- 501; its 200 with 200 and exactly the bytes that came; and any other status of it with 500.
pub log_handler_lem :
    (config : LogConfig) (r : Request) (log_request : UpstreamRequest)
    → build_upstream_request config.parses r
        (trim_suffix b'/' config.log_provider)
        (codes "/system/logs")
      ≡ done log_request
    → config.is_close_notifier ≡ true
    → config.is_flusher ≡ true
    → (u : Writer) × (log_handler config r new_writer ≡ (done tt, u))
      × IsRelayedLog (config.round_trip log_request) u
unfolding log_handler
log_handler_lem config r log_request built closes flushes = (
  relay_logs (config.round_trip log_request) new_writer,
  rw (built, closes, flushes, log_handler) refl,
  relay_logs-IsRelayedLog (config.round_trip log_request),
)
