-- ===== src/Handlers/Forwarding/Proxy/Laws.antt =====
-- What the client of a forwarded request gets, and what the notifiers are told.
use faas_drl.Base.{ℕ, ◌≡◌, refl, false, Option, none, some, List, [], ◌∷◌, ◌++◌, map, arith}
use faas_drl.Base.Int.{pos}
use faas_drl.Base.Bytes.{Bytes, codes}
use faas_drl.Base.Dict.{lookup}
use faas_drl.Effect.{done}
use faas_drl.Http.Headers.{Header}
use faas_drl.Http.{Request, Writer, new_writer, write_header, write, final_status}
use faas_drl.Handlers.Forwarding.{UpstreamRequest, build_upstream_request, copy_headers}
use faas_drl.Handlers.Forwarding.Upstream.{lookup-copy_headers}
use faas_drl.Handlers.Forwarding.Proxy.{
  Sent, failed, answered, ProxyConfig, injected, is_event_stream, copy_body, answer, forward,
  forward_request, notice_of, forwarding_proxy_handler,
}

-- The body of the response, or nothing.
abbrev pub body_bytes : Option Bytes → Bytes
body_bytes none = []
body_bytes (some bytes) = bytes

-- What the client sees of an answer: that of the upstream, or 502 with no body.
abbrev pub IsRelayed : Sent → ℕ → Writer → Type 0
IsRelayed (failed err) status w =
    (status ≡ 502) × (w.status ≡ some 502) × (w.body ≡ []) × (w.header ≡ [])
IsRelayed (answered res) status w =
    (status ≡ res.status_code)
    × (w.status ≡ some res.status_code)
    × (w.body ≡ body_bytes res.body)
    × ((j : Bytes) → lookup j w.header ≡ lookup j res.header)

copied_body :
    (o : Option Bytes) (code : ℕ) (header : Header)
    → let w = copy_body o (record { status = some code; header = header; body = [] }) in
      (w.status ≡ some code) × (w.body ≡ body_bytes o) × (w.header ≡ header)
unfolding write
copied_body none code header = (refl, refl, refl)
copied_body (some []) code header = (refl, refl, refl)
copied_body (some (b ∷ bytes)) code header = (refl, refl, refl)

final_status_of_IsRelayed :
    (sent : Sent) (status : ℕ) (w : Writer) → IsRelayed sent status w → final_status w ≡ status
final_status_of_IsRelayed (failed err) status w h = ground arith
final_status_of_IsRelayed (answered res) status w (a, b, _, _) = ground arith

module _ (config : ProxyConfig) where
  answer-IsRelayed :
      (sent : Sent)
      → IsRelayed sent (answer config new_writer sent).0 (answer config new_writer sent).2
  unfolding answer write write_header
  answer-IsRelayed (failed err) = (refl, refl, refl, refl)
  answer-IsRelayed (answered res) =
      let (a, b, c) = copied_body res.body res.status_code (copy_headers [] res.header) in
      (refl, a, b, λ j. rw c (lookup-copy_headers j res.header))

  -- Where the upstream request can be made and is no event stream, the handler returns. The
  -- client gets the status, the headers and the body of the upstream's answer, or 502 if it gives
  -- none; each notifier is told "started" and then "completed" with the status of the response.
  pub forwarding_proxy_handler_lem :
      (notifiers : List ℕ) (r : Request) (upstream : UpstreamRequest)
      → is_event_stream r ≡ false
      → build_upstream_request config.parses r (config.resolve r) (config.transform r)
        ≡ done upstream
      → let sent = config.send (injected config.inject upstream) in
        (status : ℕ) × (w : Writer) × (forwarding_proxy_handler config notifiers r
            (record { writer = new_writer; notices = [] })
          ≡ (
            done tt,
            record {
              writer = w;
              notices =
                  map (notice_of config r 102 (codes "started") (pos 0)) notifiers
                  ++ map (notice_of config r status (codes "completed") config.elapsed) notifiers;
            },
          ))
        × IsRelayed sent status w
        × (final_status w ≡ status)
  unfolding forwarding_proxy_handler
  forwarding_proxy_handler_lem notifiers r upstream plain built =
      let sent = config.send (injected config.inject upstream) in
      let relayed = answer-IsRelayed sent in
      (
        (answer config new_writer sent).0,
        (answer config new_writer sent).2,
        rw (built, forward_request) (rw (plain, forward)),
        relayed,
        final_status_of_IsRelayed sent _ _ relayed,
      )
