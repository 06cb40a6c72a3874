-- ===== src/Handlers/Alert/Handler.antt =====
-- gateway/handlers/alerthandler.go: `MakeAlertHandler`, around the handling of the alerts. Lines
-- that only log and the closing of the body are left out.
use faas_drl.Base.{ℕ, suc, ◌≡◌, refl, ap, Option, none, some, List, [], ◌∷◌, ◌++◌, ◌⊎◌, inl, inr}
use faas_drl.Base.Bytes.{Bytes, codes}
use faas_drl.Effect.{Error, M, Exit, done, panicked}
use faas_drl.Effect.Laws.{EndsIn}
use faas_drl.Text.Decimal.{format}
use faas_drl.Http.Laws.{status-write_header, status-write-write_header, status-http_error}
use faas_drl.Http.{Request, Body, Writer, write_header, write, http_error}
use faas_drl.Http.Decoded.{Holds, whole, Unreadable, missing, broken_off, undecodable, body_cases}
use faas_drl.Scaling.Response.{Environment, History}
use faas_drl.Handlers.Alert.{PrometheusAlert, handle_alerts}
use faas_drl.Handlers.Alert.Justified.{PanickedSetting, handle_alerts-EndsIn}

-- `[%d] %s\n` for each error, with its index.
abbrev pub error_output : ℕ → List Error → Bytes
error_output d [] = []
error_output d (err ∷ errors) =
    codes "[" ++ (format d ++ (codes "] " ++ (err ++ 10 ∷ error_output (suc d) errors)))

-- Behind the handling.
abbrev pub report : List Error → Writer → Writer
report [] w = write_header 200 w
report (err ∷ errors) w = write (error_output 0 (err ∷ errors)) (write_header 500 w)

-- What the handler has read: the alerts, or the response that refuses the request. JSON is read
-- by encoding/json.
unfoldable pub read_alerts :
    (Bytes → Option PrometheusAlert) → Option Body → Writer → Writer ⊎ PrometheusAlert
read_alerts decode none w = inl (http_error (codes "A body is required for this endpoint") 400 w)
read_alerts decode (some body) w = elim body.failure [
  | some err ↦ inl (write (codes "Unable to read alert.") (write_header 400 w))
  | none ↦ elim (decode body.content) [
    | none ↦ inl (write (codes "Unable to parse alert, bad format.") (write_header 400 w))
    | some req ↦ inr req
  ]
]

-- Behind the reading.
unfoldable pub serve_alerts :
    Environment → Bytes → Writer ⊎ PrometheusAlert → M (Writer × History) (Unit {0})
serve_alerts env default_namespace (inl refused) (w, h) = (done tt, (refused, h))
serve_alerts env default_namespace (inr req) (w, h) =
    let (errors, h') = handle_alerts env default_namespace req h in
    (elim errors [ done es ↦ (done tt, (report es w, h')) | panicked ↦ (panicked, (w, h')) ])

unfoldable pub alert_handler :
    Environment
    → Bytes
    → (Bytes → Option PrometheusAlert)
    → Request
    → M (Writer × History) (Unit {0})
alert_handler env default_namespace decode r (w, h) =
    serve_alerts env default_namespace (read_alerts decode r.body w) (w, h)

-- How the handler answers: with 400 a request whose alerts cannot be read, where nothing is asked
-- or set; with 500 if the handling of its alerts gave errors, and with 200 if it gave none; or it
-- panics where the provider does, and has written nothing.
pub data Answered (env : Environment) (d : Bytes) (decode : Bytes → Option PrometheusAlert)
    (r : Request) (w : Writer) (h : History) (m : Exit (Unit {0}) × (Writer × History))
    : Type 0 where
  refused :
      (u : Writer)
      → Unreadable decode r.body
      → u.status ≡ some 400
      → m ≡ (done tt, (u, h))
      → Answered env d decode r w h m
  failed :
      (req : PrometheusAlert) (err : Error) (errors : List Error) (u : Writer) (h' : History)
      → Holds decode r.body req
      → handle_alerts env d req h ≡ (done (err ∷ errors), h')
      → u.status ≡ some 500
      → m ≡ (done tt, (u, h'))
      → Answered env d decode r w h m
  accepted :
      (req : PrometheusAlert) (u : Writer) (h' : History)
      → Holds decode r.body req
      → handle_alerts env d req h ≡ (done [], h')
      → u.status ≡ some 200
      → m ≡ (done tt, (u, h'))
      → Answered env d decode r w h m
  broken :
      (req : PrometheusAlert) (h' : History)
      → Holds decode r.body req
      → handle_alerts env d req h ≡ (panicked, h')
      → PanickedSetting env h'
      → m ≡ (panicked, (w, h'))
      → Answered env d decode r w h m

status-report_cons :
    (err : Error) (errors : List Error) (w : Writer)
    → w.status ≡ none
    → (report (err ∷ errors) w).status ≡ some 500
status-report_cons err errors w h = status-write-write_header 500 _ w h

read_alerts-Unreadable :
    (decode : Bytes → Option PrometheusAlert) (body : Option Body) (w : Writer)
    → w.status ≡ none
    → Unreadable decode body
    → (u : Writer) × (read_alerts decode body w ≡ inl u) × (u.status ≡ some 400)
unfolding read_alerts
read_alerts-Unreadable decode none w h missing = (_, refl, status-http_error _ 400 w h)
read_alerts-Unreadable decode _ w h (broken_off content err) =
    (_, refl, status-write-write_header 400 _ w h)
read_alerts-Unreadable decode _ w h (undecodable content e) =
    rw (read_alerts, e) (_, refl, status-write-write_header 400 _ w h)

read_alerts-Holds :
    (decode : Bytes → Option PrometheusAlert) (body : Option Body) (w : Writer)
    (req : PrometheusAlert)
    → Holds decode body req
    → read_alerts decode body w ≡ inr req
unfolding read_alerts
read_alerts-Holds decode _ w req (whole content _ e) = rw (read_alerts, e) refl

module _ (env : Environment) (d : Bytes) (decode : Bytes → Option PrometheusAlert) (r : Request)
    (w : Writer) (h : History) (new : w.status ≡ none) where
  serve_alerts-Answered :
      (req : PrometheusAlert) (m : Exit (List Error) × History)
      → Holds decode r.body req
      → handle_alerts env d req h ≡ m
      → EndsIn (PanickedSetting env) (λ _. Unit {0}) m
      → Answered env d decode r w h (serve_alerts env d (inr req) (w, h))
  unfolding serve_alerts
  serve_alerts-Answered req (done [], t) held k _ =
      accepted req (report [] w) t held k (status-write_header 200 w new)
        (rw (k, serve_alerts) (ap (λ m. (done tt, (report [] w, m.1))) k))
  serve_alerts-Answered req (done (err ∷ errors), t) held k _ =
      failed req err errors (report (err ∷ errors) w) t held k (status-report_cons err errors w new)
        (rw (k, serve_alerts) (ap (λ m. (done tt, (report (err ∷ errors) w, m.1))) k))
  serve_alerts-Answered req (panicked, t) held k p =
      broken req t held k p (rw (k, serve_alerts) (ap (λ m. (panicked, (w, m.1))) k))

-- On a response that is not yet written, the alert handler answers a request whose body is missing,
-- breaks off or is not JSON with 400 and calls the provider not at all, and no other request so.
-- Else it handles the alerts of the body, and answers with 500 behind a handling that gave errors,
-- and with 200 behind one that gave none. It panics only if the provider panics in a `SetReplicas`
-- of this handling, and has then written nothing.
pub alert_handler-Answered :
    (env : Environment) (d : Bytes) (decode : Bytes → Option PrometheusAlert) (r : Request)
    (w : Writer) (h : History)
    → w.status ≡ none
    → Answered env d decode r w h (alert_handler env d decode r (w, h))
unfolding alert_handler serve_alerts
alert_handler-Answered env d decode r w h new = elim (body_cases decode r.body) [
  | inl why ↦
      let (u, e, st) = read_alerts-Unreadable decode r.body w new why in
      rw e (refused u why st refl)
  | inr (req, held) ↦
      let served = serve_alerts-Answered env d decode r w h new req _ held refl in
      rw (read_alerts-Holds decode r.body w req held) (served (handle_alerts-EndsIn env d req h))
]
