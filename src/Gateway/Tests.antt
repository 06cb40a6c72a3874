-- ===== src/Gateway/Tests.antt =====
-- The theorems about the gateway at concrete requests.
use faas_drl.Base.{ℕ, suc, ◌≡◌, refl, Bool, false, none, some, List, [], ◌∷◌, if◌then◌else◌, inr}
use faas_drl.Base.Int.{pos}
use faas_drl.Base.Bytes.{Bytes, codes, eq_bytes}
use faas_drl.Base.Dict.{lookup}
use faas_drl.Effect.{done}
use faas_drl.Http.{Request, Writer, new_writer, write_header, final_status}
use faas_drl.Http.Headers.{first_value}
use faas_drl.Handlers.Notifiers.{logging_notifier, completed_notice}
use faas_drl.Handlers.Queue.{QueueConfig, QueueRequest}
use faas_drl.Gateway.Routes.{Handler, HandlerSet, decorate_handlers, routes, serve}
use faas_drl.Gateway.Routes.First.{choose}
use faas_drl.Gateway.Routes.Isolated.{serve-isolated}
use faas_drl.Gateway.Routes.Transparent.{serve-credentials}
use faas_drl.Gateway.Calls.{AsyncOutcome, async_function_handler, async_function_handler_lem}

abbrev at : Bytes → Bytes → Request
at method path = record {
  method = method;
  url = record { path = path; raw_query = []; text = path };
  header = (codes "Authorization", codes "Basic YTpi" ∷ []) ∷ [];
  host = codes "gateway";
  remote_addr = codes "10.0.0.1:80";
  body = none;
}

abbrev busy : Handler ℕ
busy r (w, n) = (done tt, (write_header 200 w, suc n))

abbrev busy_handlers : HandlerSet ℕ
busy_handlers = record {
  proxy = busy;
  deploy_function = busy;
  delete_function = busy;
  list_functions = busy;
  alert = busy;
  update_function = busy;
  function_status = busy;
  queued_proxy = some busy;
  scale_function = busy;
  info_handler = busy;
  telemetry_handler = busy;
  secret_handler = busy;
  log_proxy_handler = busy;
  namespace_lister_handler = busy;
  namespace_mutator_handler = busy;
}

abbrev authorized : Bytes → Request → Bool
authorized password r = eq_bytes (first_value (lookup (codes "Authorization") r.header)) password

abbrev denied : Request → Writer → Writer
denied r w = write_header 401 w

abbrev basic_auth : Bytes → Handler ℕ → Handler ℕ
basic_auth password h r (w, n) =
    if authorized password r then h r (w, n) else (done tt, (denied r w, n))

abbrev mux_answer : Request → Writer → Writer
mux_answer r w = write_header 404 w

serve-credentials_example :
    let scaling = at (codes "POST") (codes "/system/scale-function/f") in
    let decorate = basic_auth (codes "Basic YTpi") in
    serve choose mux_answer
      (routes (some decorate) (decorate_handlers (some decorate) busy_handlers) busy busy busy busy)
      scaling
      (new_writer, 3)
    ≡ serve choose mux_answer
        (routes none (decorate_handlers none busy_handlers) busy busy busy busy)
        scaling
        (new_writer, 3)
unfolding lookup
serve-credentials_example =
    serve-credentials (basic_auth (codes "Basic YTpi")) busy_handlers busy busy busy busy choose
      mux_answer (at (codes "POST") (codes "/system/scale-function/f")) (λ h w n. refl) new_writer 3

abbrev silent : Handler ℕ
silent r (w, n) = (done tt, (w, n))

abbrev other_handlers : HandlerSet ℕ
other_handlers = record busy_handlers { deploy_function = silent; scale_function = silent }

refuses :
    (h : Handler ℕ) (r : Request) (w : Writer) (n : ℕ)
    → authorized (codes "Basic eDp5") r ≡ false
    → basic_auth (codes "Basic eDp5") h r (w, n) ≡ (done tt, (denied r w, n))
refuses h r w n e = rw e refl

serve-isolated_example :
    let scaling = at (codes "POST") (codes "/system/scale-function/f") in
    let decorate = basic_auth (codes "Basic eDp5") in
    serve choose mux_answer
      (routes (some decorate) (decorate_handlers (some decorate) busy_handlers) busy busy busy busy)
      scaling
      (new_writer, 3)
    ≡ serve choose mux_answer
        (routes
          (some decorate)
          (decorate_handlers (some decorate) other_handlers)
          busy
          silent
          busy
          busy)
        scaling
        (new_writer, 3)
unfolding lookup
serve-isolated_example =
    serve-isolated (basic_auth (codes "Basic eDp5")) (authorized (codes "Basic eDp5")) denied
      refuses (at (codes "POST") (codes "/system/scale-function/f")) refl busy_handlers
      other_handlers busy busy silent busy busy choose mux_answer refl refl new_writer 3

abbrev queue : QueueConfig
queue = record {
  name_of = λ url. codes "echo";
  transform = λ path. path;
  parse_url = λ text. inr (record { path = text; raw_query = []; text = text });
  queue = λ queued req. none;
}

abbrev queued_call : Request
queued_call = at (codes "POST") (codes "/async-function/echo/a")

async_function_handler_lem_example :
    (u : Writer) × (queued' : List QueueRequest) × (async_function_handler final_status
        (codes "id")
        (codes "7")
        (codes "1")
        queue
        (pos 5)
        queued_call
        (new_writer, ([], []))
      ≡ (
        done tt,
        (u, (queued', completed_notice queued_call (final_status u) (pos 5) logging_notifier ∷ [])),
      ))
    × AsyncOutcome queue (codes "id") (codes "/a") queued_call [] u.status queued'
async_function_handler_lem_example =
    async_function_handler_lem queue (codes "id") (codes "7") (codes "1") queued_call new_writer
      (codes "echo") (codes "/a") final_status (pos 5) [] [] (λ e. absurd (cc e))
      (refl, (refl, (refl, (refl, tt)))) refl (refl, (refl, tt)) refl refl
