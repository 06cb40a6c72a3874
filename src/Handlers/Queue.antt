-- ===== src/Handlers/Queue.antt =====
-- gateway/handlers/queue_proxy.go: requests are put on a queue. Lines that only log are left out.
pub mod Accepted
use faas_drl.Base.{
  ℕ, ◌+◌, Bool, true, false, Option, none, some, List, [], ◌∷◌, ◌++◌, suc, take, drop, ltb,
  if◌then◌else◌, ◌⊎◌, inl, inr,
}
use faas_drl.Base.Bytes.{Bytes, codes}
use faas_drl.Effect.{Error, M, Exit, done, panicked}
use faas_drl.Text.{last_index}
use faas_drl.Http.{Url, Request, Body, Writer, read_all, write_header, http_error}
use faas_drl.Http.Headers.{Header, get_header}
use faas_drl.Handlers.Forwarding.{is_empty}

-- `QueueRequest` of faas-provider.
pub record QueueRequest : Type 0 where
  pub function : Bytes
  pub body : Bytes
  pub method : Bytes
  pub query_string : Bytes
  pub path : Bytes
  pub header : Header
  pub host : Bytes
  pub callback_url : Option Url

-- What the handler is made with and what it calls: the variable `name` that the router found in the
-- URL, the transformer of paths, `url.Parse`, and the queue, which answers for what it was given so
-- far.
pub record QueueConfig : Type 0 where
  pub name_of : Url → Bytes
  pub transform : Bytes → Bytes
  pub parse_url : Bytes → Error ⊎ Url
  pub queue : List QueueRequest → QueueRequest → Option Error

abbrev pub some_url : Error ⊎ Url → Error ⊎ Option Url
some_url (inl err) = inl err
some_url (inr url) = inr (some url)

unfoldable pub get_callback_url_header : (Bytes → Error ⊎ Url) → Header → Error ⊎ Option Url
get_callback_url_header parse_url header =
    let value = get_header (codes "X-Callback-Url") header in
    if is_empty value then inr none else some_url (parse_url value)

-- The name and the namespace, which is cut off at a last dot that is not the first byte.
unfoldable pub get_name_parts : Bytes → Bytes × Bytes
get_name_parts name = elim (last_index b'.' name) [
  | some index ↦ if ltb 0 index then (take index name, drop (suc index) name) else (name, [])
  | none ↦ (name, [])
]

-- The response for what the queue answered.
abbrev pub queue_answer : Option Error → Writer → Writer
queue_answer (some err) w = http_error (codes "Error queuing request: " ++ err) 500 w
queue_answer none w = write_header 202 w

module _ (config : QueueConfig) where
  abbrev pub queue_request : Request → Bytes → Option Url → QueueRequest
  queue_request r body callback_url = record {
    function = config.name_of r.url;
    body = body;
    method = r.method;
    query_string = r.url.raw_query;
    path = config.transform r.url.path;
    header = r.header;
    host = r.host;
    callback_url = callback_url;
  }

  -- `queuer.Queue`, and the response; the state is what the queue was given, the newest last.
  unfoldable pub enqueue : QueueRequest → M (Writer × List QueueRequest) (Unit {0})
  enqueue req (w, queued) =
      (done tt, (queue_answer (config.queue queued req) w, queued ++ req ∷ []))

  abbrev pub with_callback :
      Request → Bytes → Error ⊎ Option Url → M (Writer × List QueueRequest) (Unit {0})
  with_callback r body (inl err) (w, queued) = (done tt, (http_error err 400 w, queued))
  with_callback r body (inr callback_url) s = enqueue (queue_request r body callback_url) s

  abbrev pub with_body : Request → Error ⊎ Bytes → M (Writer × List QueueRequest) (Unit {0})
  with_body r (inl err) (w, queued) = (done tt, (http_error err 400 w, queued))
  with_body r (inr body) s =
      with_callback r body (get_callback_url_header config.parse_url r.header) s

  -- `MakeQueuedProxy`
  unfoldable pub queued_proxy : Request → M (Writer × List QueueRequest) (Unit {0})
  unfolding enqueue get_callback_url_header
  queued_proxy r s = with_body r (read_all r.body) s
