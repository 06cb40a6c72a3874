-- ===== src/Gateway/Calls.antt =====
-- gateway/main.go: the handlers of asynchronous calls of functions, put together.
use faas_drl.Base.{
  ℕ, ◌≡◌, ◌≢◌, refl, sym, ◌∙◌, ap, ◌⊎◌, inl, inr, Option, none, some, List, [], ◌∷◌, ◌++◌, All,
  is_none, if◌then◌else◌, true,
}
use faas_drl.Base.Int.{ℤ}
use faas_drl.Base.Bytes.{Bytes, codes}
use faas_drl.Base.Dict.{lookup}
use faas_drl.Effect.{Error, M, done}
use faas_drl.Http.{Request, Writer, read_all}
use faas_drl.Http.Headers.{get_header, canonical_key, first_value, values}
use faas_drl.Text.Laws.{Begins}
use faas_drl.Middleware.Resolver.{name_byte, path_byte, transform_trimming}
use faas_drl.Middleware.Resolver.Names.{transform_trimming-async}
use faas_drl.Handlers.CallId.{
  call_id_key, tag_call, call_id_middleware, tag_call-call_id, get_header-tag_call_other,
}
use faas_drl.Handlers.Queue.{
  QueueRequest, QueueConfig, get_callback_url_header, queue_request, queued_proxy,
}
use faas_drl.Handlers.Queue.Accepted.{IsHandled, refused, asked, queued_proxy_lem}
use faas_drl.Handlers.Forwarding.Proxy.{Notice}
use faas_drl.Handlers.Notifiers.{
  logging_notifier, completed_notice, notifier_wrapper, notifier_wrapper-done,
}

abbrev pub trimming : QueueConfig → QueueConfig
trimming config = record config { transform = transform_trimming }

-- The handler of queued requests. `status` reads that of the write interceptor.
unfoldable pub async_function_handler :
    (Writer → ℕ)
    → Bytes
    → Bytes
    → Bytes
    → QueueConfig
    → ℤ
    → Request
    → M (Writer × (List QueueRequest × List Notice)) (Unit {0})
async_function_handler status call_id start version config elapsed =
    notifier_wrapper status
      (call_id_middleware call_id start version (queued_proxy (trimming config)))
      (logging_notifier ∷ []) elapsed

-- What becomes of an asynchronous call with the path `rest` for the function.
pub data AsyncOutcome (config : QueueConfig) (call_id rest : Bytes) (r : Request)
    (queued : List QueueRequest) (status : Option ℕ) (queued' : List QueueRequest) : Type 0 where
  rejected :
      (err : Error)
      → (read_all r.body ≡ inl err) ⊎ (get_callback_url_header config.parse_url r.header ≡ inl err)
      → status ≡ some 400
      → queued' ≡ queued
      → AsyncOutcome config call_id rest r queued status queued'
  submitted :
      (req : QueueRequest)
      → req.function ≡ config.name_of r.url
      → req.path ≡ rest
      → req.method ≡ r.method
      → req.query_string ≡ r.url.raw_query
      → read_all r.body ≡ inr req.body
      → get_callback_url_header config.parse_url r.header ≡ inr req.callback_url
      → get_header call_id_key req.header
        ≡ first_value (some (values (lookup call_id_key r.header) ++ call_id ∷ []))
      → status ≡ some (if is_none (config.queue queued req) then 202 else 500)
      → queued' ≡ queued ++ req ∷ []
      → AsyncOutcome config call_id rest r queued status queued'

module _ (config : QueueConfig) (call_id start version : Bytes) (r : Request) (w : Writer) where
  abbrev tagged : Request
  tagged = (tag_call call_id start version r w).0

  abbrev answered : Writer
  answered = (tag_call call_id start version r w).1

  callback-tagged :
      get_callback_url_header config.parse_url tagged.header
      ≡ get_callback_url_header config.parse_url r.header
  unfolding get_callback_url_header canonical_key
  callback-tagged =
      rw (get_header-tag_call_other call_id start version (codes "X-Callback-Url") r w refl refl)
        refl

  outcome-IsHandled :
      (rest : Bytes) (queued : List QueueRequest) (status : Option ℕ) (queued' : List QueueRequest)
      → transform_trimming r.url.path ≡ rest
      → IsHandled (trimming config) tagged queued status queued'
      → AsyncOutcome config call_id rest r queued status queued'
  unfolding tag_call
  outcome-IsHandled rest queued status queued' p (refused err e st q) = elim e [
    | inl e ↦ rejected err (inl e) st q
    | inr e ↦ rejected err (inr (sym callback-tagged ∙ e)) st q
  ]
  outcome-IsHandled rest queued status queued' p (asked body url b c st q) =
      submitted (queue_request (trimming config) tagged body url) refl p refl refl b
        (sym callback-tagged ∙ c) (tag_call-call_id call_id start version r w) st q

  -- An asynchronous call of the function NAME, at /async-function/NAME with nothing or a path
  -- behind it, on a response that is not yet written, always returns with one notice of its
  -- completion. Either it is rejected with 400, for a body that breaks off or a callback that is no
  -- URL, and nothing is queued; or exactly one request is given to the queue, and the status is 202
  -- if the queue takes it and 500 otherwise. The queued request has the function that the router
  -- found, the path behind NAME, the method, the query and the whole body of the call, its
  -- callback, and the identifier that the call came with or else the generated one.
  pub async_function_handler_lem :
      (name rest : Bytes) (status : Writer → ℕ) (elapsed : ℤ) (queued : List QueueRequest)
      (notices : List Notice)
      → name ≢ []
      → All (λ b. name_byte b ≡ true) name
      → Begins name_byte rest
      → All (λ b. path_byte b ≡ true) rest
      → r.url.path ≡ codes "/async-function/" ++ (name ++ rest)
      → w.status ≡ none
      → (u : Writer) × (queued' : List QueueRequest) × (async_function_handler status call_id start
            version config elapsed r
            (w, (queued, notices))
          ≡ (
            done tt,
            (u, (queued', notices ++ completed_notice r (status u) elapsed logging_notifier ∷ [])),
          ))
        × AsyncOutcome config call_id rest r queued u.status queued'
  unfolding async_function_handler call_id_middleware tag_call
  async_function_handler_lem name rest status elapsed queued notices ne n b p path new =
      let (u, queued', e, h) = queued_proxy_lem (trimming config) tagged answered queued new in
      let trimmed = ap transform_trimming path ∙ transform_trimming-async name rest ne n b p in
      (
        u,
        queued',
        notifier_wrapper-done status _ (logging_notifier ∷ []) elapsed r w u queued queued' notices
            e,
        outcome-IsHandled rest queued u.status queued' trimmed h,
      )
