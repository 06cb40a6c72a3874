-- ===== src/Handlers/Queue/Accepted.antt =====
-- How a queued request is answered, and what of it is on the queue.
use faas_drl.Base.{
  ℕ, ◌≡◌, refl, ◌⊎◌, inl, inr, Option, none, some, List, [], ◌∷◌, ◌++◌, is_none, if◌then◌else◌,
}
use faas_drl.Base.Bytes.{Bytes}
use faas_drl.Effect.{Error, Exit, done}
use faas_drl.Http.{Url, Request, Writer, read_all}
use faas_drl.Http.Laws.{status-write_header, status-http_error}
use faas_drl.Handlers.Queue.{
  QueueRequest, QueueConfig, get_callback_url_header, queue_answer, queue_request, enqueue,
  with_callback, with_body, queued_proxy,
}

status-queue_answer :
    (answer : Option Error) (w : Writer)
    → w.status ≡ none
    → (queue_answer answer w).status ≡ some (if is_none answer then 202 else 500)
status-queue_answer (some err) w new = status-http_error _ 500 w new
status-queue_answer none w new = status-write_header 202 w new

module _ (config : QueueConfig) where
  -- A request is refused with 400, if its body breaks off or its callback is no URL, and the queue
  -- is not asked; otherwise the queue is given it once, and the status says what it answered.
  pub data IsHandled (r : Request) (queued : List QueueRequest) (status : Option ℕ)
      (queued' : List QueueRequest) : Type 0 where
    refused :
        (err : Error)
        → (read_all r.body ≡ inl err)
          ⊎ (get_callback_url_header config.parse_url r.header ≡ inl err)
        → status ≡ some 400
        → queued' ≡ queued
        → IsHandled r queued status queued'
    asked :
        (body : Bytes) (callback_url : Option Url)
        → read_all r.body ≡ inr body
        → get_callback_url_header config.parse_url r.header ≡ inr callback_url
        → status
          ≡ some (
              if is_none (config.queue queued (queue_request config r body callback_url))
              then 202
              else 500)
        → queued' ≡ queued ++ queue_request config r body callback_url ∷ []
        → IsHandled r queued status queued'

  abbrev Answers :
      Request → Writer × List QueueRequest → Exit (Unit {0}) × (Writer × List QueueRequest) → Type 0
  Answers r s m =
      (u : Writer) × (queued : List QueueRequest) × (m ≡ (done tt, (u, queued)))
      × IsHandled r s.1 u.status queued

  module _ (r : Request) (w : Writer) (queued : List QueueRequest) (new : w.status ≡ none) where
    enqueue-Answers :
        (body : Bytes) (callback_url : Option Url)
        → read_all r.body ≡ inr body
        → get_callback_url_header config.parse_url r.header ≡ inr callback_url
        → Answers r
            (w, queued)
            (enqueue config (queue_request config r body callback_url) (w, queued))
    unfolding enqueue
    enqueue-Answers body url b c =
        let answer = config.queue queued (queue_request config r body url) in
        (
          queue_answer answer w,
          queued ++ queue_request config r body url ∷ [],
          refl,
          asked body url b c (status-queue_answer answer w new) refl,
        )

    with_callback-Answers :
        (body : Bytes) (got : Error ⊎ Option Url)
        → read_all r.body ≡ inr body
        → get_callback_url_header config.parse_url r.header ≡ got
        → Answers r (w, queued) (with_callback config r body got (w, queued))
    with_callback-Answers body (inl err) b c =
        (_, _, refl, refused err (inr c) (status-http_error err 400 w new) refl)
    with_callback-Answers body (inr url) b c = enqueue-Answers body url b c

    with_body-Answers :
        (got : Error ⊎ Bytes)
        → read_all r.body ≡ got
        → Answers r (w, queued) (with_body config r got (w, queued))
    with_body-Answers (inl err) b =
        (_, _, refl, refused err (inl b) (status-http_error err 400 w new) refl)
    with_body-Answers (inr body) b = with_callback-Answers body _ b refl

    -- The handler always returns, and handles the request so.
    pub queued_proxy_lem :
        (u : Writer) × (queued' : List QueueRequest) × (queued_proxy config r (w, queued)
          ≡ (done tt, (u, queued')))
        × IsHandled r queued u.status queued'
    unfolding queued_proxy
    queued_proxy_lem = with_body-Answers _ refl
