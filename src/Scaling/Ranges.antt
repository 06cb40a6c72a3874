-- ===== src/Scaling/Ranges.antt =====
-- gateway/scaling/ranges.go: the limits of a manual scaling request.
use faas_drl.Base.{
  ℕ, ◌+◌, ◌-◌, min, ◌≢◌, ◌≡◌, not, Option, none, some, ltb, if◌then◌else◌, ◌⊎◌, inl, inr,
}
use faas_drl.Base.Bytes.{Bytes, codes, eq_bytes}
use faas_drl.Http.Decoded.{Holds, Unreadable}
use faas_drl.Effect.{M, Exit, done}
use faas_drl.Http.{Request, Writer, http_error}

-- `types.ScaleServiceRequest` of faas-provider; the count is of type uint64.
pub record ScaleServiceRequest : Type 0 where
  pub service_name : Bytes
  pub replicas : ℕ

abbrev pub default_max_replicas : ℕ
default_max_replicas = 5

-- `if scaleRequest.Replicas < 1 …` and `if scaleRequest.Replicas > DefaultMaxReplicas …`
unfoldable pub limit : ScaleServiceRequest → ScaleServiceRequest
limit r =
    let raised = if ltb r.replicas 1 then record r { replicas = 1 } else r in
    if ltb default_max_replicas raised.replicas
    then record raised { replicas = default_max_replicas }
    else raised

module _ (unmarshal : Bytes → Option ScaleServiceRequest)
    (marshal : ScaleServiceRequest → Bytes) where
  -- The request that is passed on, or the response that refuses it. JSON is read and written by
  -- encoding/json.
  unfoldable pub restrict_body : Request → Writer → Writer ⊎ Request
  unfolding limit
  restrict_body r w =
      let unreadable = http_error (codes "Error reading request body") 400 w in
      let unparsable = http_error (codes "Error unmarshalling request body") 400 w in
      elim r.body [
        | none ↦ inl unreadable
        | some body ↦ elim body.failure [
          | some err ↦ inl unreadable
          | none ↦ elim (unmarshal body.content) [
            | none ↦ inl unparsable
            | some scale_request ↦ inr (record r {
              body = some (record { content = marshal (limit scale_request); failure = none });
            })
          ]
        ]
      ]

  unfoldable pub restrict : Request → Writer → Writer ⊎ Request
  unfolding restrict_body
  restrict r w =
      if not (eq_bytes r.method (codes "POST"))
      then inl (http_error (codes "Only POST is allowed") 405 w)
      else restrict_body r w

  unfoldable pub horizontal_scaling_handler :
      {S : Type 0} → (Request → M (Writer × S) (Unit {0})) → Request → M (Writer × S) (Unit {0})
  unfolding restrict
  horizontal_scaling_handler next r (w, s) = elim (restrict r w) [
    | inl response ↦ (done tt, (response, s))
    | inr upstream ↦ next upstream (w, s)
  ]

-- What becomes of a scaling request: it is refused with 405 for another method than POST, and with
-- 400 if its body is missing, broken off or not JSON; or it is passed on, with nothing changed but
-- the count in its body, which is brought into the range from 1 to 5.
pub data Restricted (unmarshal : Bytes → Option ScaleServiceRequest)
    (marshal : ScaleServiceRequest → Bytes) (r : Request) : Writer ⊎ Request → Type 0 where
  wrong_method :
      (u : Writer)
      → r.method ≢ codes "POST"
      → u.status ≡ some 405
      → Restricted unmarshal marshal r (inl u)
  wrong_body :
      (u : Writer)
      → r.method ≡ codes "POST"
      → Unreadable unmarshal r.body
      → u.status ≡ some 400
      → Restricted unmarshal marshal r (inl u)
  passed :
      (asked limited : ScaleServiceRequest)
      → r.method ≡ codes "POST"
      → Holds unmarshal r.body asked
      → limited.service_name ≡ asked.service_name
      → limited.replicas ≡ 1 + min 4 (asked.replicas - 1)
      → Restricted unmarshal marshal r
          (inr (record r { body = some (record { content = marshal limited; failure = none }) }))

-- What the handler does with a request, on a response that is not yet written.
pub data Handled {S : Type 0} (unmarshal : Bytes → Option ScaleServiceRequest)
    (marshal : ScaleServiceRequest → Bytes) (next : Request → M (Writer × S) (Unit {0}))
    (r : Request) (w : Writer) (s : S) : Exit (Unit {0}) × (Writer × S) → Type 0 where
  unserved :
      (u : Writer)
      → Restricted unmarshal marshal r (inl u)
      → Handled unmarshal marshal next r w s (done tt, (u, s))
  forwarded :
      (upstream : Request)
      → Restricted unmarshal marshal r (inr upstream)
      → Handled unmarshal marshal next r w s (next upstream (w, s))
