-- ===== src/Gateway/Steps.antt =====
-- What a request may do to the state of the gateway, as a relation between the states before and
-- behind it: one rule for each way in which a handler wraps another.
pub mod Router
use faas_drl.Base.{
  ℕ, ◌+◌, ◌≤◌, ◌≡◌, Bool, true, false, Option, none, some, List, [], ◌∷◌, ◌++◌, map, get_elem?, All,
  All-get_elem?, ◌&◌, ◌⊎◌, inl, inr, arith, Option-cases, is_some, not, if◌then◌else◌,
}
use faas_drl.Base.Bytes.{Bytes}
use faas_drl.Base.Int.{ℤ}
use faas_drl.Effect.{Error, M, Exit, done, panicked}
use faas_drl.Http.{Request, Writer, new_writer}
use faas_drl.Middleware.ServiceName.{get_namespace}
use faas_drl.Middleware.Resolver.{get_service_name}
use faas_drl.Metrics.Query.{VectorQueryResponse}
use faas_drl.Metrics.Added.{
  Floats, FunctionStatus, and_then, deliver, after_list, add_metrics_handler,
}
use faas_drl.Scaling.Scaler.{FunctionScaleResult}
use faas_drl.Scaling.Ranges.{ScaleServiceRequest, restrict, horizontal_scaling_handler}
use faas_drl.Handlers.Health.{decorate_with_cors}
use faas_drl.Handlers.Info.{Build, GatewayInfo, with_recorded, info_handler}
use faas_drl.Handlers.Scaling.{respond, after_scale, scaling_handler}
use faas_drl.Gateway.Routes.{
  Handler, HandlerSet, RoutePattern, Route, route, decorate_handlers, async_routes, ui_route,
  routes, taken, serve,
}

-- `Rel s n t` says that requests, of which `n` panicked, may lead from `s` to `t`.
pub record Steps (S : Type 0) : Type 1 where
  pub Rel : S → ℕ → S → Type 0
  pub idle : (s : S) → Rel s 0 s
  pub join : {s t u : S} {m n : ℕ} → Rel s m t → Rel t n u → Rel s (m + n) u
  pub weaken : {s t : S} {m n : ℕ} → m ≤ n → Rel s m t → Rel s n t

abbrev pub panics : {A : Type 0} → Exit A → ℕ
panics (done a) = 0
panics panicked = 1

module _ {S : Type 0} (R : Steps S) where
  -- A request that was served leads from `s` to the state behind it.
  abbrev pub Leads : S → Exit (Unit {0}) × (Writer × S) → Type 0
  Leads s m = R.Rel s (panics m.0) m.1.1

  Leads-if :
      (b : Bool) (s : S) (m k : Exit (Unit {0}) × (Writer × S))
      → Leads s m
      → Leads s k
      → Leads s (if b then m else k)
  Leads-if true s m k hm hk = hm
  Leads-if false s m k hm hk = hk

  -- A handler takes each state to one that is related to it.
  abbrev pub Respects : Handler S → Type 0
  Respects h = (r : Request) (w : Writer) (s : S) → Leads s (h r (w, s))

  pub stay : (s : S) (n : ℕ) → R.Rel s n s
  stay s n = R.weaken (omega arith) (R.idle s)

  pub Respects-if :
      (b : Bool) (h k : Handler S) → Respects h → Respects k → Respects (if b then h else k)
  Respects-if true h k hh hk = hh
  Respects-if false h k hh hk = hk

  Rel-deliver : (s t : S) (w : Writer) (m : Exit Writer) → R.Rel s 0 t → Leads s (deliver w t m)
  Rel-deliver s t w panicked k = R.weaken (omega arith) k
  Rel-deliver s t w (done u) k = k

  -- A list of functions, behind the handler that it wraps.
  Rel-after :
      (s : S) (w : Writer) (m : Exit (Unit {0}) × (Writer × S)) (f : Writer → Exit Writer)
      → Leads s m
      → Leads s (deliver w m.1.1 (and_then m.0 (λ _. f m.1.0)))
  Rel-after s w (panicked, (u, t)) f k = k
  Rel-after s w (done _, (u, t)) f k = Rel-deliver s t w (f u) k

  module _ (F : Floats) {Rest : Type 0} where
    pub Respects-add_metrics_handler :
        (next : Handler S) (escape : Bytes → Bytes) (fetch : Bytes → Error ⊎ VectorQueryResponse)
        (unmarshal : Bytes → Error ⊎ List (FunctionStatus F.Float Rest))
        (marshal : List (FunctionStatus F.Float Rest) → Error ⊎ Bytes)
        → Respects next
        → Respects (add_metrics_handler F next escape fetch unmarshal marshal)
    unfolding add_metrics_handler
    Respects-add_metrics_handler next escape fetch unmarshal marshal k r w s =
        Rel-after s w (next r (new_writer, s))
          (λ recorder. after_list F escape fetch unmarshal marshal recorder w) (k r new_writer s)

  Rel-with_recorded :
      {P : Type 0} (build : Build) (unmarshal : Bytes → Option Error × Option P)
      (marshal : GatewayInfo P → Error ⊎ Bytes) (s : S) (w : Writer)
      (m : Exit (Unit {0}) × (Writer × S))
      → Leads s m
      → Leads s (with_recorded build unmarshal marshal w m)
  Rel-with_recorded build unmarshal marshal s w (done _, (u, t)) k = k
  Rel-with_recorded build unmarshal marshal s w (panicked, (u, t)) k = k

  pub Respects-info_handler :
      {P : Type 0} (build : Build) (unmarshal : Bytes → Option Error × Option P)
      (marshal : GatewayInfo P → Error ⊎ Bytes) (next : Handler S)
      → Respects next
      → Respects (info_handler build unmarshal marshal next)
  unfolding info_handler
  Respects-info_handler build unmarshal marshal next k r w s =
      Rel-with_recorded build unmarshal marshal s w (next r (new_writer, s)) (k r new_writer s)

  Leads-restricted :
      (next : Handler S)
      → Respects next
      → (w : Writer) (s : S) (restricted : Writer ⊎ Request)
      → Leads s (elim restricted [
        | inl response ↦ (done tt, (response, s))
        | inr upstream ↦ next upstream (w, s)
      ])
  Leads-restricted next k w s (inl response) = R.idle s
  Leads-restricted next k w s (inr upstream) = k upstream w s

  pub Respects-horizontal_scaling_handler :
      (unmarshal : Bytes → Option ScaleServiceRequest) (marshal : ScaleServiceRequest → Bytes)
      (next : Handler S)
      → Respects next
      → Respects (horizontal_scaling_handler unmarshal marshal next)
  unfolding horizontal_scaling_handler
  Respects-horizontal_scaling_handler unmarshal marshal next k r w s =
      Leads-restricted next k w s (restrict unmarshal marshal r w)

  pub Respects-decorate_with_cors :
      (next : Handler S) (host : Bytes) → Respects next → Respects (decorate_with_cors next host)
  unfolding decorate_with_cors
  Respects-decorate_with_cors next host k r w s = k r _ s

  -- Behind a scaler that respects the relation.
  module _ (scaler : Bytes → Bytes → M S FunctionScaleResult) (next : Handler S)
      (passing : Respects next) where
    Rel-respond :
        (status : ℕ) (target : Bytes × Bytes) (err : Option Error) (w : Writer) (s : S)
        → Leads s (respond scaler next status target err (w, s))
    unfolding respond
    Rel-respond status target none w s = stay s 1
    Rel-respond status (f, n) (some err) w s = R.idle s

    Rel-after_scale :
        (r : Request) (target : Bytes × Bytes) (res : FunctionScaleResult) (w : Writer) (s : S)
        → Leads s (after_scale scaler next r target res (w, s))
    unfolding after_scale
    Rel-after_scale r target res w s =
        Leads-if (not res.found) s _ _ (Rel-respond 404 target res.error w s) (
          Leads-if (is_some res.error) s _ _ (Rel-respond 500 target res.error w s)
            (Leads-if res.available s _ _ (passing r w s) (R.idle s)))

    Leads-scaled :
        (r : Request) (target : Bytes × Bytes) (w : Writer) (s : S)
        (m : Exit FunctionScaleResult × S)
        → R.Rel s (panics m.0) m.1
        → Leads s (elim m.0 [
          | done result ↦ after_scale scaler next r target result (w, m.1)
          | panicked ↦ (panicked, (w, m.1))
        ])
    Leads-scaled r target w s (done result, t) k =
        R.weaken (omega arith) (R.join k (Rel-after_scale r target result w t))
    Leads-scaled r target w s (panicked, t) k = k

    pub Respects-scaling_handler :
        (d : Bytes)
        → ((f n : Bytes) (s : S) → let m = scaler f n s in R.Rel s (panics m.0) m.1)
        → Respects (scaling_handler scaler next d)
    unfolding scaling_handler
    Respects-scaling_handler d k r w s =
        let target = get_namespace d (get_service_name r.url.text) in
        Leads-scaled r target w s (scaler target.0 target.1 s) (k target.0 target.1 s)

-- A handler that answers and leaves the state alone, however it ends.
abbrev pub LeavesAlone : {S : Type 0} → Handler S → Type 0
LeavesAlone {S} h =
    (r : Request) (w : Writer) (s : S)
    → (ended : Exit (Unit {0})) × ((u : Writer) × (h r (w, s) ≡ (ended, (u, s))))

-- A wrapper that calls its handler with some request, or answers and leaves the state alone.
abbrev pub CallsOrAnswers : {S : Type 0} → (Handler S → Handler S) → Type 0
CallsOrAnswers {S} wrap =
    (h : Handler S) (r : Request) (w : Writer) (s : S)
    → ((r' : Request) × ((w' : Writer) × (wrap h r (w, s) ≡ h r' (w', s))))
      ⊎ ((u : Writer) × (wrap h r (w, s) ≡ (done tt, (u, s))))

module _ {S : Type 0} (R : Steps S) where
  pub Respects-LeavesAlone : (h : Handler S) → LeavesAlone h → Respects R h
  Respects-LeavesAlone h k r w s = let (ended, (u, e)) = k r w s in rw e (stay R s (panics ended))

  pub Respects-CallsOrAnswers :
      (wrap : Handler S → Handler S) (h : Handler S)
      → CallsOrAnswers wrap
      → Respects R h
      → Respects R (wrap h)
  Respects-CallsOrAnswers wrap h k passing r w s = elim (k h r w s) [
    | inl (r', (w', e)) ↦ rw e (passing r' w' s)
    | inr (u, e) ↦ rw e (R.idle s)
  ]
