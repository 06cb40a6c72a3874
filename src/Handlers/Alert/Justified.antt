-- ===== src/Handlers/Alert/Justified.antt =====
-- Why the alert handler sets replicas, and what it returns.
use faas_drl.Base.{
  ℕ, ◌+◌, ◌≤◌, ◌≡◌, ◌≢◌, refl, sym, ap, inl, inr, Option, none, some, List, [], ◌∷◌, arith, ◌==◌,
  length, length-append, Bool-cases, ==_iff,
}
use faas_drl.Base.Bytes.{Bytes}
use faas_drl.Effect.{Error, Exit, done, panicked, pure}
use faas_drl.Effect.Laws.{EndsIn, EndsIn-continue, EndsIn-if, EndsIn-imp, Keeps-continue}
use faas_drl.Middleware.ServiceName.{get_namespace}
use faas_drl.Scaling.Response.{
  ServiceQueryResponse, Environment, History, clock_read, replicas_asked, replicas_set, slept,
}
use faas_drl.Handlers.Alert.{
  PrometheusInnerAlert, PrometheusAlert, new_replicas, get_replicas, set_replicas, adjust,
  scale_named, scale_service, append_error, handle_from, handle_alerts,
}

-- The last thing before a count was set: the provider was asked for the replicas of the same
-- function and answered without an error, and the count is what `CalculateReplicas` makes of the
-- answer for some status, and another than the present one.
abbrev pub WasAsked : Environment → Bytes → Bytes → ℕ → History → Type 0
WasAsked env name namespace count (replicas_asked name' namespace' ∷ h) =
    (name' ≡ name)
    × (namespace' ≡ namespace)
    × ((env.get_replicas h name namespace).1 ≡ none)
    × (((status : Bytes) × (count ≡ new_replicas status (env.get_replicas h name namespace).0))
        × (count ≢ (env.get_replicas h name namespace).0.replicas))
WasAsked env name namespace count _ = ⊥

-- Every count in the history was set for such a reason.
abbrev pub IsJustified : Environment → History → Type 0
IsJustified env [] = Unit
IsJustified env (replicas_set name namespace count ∷ h) =
    WasAsked env name namespace count h × IsJustified env h
IsJustified env (clock_read ∷ h) = IsJustified env h
IsJustified env (replicas_asked _ _ ∷ h) = IsJustified env h
IsJustified env (slept _ ∷ h) = IsJustified env h

-- The last thing that was done is a `SetReplicas` in which the provider panicked.
abbrev pub PanickedSetting : Environment → History → Type 0
PanickedSetting env (replicas_set name namespace count ∷ h) =
    env.set_replicas h name namespace count ≡ panicked
PanickedSetting env _ = ⊥

module _ (env : Environment) where
  adjust-IsJustified :
      (status name namespace : Bytes) (answer : ServiceQueryResponse × Option Error) (h : History)
      → env.get_replicas h name namespace ≡ answer
      → IsJustified env h
      → IsJustified env
          (adjust env status name namespace answer (replicas_asked name namespace ∷ h)).1
  unfolding adjust set_replicas
  adjust-IsJustified status name namespace (r, some err) h e j = j
  adjust-IsJustified status name namespace (r, none) h e j =
      elim (Bool-cases (new_replicas status r == r.replicas)) [
        | inl b ↦ rw b j
        | inr b ↦ rw b (
          (
            refl,
            refl,
            ap (λ a. a.1) e,
            (
              (status, ap (λ a. new_replicas status a.0) (sym e)),
              rw e (λ q. absurd (ground (arith, ==_iff (new_replicas status r) r.replicas))),
            ),
          ),
          j,
        )
      ]

  scale_named-IsJustified :
      (status : Bytes) (target : Bytes × Bytes) (h : History)
      → IsJustified env h
      → IsJustified env (scale_named env status target h).1
  unfolding scale_named get_replicas
  scale_named-IsJustified status ([], namespace) h j = j
  scale_named-IsJustified status (c ∷ name, namespace) h j =
      adjust-IsJustified status (c ∷ name) namespace (env.get_replicas h (c ∷ name) namespace) h
        refl j

  set_replicas-EndsIn :
      (name namespace : Bytes) (count : ℕ) (h : History) (m : Exit (Option Error))
      → env.set_replicas h name namespace count ≡ m
      → EndsIn {A = Option Error}
          (PanickedSetting env)
          (λ _. Unit)
          (m, replicas_set name namespace count ∷ h)
  set_replicas-EndsIn name namespace count h panicked e = e
  set_replicas-EndsIn name namespace count h (done o) e = tt

  -- A step returns, or panics as the provider does.
  adjust-EndsIn :
      (status name namespace : Bytes) (answer : ServiceQueryResponse × Option Error) (h : History)
      → EndsIn (PanickedSetting env) (λ _. Unit) (adjust env status name namespace answer h)
  unfolding adjust set_replicas
  adjust-EndsIn status name namespace (r, some err) h = tt
  adjust-EndsIn status name namespace (r, none) h =
      EndsIn-if {A = Option Error} (PanickedSetting env) (λ _. Unit)
        (new_replicas status r == r.replicas) (pure none)
        (set_replicas env name namespace (new_replicas status r)) h tt
        (set_replicas-EndsIn name namespace (new_replicas status r) h _ refl)

  scale_named-EndsIn :
      (status : Bytes) (target : Bytes × Bytes) (h : History)
      → EndsIn (PanickedSetting env) (λ _. Unit) (scale_named env status target h)
  unfolding scale_named get_replicas
  scale_named-EndsIn status ([], namespace) h = tt
  scale_named-EndsIn status (c ∷ name, namespace) h =
      adjust-EndsIn status (c ∷ name) namespace (env.get_replicas h (c ∷ name) namespace)
        (replicas_asked (c ∷ name) namespace ∷ h)

  length-append_error :
      (errors : List Error) (err : Option Error)
      → length (append_error errors err) ≤ length errors + 1
  length-append_error errors none = omega arith
  length-append_error errors (some err) = omega (arith, length-append errors (err ∷ []))

  handle_from-IsJustified :
      (d : Bytes) (errors : List Error) (alerts : List PrometheusInnerAlert) (h : History)
      → IsJustified env h
      → IsJustified env (handle_from env d errors alerts h).1
  unfolding handle_from scale_service
  handle_from-IsJustified d errors [] h j = j
  handle_from-IsJustified d errors (alert ∷ alerts) h j =
      let target = get_namespace d alert.labels.function_name in
      Keeps-continue (IsJustified env) (scale_named env alert.status target h)
        (λ err. handle_from env d (append_error errors err) alerts)
        (scale_named-IsJustified alert.status target h j)
        (λ err t jt. handle_from-IsJustified d (append_error errors err) alerts t jt)

  handle_from-EndsIn :
      (d : Bytes) (n : ℕ) (errors : List Error) (alerts : List PrometheusInnerAlert) (h : History)
      → length errors + length alerts ≤ n
      → EndsIn (PanickedSetting env) (λ es. length es ≤ n) (handle_from env d errors alerts h)
  unfolding handle_from scale_service
  handle_from-EndsIn d n errors [] h le = omega (arith, le)
  handle_from-EndsIn d n errors (alert ∷ alerts) h le =
      let target = get_namespace d alert.labels.function_name in
      EndsIn-continue (PanickedSetting env) (λ _. Unit) (λ es. length es ≤ n)
        (scale_named env alert.status target h)
        (λ err. handle_from env d (append_error errors err) alerts)
        (scale_named-EndsIn alert.status target h)
        (λ err t _.
          handle_from-EndsIn d n (append_error errors err) alerts t
            (omega (arith, le, length-append_error errors err)))

-- Behind a history in which every count was set for a reason, each count that the alert handler
-- sets, too, directly follows a query for the same function that the provider answered without an
-- error, is what `CalculateReplicas` makes of that answer, and differs from the present count.
pub handle_alerts-IsJustified :
    (env : Environment) (d : Bytes) (req : PrometheusAlert) (h : History)
    → IsJustified env h
    → IsJustified env (handle_alerts env d req h).1
unfolding handle_alerts
handle_alerts-IsJustified env d req h j = handle_from-IsJustified env d [] req.alerts h j

-- The handling of alerts returns, with at most one error for each alert, or ends in a `SetReplicas`
-- in which the provider panics.
pub length-handle_alerts :
    (env : Environment) (d : Bytes) (req : PrometheusAlert) (h : History)
    → EndsIn
        (PanickedSetting env)
        (λ errors. length errors ≤ length req.alerts)
        (handle_alerts env d req h)
unfolding handle_alerts
length-handle_alerts env d req h =
    handle_from-EndsIn env d (length req.alerts) [] req.alerts h (omega arith)

pub handle_alerts-EndsIn :
    (env : Environment) (d : Bytes) (req : PrometheusAlert) (h : History)
    → EndsIn (PanickedSetting env) (λ _. Unit {0}) (handle_alerts env d req h)
handle_alerts-EndsIn env d req h =
    EndsIn-imp (PanickedSetting env) _ (λ errors. length errors ≤ length req.alerts) (λ _. Unit)
      (λ _ x. x) (λ _ _. tt) _ (length-handle_alerts env d req h)
