-- ===== src/Handlers/Alert/Bounded.antt =====
-- How large the counts are that alerts set.
use faas_drl.Base.{ℕ, ◌≤◌, inl, inr, Option, none, some, List, [], ◌∷◌, arith, ◌==◌, ◌⊎◌}
use faas_drl.Base.Bytes.{Bytes}
use faas_drl.Effect.{Error, pure, done, panicked, Exit}
use faas_drl.Effect.Laws.{Keeps-continue, Keeps-if}
use faas_drl.Http.{Request, Writer}
use faas_drl.Middleware.ServiceName.{get_namespace}
use faas_drl.Scaling.Response.{ServiceQueryResponse, Environment, History, replicas_asked}
use faas_drl.Scaling.Scaler.Bounded.{SetsAtMost, MinimumsAtMost}
use faas_drl.Handlers.Alert.{
  PrometheusInnerAlert, PrometheusAlert, new_replicas, get_replicas, set_replicas, adjust,
  scale_named, scale_service, append_error, handle_from, handle_alerts,
}
use faas_drl.Handlers.Alert.Replicas.{calculate_replicas_cases}
use faas_drl.Handlers.Alert.Handler.{read_alerts, serve_alerts, alert_handler, report}

module _ (limit : ℕ) (env : Environment) (five : 5 ≤ limit)
    (minimums : MinimumsAtMost limit env) where
  new_replicas-le :
      (status : Bytes) (r : ServiceQueryResponse)
      → r.min_replicas ≤ limit
      → new_replicas status r ≤ limit
  new_replicas-le status r small =
      elim (calculate_replicas_cases status r.replicas r.max_replicas r.min_replicas
        r.scaling_factor) [
          | inl (_, _, le) ↦ omega (arith, le, five)
          | inr (_, e) ↦ omega (arith, e, small)
        ]

  adjust-SetsAtMost :
      (status name namespace : Bytes) (r : ServiceQueryResponse) (err : Option Error) (h : History)
      → r.min_replicas ≤ limit
      → SetsAtMost limit h
      → SetsAtMost limit (adjust env status name namespace (r, err) h).1
  unfolding adjust set_replicas
  adjust-SetsAtMost status name namespace r (some err) h small i = i
  adjust-SetsAtMost status name namespace r none h small i =
      Keeps-if {A = Option Error} (SetsAtMost limit) (new_replicas status r == r.replicas)
        (pure none) (set_replicas env name namespace (new_replicas status r)) h i
        (new_replicas-le status r small, i)

  scale_named-SetsAtMost :
      (status : Bytes) (target : Bytes × Bytes) (h : History)
      → SetsAtMost limit h
      → SetsAtMost limit (scale_named env status target h).1
  unfolding scale_named get_replicas
  scale_named-SetsAtMost status ([], namespace) h i = i
  scale_named-SetsAtMost status (c ∷ name, namespace) h i =
      let (r, err) = env.get_replicas h (c ∷ name) namespace in
      adjust-SetsAtMost status (c ∷ name) namespace r err (replicas_asked (c ∷ name) namespace ∷ h)
        (minimums h (c ∷ name) namespace) i

  handle_from-SetsAtMost :
      (d : Bytes) (errors : List Error) (alerts : List PrometheusInnerAlert) (h : History)
      → SetsAtMost limit h
      → SetsAtMost limit (handle_from env d errors alerts h).1
  unfolding handle_from scale_service
  handle_from-SetsAtMost d errors [] h i = i
  handle_from-SetsAtMost d errors (alert ∷ alerts) h i =
      let target = get_namespace d alert.labels.function_name in
      Keeps-continue (SetsAtMost limit) (scale_named env alert.status target h)
        (λ err. handle_from env d (append_error errors err) alerts)
        (scale_named-SetsAtMost alert.status target h i)
        (λ err t j. handle_from-SetsAtMost d (append_error errors err) alerts t j)

  reported-SetsAtMost :
      (w : Writer) (m : Exit (List Error) × History)
      → SetsAtMost limit m.1
      → let k : Exit (Unit {0}) × (Writer × History) = elim m.0 [
        | done es ↦ (done tt, (report es w, m.1))
        | panicked ↦ (panicked, (w, m.1))
      ] in
        SetsAtMost limit k.1.1
  reported-SetsAtMost w (done es, h) i = i
  reported-SetsAtMost w (panicked, h) i = i

  serve_alerts-SetsAtMost :
      (d : Bytes) (got : Writer ⊎ PrometheusAlert) (w : Writer) (h : History)
      → SetsAtMost limit h
      → SetsAtMost limit (serve_alerts env d got (w, h)).1.1
  unfolding serve_alerts handle_alerts
  serve_alerts-SetsAtMost d (inl refused) w h i = i
  serve_alerts-SetsAtMost d (inr req) w h i =
      reported-SetsAtMost w (handle_alerts env d req h) (handle_from-SetsAtMost d [] req.alerts h i)

  -- If the provider answers with no larger minimum, and the limit is 5 or more, no alert sets a
  -- larger count.
  pub alert_handler-SetsAtMost :
      (d : Bytes) (decode : Bytes → Option PrometheusAlert) (r : Request) (w : Writer) (h : History)
      → SetsAtMost limit h
      → SetsAtMost limit (alert_handler env d decode r (w, h)).1.1
  unfolding alert_handler
  alert_handler-SetsAtMost d decode r w h i =
      serve_alerts-SetsAtMost d (read_alerts decode r.body w) w h i
