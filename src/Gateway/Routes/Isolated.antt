-- ===== src/Gateway/Routes/Isolated.antt =====
-- What a request without credentials depends on.
use faas_drl.Base.{ℕ, ◌≡◌, refl, sym, ◌∙◌, false, Bool, Option, some, List, ◌&◌}
use faas_drl.Effect.{done}
use faas_drl.Http.{Request, Writer}
use faas_drl.Gateway.Routes.{
  Handler, HandlerSet, RoutePattern, decorate_handlers, async_routes, routes, serve,
}
use faas_drl.Gateway.Routes.Transparent.{Agree, AllAgree-append, serve-Agree}

module _ {S : Type 0} (decorate : Handler S → Handler S) (authorized : Request → Bool)
    (denied : Request → Writer → Writer)
    (enforced : (h : Handler S) (r : Request) (w : Writer) (s : S)
      → authorized r ≡ false
      → decorate h r (w, s) ≡ (done tt, (denied r w, s)))
    (r : Request) (stranger : authorized r ≡ false) where
  denied-Agree : (h k : Handler S) → Agree r (decorate h) (decorate k)
  denied-Agree h k w s = enforced h r w s stranger ∙ sym (enforced k r w s stranger)

  -- Suppose that a handler behind basic auth answers a request without the credentials with
  -- `denied` and does nothing else. Then what the gateway does with such a request, whatever route
  -- the router takes for it, depends on the handlers of functions, queued calls, telemetry, health
  -- and the redirect alone: with any other handlers of the management and of the UI it answers the
  -- same and leaves the same state.
  pub serve-isolated :
      (hs ks : HandlerSet S) (function_proxy ui other_ui healthz redirect : Handler S)
      (choose : List RoutePattern → Request → Option ℕ) (own : Request → Writer → Writer)
      → hs.telemetry_handler ≡ ks.telemetry_handler
      → hs.queued_proxy ≡ ks.queued_proxy
      → (w : Writer) (s : S)
      → serve choose own
          (routes
            (some decorate)
            (decorate_handlers (some decorate) hs)
            function_proxy
            ui
            healthz
            redirect)
          r
          (w, s)
        ≡ serve choose own
            (routes
              (some decorate)
              (decorate_handlers (some decorate) ks)
              function_proxy
              other_ui
              healthz
              redirect)
            r
            (w, s)
  unfolding routes decorate_handlers
  serve-isolated hs ks function_proxy ui other_ui healthz redirect choose own telemetry queued =
      let hidden = denied-Agree in
      serve-Agree r choose own
        (routes (some decorate) (decorate_handlers (some decorate) hs) function_proxy ui healthz
          redirect)
        (routes (some decorate) (decorate_handlers (some decorate) ks) function_proxy other_ui
          healthz redirect)
        ((refl, λ w s. refl)
          & (refl, λ w s. refl)
          & (refl, λ w s. refl)
          & (refl, hidden hs.info_handler ks.info_handler)
          & (refl, λ w s. rw telemetry refl)
          & (refl, hidden hs.alert ks.alert)
          & (refl, hidden hs.function_status ks.function_status)
          & (refl, hidden hs.list_functions ks.list_functions)
          & (refl, hidden hs.deploy_function ks.deploy_function)
          & (refl, hidden hs.delete_function ks.delete_function)
          & (refl, hidden hs.update_function ks.update_function)
          & (refl, hidden hs.scale_function ks.scale_function)
          & (refl, hidden hs.secret_handler ks.secret_handler)
          & (refl, hidden hs.log_proxy_handler ks.log_proxy_handler)
          & (refl, hidden hs.namespace_lister_handler ks.namespace_lister_handler)
          & (refl, hidden hs.namespace_mutator_handler ks.namespace_mutator_handler)
          & rw queued (
              AllAgree-append r (async_routes ks.queued_proxy) _ _
                ((refl, hidden ui other_ui) & (refl, λ w s. refl) & (refl, λ w s. refl) & tt)))
