-- ===== src/Gateway/Steps/Router.antt =====
-- The routes of the gateway respect a relation that their handlers respect.
use faas_drl.Base.{ℕ, zero, suc, Option, none, some, List, [], ◌∷◌, ◌++◌, get_elem?, map, All, ◌&◌}
use faas_drl.Effect.{done}
use faas_drl.Http.{Request, Writer}
use faas_drl.Gateway.Routes.{
  Handler, HandlerSet, RoutePattern, Route, decorate_handlers, async_routes, ui_route, routes,
  taken, serve,
}
use faas_drl.Gateway.Steps.{Steps, Leads, Respects}

module _ {S : Type 0} (R : Steps S) where
  abbrev pub RespectsIfThere : Option (Handler S) → Type 0
  RespectsIfThere none = Unit
  RespectsIfThere (some h) = Respects R h

  -- Basic auth, if it is used, adds nothing of its own.
  abbrev pub IsPassive : Option (Handler S → Handler S) → Type 0
  IsPassive none = Unit
  IsPassive (some decorate) = (h : Handler S) → Respects R h → Respects R (decorate h)

  pub record AllRespect (hs : HandlerSet S) : Type 0 where
    pub deploy_function : Respects R hs.deploy_function
    pub delete_function : Respects R hs.delete_function
    pub list_functions : Respects R hs.list_functions
    pub alert : Respects R hs.alert
    pub update_function : Respects R hs.update_function
    pub function_status : Respects R hs.function_status
    pub queued_proxy : RespectsIfThere hs.queued_proxy
    pub scale_function : Respects R hs.scale_function
    pub info_handler : Respects R hs.info_handler
    pub telemetry_handler : Respects R hs.telemetry_handler
    pub secret_handler : Respects R hs.secret_handler
    pub log_proxy_handler : Respects R hs.log_proxy_handler
    pub namespace_lister_handler : Respects R hs.namespace_lister_handler
    pub namespace_mutator_handler : Respects R hs.namespace_mutator_handler

  AllRespect-decorate_handlers :
      (guard : Option (Handler S → Handler S)) (hs : HandlerSet S)
      → IsPassive guard
      → AllRespect hs
      → AllRespect (decorate_handlers guard hs)
  unfolding decorate_handlers
  AllRespect-decorate_handlers none hs passive k = k
  AllRespect-decorate_handlers (some decorate) hs passive k = record {
    deploy_function = passive hs.deploy_function k.deploy_function;
    delete_function = passive hs.delete_function k.delete_function;
    list_functions = passive hs.list_functions k.list_functions;
    alert = passive hs.alert k.alert;
    update_function = passive hs.update_function k.update_function;
    function_status = passive hs.function_status k.function_status;
    queued_proxy = k.queued_proxy;
    scale_function = passive hs.scale_function k.scale_function;
    info_handler = passive hs.info_handler k.info_handler;
    telemetry_handler = k.telemetry_handler;
    secret_handler = passive hs.secret_handler k.secret_handler;
    log_proxy_handler = passive hs.log_proxy_handler k.log_proxy_handler;
    namespace_lister_handler = passive hs.namespace_lister_handler k.namespace_lister_handler;
    namespace_mutator_handler = passive hs.namespace_mutator_handler k.namespace_mutator_handler;
  }

  abbrev RouteRespects : Route S → Type 0
  RouteRespects t = Respects R t.handler

  async_routes-Respects :
      (queued : Option (Handler S)) (rest : List (Route S))
      → RespectsIfThere queued
      → All RouteRespects rest
      → All RouteRespects (async_routes queued ++ rest)
  async_routes-Respects none rest q k = k
  async_routes-Respects (some queued) rest q k = q & q & q & k

  ui_route-Respects :
      (guard : Option (Handler S → Handler S)) (ui : Handler S)
      → IsPassive guard
      → Respects R ui
      → RouteRespects (ui_route guard ui)
  ui_route-Respects none ui passive k = k
  ui_route-Respects (some decorate) ui passive k = passive ui k

  module _ (guard : Option (Handler S → Handler S)) (hs : HandlerSet S)
      (function_proxy ui healthz redirect : Handler S) (passive : IsPassive guard) where
    routes-Respects :
        AllRespect hs
        → Respects R function_proxy
        → Respects R ui
        → Respects R healthz
        → Respects R redirect
        → All RouteRespects (routes guard hs function_proxy ui healthz redirect)
    unfolding routes
    routes-Respects k f u h d =
        f
        & f
        & f
        & k.info_handler
        & k.telemetry_handler
        & k.alert
        & k.function_status
        & k.list_functions
        & k.deploy_function
        & k.delete_function
        & k.update_function
        & k.scale_function
        & k.secret_handler
        & k.log_proxy_handler
        & k.namespace_lister_handler
        & k.namespace_mutator_handler
        & async_routes-Respects hs.queued_proxy _ k.queued_proxy
            (ui_route-Respects guard ui passive u & h & d & tt)

  taken-Respects :
      (own : Request → Writer → Writer) (rs : List (Route S)) (i : ℕ)
      → All RouteRespects rs
      → Respects R (taken own (get_elem? rs i))
  taken-Respects own [] i k r w s = R.idle s
  taken-Respects own (t ∷ rs) zero (h, k) r w s = h r w s
  taken-Respects own (t ∷ rs) (suc i) (h, k) r w s = taken-Respects own rs i k r w s

  serve_taken :
      (own : Request → Writer → Writer) (rs : List (Route S)) (choice : Option ℕ)
      → All RouteRespects rs
      → (r : Request) (w : Writer) (s : S)
      → Leads R s (elim choice [
        | none ↦ (done tt, (own r w, s))
        | some i ↦ taken own (get_elem? rs i) r (w, s)
      ])
  serve_taken own rs none k r w s = R.idle s
  serve_taken own rs (some i) k r w s = taken-Respects own rs i k r w s

  -- Whatever route is taken for a request, if any.
  pub Respects-serve :
      (choose : List RoutePattern → Request → Option ℕ) (own : Request → Writer → Writer)
      (rs : List (Route S))
      → All RouteRespects rs
      → Respects R (serve choose own rs)
  unfolding serve
  Respects-serve choose own rs k r w s =
      serve_taken own rs (choose (map (λ t. t.pattern) rs) r) k r w s

  pub Respects-gateway :
      (choose : List RoutePattern → Request → Option ℕ) (own : Request → Writer → Writer)
      (guard : Option (Handler S → Handler S)) (hs : HandlerSet S)
      (function_proxy ui healthz redirect : Handler S)
      → IsPassive guard
      → AllRespect hs
      → Respects R function_proxy
      → Respects R ui
      → Respects R healthz
      → Respects R redirect
      → Respects R (
          serve choose own
            (routes guard (decorate_handlers guard hs) function_proxy ui healthz redirect))
  Respects-gateway choose own guard hs function_proxy ui healthz redirect passive k f u h d =
      Respects-serve choose own _ (
        routes-Respects guard (decorate_handlers guard hs) function_proxy ui healthz redirect
          passive (AllRespect-decorate_handlers guard hs passive k) f u h d)
