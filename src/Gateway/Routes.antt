-- ===== src/Gateway/Routes.antt =====
-- gateway/main.go and gateway/types/handler_set.go: which handlers ask for credentials, and the
-- routes of the gateway. The router is gorilla/mux: which route it takes is a parameter.
pub mod Guarded
pub mod Transparent
pub mod Isolated
pub mod First
use faas_drl.Base.{
  ℕ, Bool, true, false, not, Option, none, some, List, [], ◌∷◌, ◌++◌, map, get_elem?, ◌==◌,
  if◌then◌else◌, is_some,
}
use faas_drl.Base.Bytes.{Bytes, codes}
use faas_drl.Effect.{M, done}
use faas_drl.Http.{Request, Writer}

abbrev pub Handler : Type 0 → Type 0
Handler S = Request → M (Writer × S) (Unit {0})

-- `types.HandlerSet`. Without a queue there is no handler for queued requests.
pub record HandlerSet (S : Type 0) : Type 0 where
  pub proxy : Handler S
  pub deploy_function : Handler S
  pub delete_function : Handler S
  pub list_functions : Handler S
  pub alert : Handler S
  pub update_function : Handler S
  pub function_status : Handler S
  pub queued_proxy : Option (Handler S)
  pub scale_function : Handler S
  pub info_handler : Handler S
  pub telemetry_handler : Handler S
  pub secret_handler : Handler S
  pub log_proxy_handler : Handler S
  pub namespace_lister_handler : Handler S
  pub namespace_mutator_handler : Handler S

-- What a route of the router matches: a template of the whole path or, with `PathPrefix`, of its
-- beginning, and the methods, where none stand for all.
pub record RoutePattern : Type 0 where
  pub template : Bytes
  pub by_prefix : Bool
  pub methods : List Bytes

pub record Route (S : Type 0) : Type 0 where
  pub pattern : RoutePattern
  pub handler : Handler S

abbrev pub name_variable : Bytes
name_variable = codes "{name:[-a-zA-Z_0-9.]+}"

module _ {S : Type 0} where
  abbrev pub route : Bytes → List Bytes → Handler S → Route S
  route template methods handler = record {
    pattern = record { template = template; by_prefix = false; methods = methods };
    handler = handler;
  }

  -- With credentials, `decorate` is `auth.DecorateWithBasicAuth` of faas-provider with them.
  unfoldable pub decorate_handlers : Option (Handler S → Handler S) → HandlerSet S → HandlerSet S
  decorate_handlers none hs = hs
  decorate_handlers (some decorate) hs = record hs {
    alert = decorate hs.alert;
    update_function = decorate hs.update_function;
    delete_function = decorate hs.delete_function;
    deploy_function = decorate hs.deploy_function;
    list_functions = decorate hs.list_functions;
    scale_function = decorate hs.scale_function;
    function_status = decorate hs.function_status;
    info_handler = decorate hs.info_handler;
    secret_handler = decorate hs.secret_handler;
    log_proxy_handler = decorate hs.log_proxy_handler;
    namespace_lister_handler = decorate hs.namespace_lister_handler;
    namespace_mutator_handler = decorate hs.namespace_mutator_handler;
  }

  abbrev pub async_routes : Option (Handler S) → List (Route S)
  async_routes none = []
  async_routes (some queued) =
      let post = codes "POST" ∷ [] in
      route (codes "/async-function/" ++ (name_variable ++ codes "/")) post queued
      ∷ route (codes "/async-function/" ++ name_variable) post queued
      ∷ route (codes "/async-function/" ++ (name_variable ++ codes "/{params:.*}")) post queued
      ∷ []

  abbrev pub ui_route : Option (Handler S → Handler S) → Handler S → Route S
  ui_route credentials ui = record {
    pattern = record { template = codes "/ui/"; by_prefix = true; methods = codes "GET" ∷ [] };
    handler = elim credentials [ some decorate ↦ decorate ui | none ↦ ui ];
  }

  -- The routes in the order in which they are added. Behind the handler set there are the handler
  -- of functions, which may scale them first, and those of the UI, of /healthz and of /.
  unfoldable pub routes :
      Option (Handler S → Handler S)
      → HandlerSet S
      → Handler S
      → Handler S
      → Handler S
      → Handler S
      → List (Route S)
  routes credentials hs function_proxy ui healthz redirect =
      let get = codes "GET" ∷ [] in
      let post = codes "POST" ∷ [] in
      route (codes "/function/" ++ name_variable) [] function_proxy
        ∷ route (codes "/function/" ++ (name_variable ++ codes "/")) [] function_proxy
        ∷ route (codes "/function/" ++ (name_variable ++ codes "/{params:.*}")) [] function_proxy
        ∷ route (codes "/system/info") get hs.info_handler
        ∷ route (codes "/system/telemetry") get hs.telemetry_handler
        ∷ route (codes "/system/alert") post hs.alert
        ∷ route (codes "/system/function/" ++ name_variable) get hs.function_status
        ∷ route (codes "/system/functions") get hs.list_functions
        ∷ route (codes "/system/functions") post hs.deploy_function
        ∷ route (codes "/system/functions") (codes "DELETE" ∷ []) hs.delete_function
        ∷ route (codes "/system/functions") (codes "PUT" ∷ []) hs.update_function
        ∷ route (codes "/system/scale-function/" ++ name_variable) post hs.scale_function
        ∷ route (codes "/system/secrets")
            (codes "GET" ∷ codes "PUT" ∷ codes "POST" ∷ codes "DELETE" ∷ []) hs.secret_handler
        ∷ route (codes "/system/logs") get hs.log_proxy_handler
        ∷ route (codes "/system/namespaces") get hs.namespace_lister_handler
        ∷ route (codes "/system/namespace/{namespace:[-a-zA-Z_0-9.]*}")
            (codes "POST" ∷ codes "DELETE" ∷ codes "PUT" ∷ codes "GET" ∷ [])
            hs.namespace_mutator_handler
        ∷ async_routes hs.queued_proxy
      ++ ui_route credentials ui
        ∷ route (codes "/healthz") get healthz
        ∷ route (codes "/") get redirect
        ∷ []

  -- What the router does with the route at the place that it takes, if there is one.
  abbrev pub taken : (Request → Writer → Writer) → Option (Route S) → Handler S
  taken own none r (w, s) = (done tt, (own r w, s))
  taken own (some t) r (w, s) = t.handler r (w, s)

  -- The router takes one of the routes or answers itself, with 404, 405 or a redirect.
  unfoldable pub serve :
      (List RoutePattern → Request → Option ℕ)
      → (Request → Writer → Writer)
      → List (Route S)
      → Handler S
  serve choose own rs r (w, s) = elim (choose (map (λ t. t.pattern) rs) r) [
    | none ↦ (done tt, (own r w, s))
    | some i ↦ taken own (get_elem? rs i) r (w, s)
  ]
