-- ===== src/Gateway/Wiring/Guarded.antt =====
-- The whole gateway, and requests without credentials.
use mathlib.Core.Option
use faas_drl.Base.{ℕ, ◌≡◌, ap, ◌⊎◌, Bool, true, false, Option, some, List, get_elem?}
use faas_drl.Base.Bytes.{Bytes, codes}
use faas_drl.Effect.{done}
use faas_drl.Http.{Request, Writer}
use faas_drl.Handlers.Health.{decorate_with_cors}
use faas_drl.Gateway.Routes.{Handler, RoutePattern}
use faas_drl.Gateway.Routes.Guarded.{Fits, is_managed, managed_paths_are_guarded}
use faas_drl.Gateway.Wiring.{Store, Parts, injector, forwarding, function_proxy, handlers, gateway}

module _ {P Rest : Type 0} (p : Parts P Rest) (choose : List RoutePattern → Request → Option ℕ)
    (own : Request → Writer → Writer) (decorate : Bytes × Bytes → Handler Store → Handler Store)
    (strip_prefix : Handler Store → Handler Store) (files redirect : Handler Store) where
  -- With credentials, where `authorized` says whether a request carries them: suppose that the
  -- router takes only routes that fit the path, and that a handler behind basic auth answers a
  -- request without the credentials with `denied` and does nothing else. Then no such request for a
  -- managed path, which is one below /ui/ or below /system/ but for /system/telemetry, reaches a
  -- handler of the gateway: it is answered by the router or with `denied`, nothing is asked of the
  -- provider or queued, and no notifier is told.
  pub gateway_guarded :
      (credentials : Bytes × Bytes) (authorized : Request → Bool)
      (denied : Request → Writer → Writer)
      → p.credentials ≡ some credentials
      → ((h : Handler Store) (r : Request) (w : Writer) (s : Store)
          → authorized r ≡ false
          → decorate credentials h r (w, s) ≡ (done tt, (denied r w, s)))
      → ((patterns : List RoutePattern) (r : Request) (i : ℕ) (pattern : RoutePattern)
          → choose patterns r ≡ some i
          → get_elem? patterns i ≡ some pattern
          → Fits pattern r.url.path)
      → (r : Request) (w : Writer) (s : Store) → authorized r ≡ false
      → is_managed r.url.path ≡ true
      → let m = gateway p choose own decorate strip_prefix files redirect r (w, s) in
        (m ≡ (done tt, (own r w, s))) ⊎ (m ≡ (done tt, (denied r w, s)))
  unfolding gateway
  gateway_guarded credentials authorized denied given enforced fitting r w s a m =
      let same : Option.map decorate p.credentials ≡ some (decorate credentials) =
        ap (Option.map decorate) given in
      rw (same, gateway)
        (managed_paths_are_guarded (decorate credentials) (handlers p) (function_proxy p)
          (strip_prefix (decorate_with_cors files (codes "raw.githubusercontent.com")))
          (forwarding p (injector p)) redirect choose own authorized denied enforced fitting r w s a
          m)
