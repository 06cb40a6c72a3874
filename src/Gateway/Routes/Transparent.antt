-- ===== src/Gateway/Routes/Transparent.antt =====
-- What basic auth changes for a request that carries the credentials: nothing.
use faas_drl.Base.{
  ℕ, zero, suc, ◌≡◌, refl, Option, none, some, List, [], ◌∷◌, ◌++◌, map, get_elem?, ◌&◌,
  Option-cases, inl, inr,
}
use faas_drl.Http.{Request, Writer}
use faas_drl.Gateway.Routes.{
  Handler, HandlerSet, RoutePattern, Route, decorate_handlers, async_routes, routes, taken, serve,
}

module _ {S : Type 0} (r : Request) where
  -- Routes with the same patterns, whose handlers do the same with the request.
  abbrev pub Agree : Handler S → Handler S → Type 0
  Agree h k = (w : Writer) (s : S) → h r (w, s) ≡ k r (w, s)

  abbrev pub AllAgree : List (Route S) → List (Route S) → Type 0
  AllAgree [] [] = Unit
  AllAgree [] (y ∷ ys) = ⊥
  AllAgree (x ∷ xs) [] = ⊥
  AllAgree (x ∷ xs) (y ∷ ys) =
      ((x.pattern ≡ y.pattern) × Agree x.handler y.handler) × AllAgree xs ys

  pub AllAgree-append :
      (xs ys zs : List (Route S)) → AllAgree ys zs → AllAgree (xs ++ ys) (xs ++ zs)
  AllAgree-append [] ys zs k = k
  AllAgree-append (x ∷ xs) ys zs k = ((refl, λ w s. refl), AllAgree-append xs ys zs k)

  AllAgree-patterns :
      (xs ys : List (Route S)) → AllAgree xs ys → map (λ t. t.pattern) xs ≡ map (λ t. t.pattern) ys
  AllAgree-patterns [] [] k = refl
  AllAgree-patterns [] (y ∷ ys) k = absurd k
  AllAgree-patterns (x ∷ xs) [] k = absurd k
  AllAgree-patterns (x ∷ xs) (y ∷ ys) ((p, h), k) = rw (p, AllAgree-patterns xs ys k) refl

  taken-Agree :
      (own : Request → Writer → Writer) (xs ys : List (Route S)) (i : ℕ)
      → AllAgree xs ys
      → Agree (taken own (get_elem? xs i)) (taken own (get_elem? ys i))
  taken-Agree own [] [] i k w s = refl
  taken-Agree own [] (y ∷ ys) i k w s = absurd k
  taken-Agree own (x ∷ xs) [] i k w s = absurd k
  taken-Agree own (x ∷ xs) (y ∷ ys) zero ((p, h), k) w s = h w s
  taken-Agree own (x ∷ xs) (y ∷ ys) (suc i) (h, k) w s = taken-Agree own xs ys i k w s

  pub serve-Agree :
      (choose : List RoutePattern → Request → Option ℕ) (own : Request → Writer → Writer)
      (xs ys : List (Route S))
      → AllAgree xs ys
      → Agree (serve choose own xs) (serve choose own ys)
  unfolding serve
  serve-Agree choose own xs ys k w s = elim (Option-cases (choose (map (λ t. t.pattern) ys) r)) [
    | inl e ↦ rw (AllAgree-patterns xs ys k, e, serve) refl
    | inr (i, e) ↦ rw (AllAgree-patterns xs ys k, e, serve) (taken-Agree own xs ys i k w s)
  ]

module _ {S : Type 0} (decorate : Handler S → Handler S) (hs : HandlerSet S)
    (function_proxy ui healthz redirect : Handler S) where
  -- If every handler behind basic auth does for a request what it does without it, as basic auth
  -- promises for one with the credentials, the gateway with credentials serves the request as the
  -- gateway without them does.
  pub serve-credentials :
      (choose : List RoutePattern → Request → Option ℕ) (own : Request → Writer → Writer)
      (r : Request)
      → ((h : Handler S) (w : Writer) (s : S) → decorate h r (w, s) ≡ h r (w, s))
      → (w : Writer) (s : S)
      → serve choose own
          (routes
            (some decorate)
            (decorate_handlers (some decorate) hs)
            function_proxy
            ui
            healthz
            redirect)
          r
          (w, s)
        ≡ serve choose own
            (routes none (decorate_handlers none hs) function_proxy ui healthz redirect)
            r
            (w, s)
  unfolding routes decorate_handlers
  serve-credentials choose own r passes =
      serve-Agree r choose own
        (routes (some decorate) (decorate_handlers (some decorate) hs) function_proxy ui healthz
          redirect)
        (routes none (decorate_handlers none hs) function_proxy ui healthz redirect)
        ((refl, λ w s. refl)
          & (refl, λ w s. refl)
          & (refl, λ w s. refl)
          & (refl, passes hs.info_handler)
          & (refl, λ w s. refl)
          & (refl, passes hs.alert)
          & (refl, passes hs.function_status)
          & (refl, passes hs.list_functions)
          & (refl, passes hs.deploy_function)
          & (refl, passes hs.delete_function)
          & (refl, passes hs.update_function)
          & (refl, passes hs.scale_function)
          & (refl, passes hs.secret_handler)
          & (refl, passes hs.log_proxy_handler)
          & (refl, passes hs.namespace_lister_handler)
          & (refl, passes hs.namespace_mutator_handler)
          & AllAgree-append r (async_routes hs.queued_proxy) _ _
              ((refl, passes ui) & (refl, λ w s. refl) & (refl, λ w s. refl) & tt))
