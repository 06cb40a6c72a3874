-- ===== src/Gateway/Servers/Unrouted.antt =====
-- What a router promises, and paths that no route of the gateway fits.
use faas_drl.Base.{
  ℕ, zero, suc, ◌≡◌, refl, Bool, true, false, Option, none, some, List, [], ◌∷◌, ◌++◌, map,
  get_elem?, ◌||◌, arith, get_elem?-map, inl, inr, Option-cases,
}
use faas_drl.Base.Bytes.{Bytes, codes}
use faas_drl.Effect.{done}
use faas_drl.Http.{Request, Writer}
use faas_drl.Text.{has_prefix, strip_prefix, contains, span}
use faas_drl.Gateway.Routes.{Handler, HandlerSet, RoutePattern, Route, async_routes, routes, serve}
use faas_drl.Gateway.Routes.Guarded.{Fits, fits, fits_iff}

abbrev pub metrics_path : Bytes
metrics_path = codes "/metrics"

abbrev any_fits : Bytes → List RoutePattern → Bool
any_fits path [] = false
any_fits path (p ∷ ps) = fits p path || any_fits path ps

any_fits-get_elem? :
    (path : Bytes) (ps : List RoutePattern) (i : ℕ) (p : RoutePattern)
    → get_elem? ps i ≡ some p
    → Fits p path
    → any_fits path ps ≡ true
any_fits-get_elem? path [] i p e f = absurd (cc e)
any_fits-get_elem? path (q ∷ ps) zero p e f = ground (arith, e, (fits_iff p path).1 f)
any_fits-get_elem? path (q ∷ ps) (suc i) p e f = ground (arith, any_fits-get_elem? path ps i p e f)

-- The router takes only routes that fit the path.
abbrev pub TakesFitting : (List RoutePattern → Request → Option ℕ) → Type 0
TakesFitting choose =
    (patterns : List RoutePattern) (r : Request) (i : ℕ) (p : RoutePattern)
    → choose patterns r ≡ some i
    → get_elem? patterns i ≡ some p
    → Fits p r.url.path

-- A pattern that is a path, for all methods.
abbrev pub plain_pattern : Bytes → RoutePattern
plain_pattern path = record { template = path; by_prefix = false; methods = [] }

-- The router takes a route for a path that is the template of one for all methods.
abbrev pub TakesPlain : (List RoutePattern → Request → Option ℕ) → Type 0
TakesPlain choose =
    (patterns : List RoutePattern) (r : Request) (i : ℕ)
    → get_elem? patterns i ≡ some (plain_pattern r.url.path)
    → contains b'{' r.url.path ≡ false
    → (j : ℕ) × (p : RoutePattern) × (choose patterns r ≡ some j) × (get_elem? patterns j ≡ some p)

module _ {S : Type 0} where
  abbrev pub patterns_of : List (Route S) → List RoutePattern
  patterns_of rs = map (λ t. t.pattern) rs

  async_routes_miss :
      (queued : Option (Handler S)) (rest : List (Route S))
      → any_fits metrics_path (patterns_of rest) ≡ false
      → any_fits metrics_path (patterns_of (async_routes queued ++ rest)) ≡ false
  unfolding has_prefix strip_prefix contains span
  async_routes_miss none rest k = k
  async_routes_miss (some queued) rest k = k

  pub routes_miss :
      (guard : Option (Handler S → Handler S)) (hs : HandlerSet S)
      (function_proxy ui healthz redirect : Handler S)
      → any_fits metrics_path (patterns_of (routes guard hs function_proxy ui healthz redirect))
        ≡ false
  unfolding routes has_prefix strip_prefix contains span
  routes_miss guard hs function_proxy ui healthz redirect = async_routes_miss hs.queued_proxy _ refl

  -- A request for a path that no route fits is answered by the router.
  pub serve_unrouted :
      (choose : List RoutePattern → Request → Option ℕ) (own : Request → Writer → Writer)
      (rs : List (Route S)) (r : Request) (w : Writer) (s : S)
      → TakesFitting choose
      → any_fits r.url.path (patterns_of rs) ≡ false
      → serve choose own rs r (w, s) ≡ (done tt, (own r w, s))
  unfolding serve
  serve_unrouted choose own rs r w s fitting k = elim (Option-cases (choose (patterns_of rs) r)) [
    | inl e ↦ rw (e, serve) refl
    | inr (i, e) ↦ elim (Option-cases (get_elem? rs i)) [
      | inl q ↦ rw (e, q, serve) refl
      | inr (t, q) ↦
          let there = get_elem?-map (λ t. t.pattern) rs i q in
          let fits = fitting (patterns_of rs) r i t.pattern e there in
          absurd (cc (k, any_fits-get_elem? r.url.path (patterns_of rs) i t.pattern there fits))
    ]
  ]

pub get_elem?-none :
    {S : Type 0} (rs : List (Route S)) (i : ℕ)
    → get_elem? (map (λ t. t.pattern) rs) i ≡ none
    → get_elem? rs i ≡ none
get_elem?-none [] i e = refl
get_elem?-none (t ∷ rs) zero e = absurd (cc e)
get_elem?-none (t ∷ rs) (suc i) e = get_elem?-none rs i e
