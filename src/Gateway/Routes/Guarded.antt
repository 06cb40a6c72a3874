-- ===== src/Gateway/Routes/Guarded.antt =====
-- Which paths cannot be asked for without credentials.
use faas_drl.Base.{
  ℕ, ◌≡◌, ◌↔◌, refl, ◌⊎◌, inl, inr, Bool, true, false, not, ◌&&◌, ◌||◌, Option, none, some, List,
  [], ◌∷◌, ◌++◌, map, get_elem?, All, All-get_elem?, ◌&◌, get_elem?-map, ◌==◌, if◌then◌else◌, arith,
  Option-cases,
}
use faas_drl.Base.Bytes.{Bytes, codes, eq_bytes, eq_bytes_iff}
use faas_drl.Effect.{done}
use faas_drl.Http.{Request, Writer}
use faas_drl.Text.{strip_prefix, has_prefix, contains, span}
use faas_drl.Gateway.Routes.{
  Handler, HandlerSet, RoutePattern, Route, decorate_handlers, async_routes, routes, serve,
}

-- The management of the gateway: all below /system/ but the telemetry, and the UI.
abbrev pub is_managed : Bytes → Bool
is_managed path =
    (has_prefix path (codes "/system/") || has_prefix path (codes "/ui/"))
    && not (eq_bytes path (codes "/system/telemetry"))

-- What a template spells before its first variable.
abbrev pub literal : Bytes → Bytes
literal template = (span (λ b. not (b == b'{')) template).0

-- What the router promises of the route that it takes for a path: a template with no variable is
-- the path, and any other begins as the path begins.
abbrev pub Fits : RoutePattern → Bytes → Type 0
Fits p path =
    if contains b'{' p.template || p.by_prefix
    then has_prefix path (literal p.template) ≡ true
    else path ≡ p.template

abbrev pub fits : RoutePattern → Bytes → Bool
fits p path =
    if contains b'{' p.template || p.by_prefix
    then has_prefix path (literal p.template)
    else eq_bytes path p.template

pub fits_iff : (p : RoutePattern) (path : Bytes) → (fits p path ≡ true) ↔ Fits p path
fits_iff p path = (
  λ h. ground (arith, h, eq_bytes_iff path p.template),
  λ h. ground (arith, h, eq_bytes_iff path p.template),
)

-- Strings that are not both beginnings of one string.
clash : Bytes → Bytes → Bool
clash [] q = false
clash (x ∷ p) [] = false
clash (x ∷ p) (y ∷ q) = not (x == y) || clash p q

has_prefix-clash :
    (p q s : Bytes) → has_prefix s p ≡ true → has_prefix s q ≡ true → clash p q ≡ false
unfolding has_prefix strip_prefix clash
has_prefix-clash [] q s a b = refl
has_prefix-clash (x ∷ p) [] s a b = refl
has_prefix-clash (x ∷ p) (y ∷ q) [] a b = cc
has_prefix-clash (x ∷ p) (y ∷ q) (z ∷ s) a b = ground (arith, has_prefix-clash p q s)

may_manage : RoutePattern → Bool
unfolding clash
may_manage p =
    if contains b'{' p.template || p.by_prefix
    then not (clash (literal p.template) (codes "/system/"))
      || not (clash (literal p.template) (codes "/ui/"))
    else is_managed p.template

Fits-may_manage :
    (p : RoutePattern) (path : Bytes) → Fits p path → is_managed path ≡ true → may_manage p ≡ true
unfolding may_manage
Fits-may_manage p path = ground (
  arith,
  has_prefix-clash (literal p.template) (codes "/system/") path,
  has_prefix-clash (literal p.template) (codes "/ui/") path,
)

module _ {S : Type 0} (decorate : Handler S → Handler S) (hs : HandlerSet S)
    (function_proxy ui healthz redirect : Handler S) where
  abbrev pub guarded_routes : List (Route S)
  guarded_routes =
      routes (some decorate) (decorate_handlers (some decorate) hs) function_proxy ui healthz
        redirect

  abbrev IsGuarded : Route S → Type 0
  IsGuarded t = (may_manage t.pattern ≡ false) ⊎ ((h : Handler S) × (t.handler ≡ decorate h))

  async_routes-IsGuarded :
      (queued : Option (Handler S)) (rest : List (Route S))
      → All IsGuarded rest
      → All IsGuarded (async_routes queued ++ rest)
  unfolding may_manage has_prefix strip_prefix contains span
  async_routes-IsGuarded none rest k = k
  async_routes-IsGuarded (some queued) rest k = inl refl & inl refl & inl refl & k

  routes-IsGuarded : All IsGuarded guarded_routes
  unfolding routes decorate_handlers may_manage has_prefix strip_prefix contains span
  routes-IsGuarded =
      inl refl
      & inl refl
      & inl refl
      & inr (hs.info_handler, refl)
      & inl refl
      & inr (hs.alert, refl)
      & inr (hs.function_status, refl)
      & inr (hs.list_functions, refl)
      & inr (hs.deploy_function, refl)
      & inr (hs.delete_function, refl)
      & inr (hs.update_function, refl)
      & inr (hs.scale_function, refl)
      & inr (hs.secret_handler, refl)
      & inr (hs.log_proxy_handler, refl)
      & inr (hs.namespace_lister_handler, refl)
      & inr (hs.namespace_mutator_handler, refl)
      & async_routes-IsGuarded hs.queued_proxy _ (inr (ui, refl) & inl refl & inl refl & tt)

  -- With credentials, where `authorized` says whether a request carries them: suppose that the
  -- router takes only routes that fit the path, and that a handler behind basic auth answers a
  -- request without the credentials with `denied` and does nothing else. Then no such request for a
  -- managed path, which is one below /ui/ or below /system/ but for /system/telemetry, reaches a
  -- handler: it is answered by the router or with `denied`, and the state of the gateway stays as
  -- it is.
  pub managed_paths_are_guarded :
      (choose : List RoutePattern → Request → Option ℕ) (own : Request → Writer → Writer)
      (authorized : Request → Bool) (denied : Request → Writer → Writer)
      → ((h : Handler S) (r : Request) (w : Writer) (s : S)
          → authorized r ≡ false
          → decorate h r (w, s) ≡ (done tt, (denied r w, s)))
      → ((patterns : List RoutePattern) (r : Request) (i : ℕ) (p : RoutePattern)
          → choose patterns r ≡ some i
          → get_elem? patterns i ≡ some p
          → Fits p r.url.path)
      → (r : Request) (w : Writer) (s : S) → authorized r ≡ false
      → is_managed r.url.path ≡ true
      → (serve choose own guarded_routes r (w, s) ≡ (done tt, (own r w, s)))
        ⊎ (serve choose own guarded_routes r (w, s) ≡ (done tt, (denied r w, s)))
  unfolding serve
  managed_paths_are_guarded choose own authorized denied enforced fitting r w s a m =
      let patterns = map (λ t. t.pattern) guarded_routes in
      elim (Option-cases (choose patterns r)) [
        | inl e ↦ inl (rw (e, serve) refl)
        | inr (i, e) ↦ elim (Option-cases (get_elem? guarded_routes i)) [
          | inl q ↦ inl (rw (e, q, serve) refl)
          | inr (t, q) ↦
              let fits =
                fitting patterns r i t.pattern e
                  (get_elem?-map (λ t. t.pattern) guarded_routes i q) in
              elim (All-get_elem? IsGuarded guarded_routes i routes-IsGuarded q) [
                | inl f ↦ absurd (cc (f, Fits-may_manage t.pattern r.url.path fits m))
                | inr (h, g) ↦ inr (rw (e, q, g, serve) (enforced h r w s a))
              ]
        ]
      ]
