-- ===== src/Handlers/Notifiers/Named.antt =====
-- The function that is counted is the one that is scaled.
use faas_drl.Base.{
  ℕ, ==_iff, not, ◌&&◌, if◌then◌else◌, ◌≡◌, ◌≢◌, refl, sym, true, false, [], ◌∷◌, ◌++◌, inl, inr,
  arith,
}
use faas_drl.Base.Bytes.{Bytes}
use faas_drl.Text.{contains, Lacks}
use faas_drl.Middleware.ServiceName.{get_namespace, IsSplit, get_namespace-IsSplit}
use faas_drl.Middleware.Resolver.{get_service_name}
use faas_drl.Scaling.Cache.{cache_key}
use faas_drl.Handlers.Forwarding.{is_empty}
use faas_drl.Handlers.Notifiers.{metric_name}

contains-append_cons : (c : ℕ) (s t : Bytes) → contains c (s ++ c ∷ t) ≡ true
unfolding contains
contains-append_cons c [] t = ground (arith, ==_iff c c)
contains-append_cons c (x ∷ s) t = ground (arith, contains-append_cons c s t)

contains-Lacks : (c : ℕ) (s : Bytes) → Lacks c s → contains c s ≡ false
unfolding contains
contains-Lacks c [] h = refl
contains-Lacks c (x ∷ s) (n, h) = ground (arith, n, ==_iff x c, contains-Lacks c s h)

-- The full name of a split one.
abbrev joined : Bytes × Bytes → Bytes
joined (name, namespace) = cache_key name namespace

named_by :
    (ns service : Bytes) (target : Bytes × Bytes)
    → ns ≢ []
    → IsSplit ns service target
    → joined target
      ≡ (if not (is_empty ns) && not (contains b'.' service) then service ++ b'.' ∷ ns else service)
named_by [] service target ne split = absurd (ne refl)
named_by (x ∷ ns) service (f, n) ne (inl (e, k)) = rw (e, contains-append_cons b'.' f n) refl
named_by (x ∷ ns) service (f, n) ne (inr (e, q, k)) =
    rw (contains-Lacks b'.' service k) (rw (sym e, q) refl)

-- With a default namespace, the full name of the function and namespace that a call is scaled for,
-- as the cache keys it, is the label that the call is counted under.
pub metric_name-cache_key :
    (ns url : Bytes)
    → ns ≢ []
    → let target = get_namespace ns (get_service_name url) in
      cache_key target.0 target.1 ≡ metric_name ns url
unfolding metric_name
metric_name-cache_key ns url ne =
    named_by ns (get_service_name url) _ ne (get_namespace-IsSplit ns (get_service_name url))
