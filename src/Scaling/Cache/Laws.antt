-- ===== src/Scaling/Cache/Laws.antt =====
-- What the cache gives back.
use faas_drl.Base.{◌≡◌, refl, ap, false, [], arith, if◌then◌else◌}
use faas_drl.Base.Int.{ℤ, ◌+ℤ◌, leb_ℤ}
use faas_drl.Base.Bytes.{Bytes, eq_bytes, eq_bytes_refl}
use faas_drl.Base.Dict.{lookup, lookup-insert}
use faas_drl.Text.{Lacks}
use faas_drl.Middleware.ServiceName.{get_namespace, get_namespace-qualified}
use faas_drl.Scaling.Response.{ServiceQueryResponse, empty_response}
use faas_drl.Scaling.Cache.{FunctionCache, cache_key, set, get, new_function_cache}

-- Names whose namespaces hold no dot share a key only if they are equal.
pub cache_key-injective :
    (f g m n : Bytes)
    → Lacks b'.' m
    → Lacks b'.' n
    → cache_key f m ≡ cache_key g n
    → (f ≡ g) × (m ≡ n)
cache_key-injective f g m n hm hn e =
    let same : get_namespace [] (cache_key f m) ≡ get_namespace [] (cache_key g n) =
      ap (get_namespace []) e in
    let p = get_namespace-qualified [] f m hm in
    let q = get_namespace-qualified [] g n hn in
    (ground (arith, same, p, q), ground (arith, same, p, q))

-- After `set` a `get` of the same function gives the stored response, and hits exactly if its age
-- is at most the expiry; a `get` under another key is as before.
pub get-set :
    (t now : ℤ) (f m g n : Bytes) (r : ServiceQueryResponse) (fc : FunctionCache)
    → get now g n (set t f m r fc) ≡ (
        if eq_bytes (cache_key f m) (cache_key g n)
        then (r, leb_ℤ now (t +ℤ fc.expiry))
        else get now g n fc)
unfolding get set
get-set t now f m g n r fc = ground (
  arith,
  lookup-insert (cache_key f m) (cache_key g n)
      (record { last_refresh = t; service_query_response = r }) fc.cache,
)

-- A fresh cache never hits.
pub get-new_function_cache :
    (now expiry : ℤ) (f m : Bytes)
    → get now f m (new_function_cache expiry) ≡ (empty_response, false)
unfolding get new_function_cache lookup
get-new_function_cache now expiry f m = refl

-- A `get` of the function that was just `set` gives the response, and hits unless it has expired.
pub get-set_same :
    (t now : ℤ) (f m : Bytes) (r : ServiceQueryResponse) (fc : FunctionCache)
    → get now f m (set t f m r fc) ≡ (r, leb_ℤ now (t +ℤ fc.expiry))
get-set_same t now f m r fc =
    ground (arith, get-set t now f m f m r fc, eq_bytes_refl (cache_key f m))
