-- ===== src/Scaling/Cacher.antt =====
-- The interface `FunctionCacher` of gateway/scaling/function_cache.go, its implementation by
-- `FunctionCache`, and the group of golang.org/x/sync/singleflight, which is code of another
-- project: what the gateway relies on is a law of the record.
use faas_drl.Base.{◌≡◌, ◌⊎◌, inl, Bool, Option, arith, refl}
use faas_drl.Base.Int.{ℤ}
use faas_drl.Base.Bytes.{Bytes, eq_bytes_refl}
use faas_drl.Effect.{Error, M}
use faas_drl.Scaling.Response.{ServiceQueryResponse}
use faas_drl.Scaling.Cache.{FunctionCache, cache_key, set, get}
use faas_drl.Scaling.Cache.Laws.{get-set}

pub record FunctionCacher : Type 1 where
  pub Cache : Type 0
  pub cache_set : ℤ → Bytes → Bytes → ServiceQueryResponse → Cache → Cache
  pub cache_get : ℤ → Bytes → Bytes → Cache → ServiceQueryResponse × Bool
  pub get_after_set :
      (t now : ℤ) (f m : Bytes) (r : ServiceQueryResponse) (c : Cache)
      → (cache_get now f m (cache_set t f m r c)).0 ≡ r

pub get-set_self :
    (t now : ℤ) (f m : Bytes) (r : ServiceQueryResponse) (fc : FunctionCache)
    → (get now f m (set t f m r fc)).0 ≡ r
get-set_self t now f m r fc =
    ground (arith, get-set t now f m f m r fc, eq_bytes_refl (cache_key f m))

abbrev pub function_cacher : FunctionCacher
function_cacher = record {
  Cache = FunctionCache;
  cache_set = set;
  cache_get = get;
  get_after_set = get-set_self;
}

-- `(interface{}, error)`: the values that the scaler sends through a group are responses or nil.
abbrev pub FlightResult : Type 0
FlightResult = Option ServiceQueryResponse × Option Error

-- A call runs the function, or waits for a call of the same key that is in flight and gives the
-- result of that one's function, or panics with it. While it waits it does nothing that the
-- environment sees.
pub record Group (S : Type 0) : Type 0 where
  pub do_call : Bytes → M S FlightResult → M S FlightResult
  pub runs_or_joins :
      (key : Bytes) (f : M S FlightResult) (s : S)
      → (do_call key f s ≡ f s) ⊎ ((t : S) × (do_call key f s ≡ ((f t).0, s)))

-- A group in which no call ever finds another in flight.
abbrev pub lone_group : (S : Type 0) → Group S
lone_group S = record { do_call = λ key f. f; runs_or_joins = λ key f s. inl refl }
