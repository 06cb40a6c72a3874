-- ===== src/Scaling/Cache.antt =====
-- gateway/scaling/function_cache.go and function_meta.go: responses by function, each with the
-- time of its last refresh. The read-write lock makes each call one step. Times and durations are
-- nanoseconds and unbounded.
pub mod Laws
pub mod History
use faas_drl.Base.{
  ℕ, Bool, true, false, not, Option, none, some, List, [], ◌∷◌, ◌++◌, is_none, if◌then◌else◌,
}
use faas_drl.Base.Int.{ℤ, pos, ◌+ℤ◌, ltb_ℤ}
use faas_drl.Base.Bytes.{Bytes}
use faas_drl.Base.Dict.{Dict, lookup, insert}
use faas_drl.Scaling.Response.{ServiceQueryResponse, empty_response}

pub record FunctionMeta : Type 0 where
  pub last_refresh : ℤ
  pub service_query_response : ServiceQueryResponse

pub record FunctionCache : Type 0 where
  pub cache : Dict FunctionMeta
  pub expiry : ℤ

-- `time.Now().After(fm.LastRefresh.Add(expiry))`
unfoldable pub expired : ℤ → FunctionMeta → ℤ → Bool
unfolding ◌+ℤ◌
expired now fm expiry = ltb_ℤ (fm.last_refresh +ℤ expiry) now

unfoldable pub new_function_cache : ℤ → FunctionCache
new_function_cache cache_expiry = record { cache = []; expiry = cache_expiry }

-- `functionName+"."+namespace`
abbrev pub cache_key : Bytes → Bytes → Bytes
cache_key function_name namespace = function_name ++ b'.' ∷ namespace

-- A new entry is the zero `FunctionMeta`, whose time is the year 1.
abbrev zero_meta : FunctionMeta
zero_meta = record { last_refresh = pos 0; service_query_response = empty_response }

abbrev entry_or_zero : Option FunctionMeta → FunctionMeta
entry_or_zero none = zero_meta
entry_or_zero (some fm) = fm

unfoldable pub set : ℤ → Bytes → Bytes → ServiceQueryResponse → FunctionCache → FunctionCache
set now function_name namespace query_res fc =
    let key = cache_key function_name namespace in
    let entry = entry_or_zero (lookup key fc.cache) in
    let touched = record entry { last_refresh = now; service_query_response = query_res } in
    record fc { cache = insert key touched fc.cache }

-- A stale entry comes back too, with `false`.
unfoldable pub get : ℤ → Bytes → Bytes → FunctionCache → ServiceQueryResponse × Bool
unfolding expired
get now function_name namespace fc = elim (lookup (cache_key function_name namespace) fc.cache) [
  | some val ↦ (val.service_query_response, not (expired now val fc.expiry))
  | none ↦ (empty_response, false)
]
