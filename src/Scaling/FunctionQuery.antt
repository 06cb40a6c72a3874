-- ===== src/Scaling/FunctionQuery.antt =====
-- gateway/scaling/function_query.go: replica counts behind a cache. One call, with the state of
-- the scaler; a line that only logs is left out.
pub mod Laws
use faas_drl.Base.{
  ℕ, ◌≡◌, refl, Bool, true, false, Option, none, some, List, [], ◌∷◌, ◌++◌, if◌then◌else◌,
}
use faas_drl.Base.Int.{ℤ}
use faas_drl.Base.Bytes.{Bytes, codes}
use faas_drl.Base.Dict.{Dict}
use faas_drl.Effect.{Error, M, done, pure, continue, ◌>>=◌, ◌>>◌}
use faas_drl.Scaling.Response.{ServiceQueryResponse, empty_response, Environment}
use faas_drl.Scaling.Cacher.{FunctionCacher, FlightResult, Group}
use faas_drl.Scaling.Scaler.{State, get_key, get_replicas, read_cache, write_cache}

abbrev pub cache_error : Bytes → Bytes → Error
cache_error fn ns = codes "error with cache key: " ++ (fn ++ b'.' ∷ ns)

module _ (env : Environment) (C : FunctionCacher) (group : Group (State C)) (fn ns : Bytes) where
  -- The second read of the cache, which must hit.
  unfoldable pub reread : M (State C) (ServiceQueryResponse × Option Error)
  reread = do
    got ← read_cache env C fn ns
    pure (if got.1 then (got.0, none) else (empty_response, some (cache_error fn ns)))

  -- Behind the call of the provider.
  unfoldable pub after_miss : FlightResult → M (State C) (ServiceQueryResponse × Option Error)
  unfolding reread
  after_miss (res, some err) = pure (empty_response, some err)
  after_miss (none, none) = reread
  after_miss (some r, none) = write_cache env C fn ns r >> reread

  unfoldable pub miss : M (State C) (ServiceQueryResponse × Option Error)
  unfolding after_miss
  miss = group.do_call (get_key fn ns) (get_replicas env C fn ns) >>= after_miss

  -- Behind the first read.
  unfoldable pub after_read :
      ServiceQueryResponse × Bool → M (State C) (ServiceQueryResponse × Option Error)
  unfolding miss
  after_read (query, true) = pure (query, none)
  after_read (query, false) = miss

  unfoldable pub get : M (State C) (ServiceQueryResponse × Option Error)
  unfolding after_read
  get = read_cache env C fn ns >>= after_read

  -- `emptyAnnotations` for an error, or where the annotations are nil.
  abbrev pub annotations_of : ServiceQueryResponse × Option Error → Dict Bytes × Option Error
  annotations_of (r, some err) = ([], some err)
  annotations_of (r, none) = elim r.annotations [
    | none ↦ ([], none)
    | some annotations ↦ (annotations, none)
  ]

  unfoldable pub get_annotations : M (State C) (Dict Bytes × Option Error)
  unfolding get
  get_annotations = get >>= λ res. pure (annotations_of res)
