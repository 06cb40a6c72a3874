-- ===== src/Scaling/Scaler/Available.antt =====
-- When a call of `Scale` reports the function as available.
use faas_drl.Base.{ℕ, ◌≡◌, Bool, true, Option, none, some, arith, ◌∷◌, ◌<◌, is_none, ltb}
use faas_drl.Base.Int.{◌-ℤ◌}
use faas_drl.Base.Bytes.{Bytes}
use faas_drl.Effect.{Error, done}
use faas_drl.Effect.Laws.{Returns, EndsIn-imp}
use faas_drl.Scaling.Response.{
  ServiceQueryResponse, ScalingConfig, Environment, History, clock_read,
}
use faas_drl.Scaling.Cacher.{FunctionCacher, Group}
use faas_drl.Scaling.Scaler.{State, now, read_cache, finish, scale, serve}
use faas_drl.Scaling.Scaler.Consistent.{SetPanics, IsConsistent, IsExplained, on_get, on_set}
use faas_drl.Scaling.Scaler.Result.{scale-EndsIn}

-- If the provider never gives an error and never panics, `Scale` returns and reports the function
-- as available, whatever replica counts the provider answers and however long none is ready.
pub scale-available :
    (env : Environment) (C : FunctionCacher) (group : Group (State C)) (config : ScalingConfig)
    (fn ns : Bytes)
    → ((h : History) → (env.get_replicas h fn ns).1 ≡ none)
    → ((h : History) (count : ℕ) → env.set_replicas h fn ns count ≡ done none)
    → (s : State C) → Returns (λ r. r.available ≡ true) (scale env C group config fn ns s)
scale-available env C group config fn ns no_get no_set s =
    EndsIn-imp (λ s. SetPanics env fn ns) _ (IsConsistent env fn ns) _
      (λ s (h, count, e). cc (no_set h count, e)) (λ r k. go r.error k.available_iff k.explained) _
      (scale-EndsIn env C group config fn ns s)
  where
    go : {b : Bool} (o : Option Error) → b ≡ is_none o → IsExplained env fn ns o → b ≡ true
    go none e x = e
    go (some err) e (on_get h k) = absurd (cc (no_get h))
    go (some err) e (on_set h c err' k q) = absurd (cc (no_set h c))

-- A cached response that is fresh and has available replicas is served at once: the function is
-- available and found, with no error, and the provider is not asked.
pub scale_cached :
    (env : Environment) (C : FunctionCacher) (group : Group (State C)) (config : ScalingConfig)
    (fn ns : Bytes) (s : State C) (r : ServiceQueryResponse)
    → C.cache_get (env.time (clock_read ∷ s.history)) fn ns s.cache ≡ (r, true)
    → 0 < r.available_replicas
    → scale env C group config fn ns s ≡ (
      done (record {
        available = true;
        error = none;
        found = true;
        duration = env.time (clock_read ∷ clock_read ∷ s.history) -ℤ env.time s.history;
      }),
      record s { history = clock_read ∷ clock_read ∷ clock_read ∷ s.history },
    )
unfolding scale now read_cache serve finish
scale_cached env C group config fn ns s r h p =
    let positive : ltb 0 r.available_replicas ≡ true = ground arith in rw h (rw positive)
