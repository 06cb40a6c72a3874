-- ===== src/Scaling/FunctionQuery/Laws.antt =====
-- What the cached query gives, and how often it asks the provider.
use faas_drl.Base.{
  ℕ, ◌+◌, ◌≤◌, ◌≡◌, refl, Bool, true, false, none, some, ◌∷◌, arith, if◌then◌else◌, inl, inr,
}
use faas_drl.Base.Int.{◌+ℤ◌, leb_ℤ}
use faas_drl.Base.Bytes.{Bytes}
use faas_drl.Effect.{done}
use faas_drl.Effect.Laws.{Costs, Costs-continue}
use faas_drl.Scaling.Response.{
  ServiceQueryResponse, empty_response, Environment, clock_read, replicas_asked,
}
use faas_drl.Scaling.Cache.Laws.{get-set_same}
use faas_drl.Scaling.Cacher.{FunctionCacher, FlightResult, Group, function_cacher}
use faas_drl.Scaling.Scaler.{State, get_key, get_replicas, read_cache, write_cache, now}
use faas_drl.Scaling.Scaler.Costs.{Weights, weight}
use faas_drl.Scaling.Scaler.Calls.{asks, requests}
use faas_drl.Scaling.FunctionQuery.{cache_error, reread, after_miss, miss, after_read, get}

-- A hit in the cache is served without a call of the provider.
pub get_hit :
    (env : Environment) (C : FunctionCacher) (group : Group (State C)) (fn ns : Bytes) (s : State C)
    (r : ServiceQueryResponse)
    → C.cache_get (env.time s.history) fn ns s.cache ≡ (r, true)
    → get env C group fn ns s ≡ (done (r, none), record s { history = clock_read ∷ s.history })
unfolding get read_cache now after_read
get_hit env C group fn ns s r h = rw h refl

-- With the cache of the gateway, behind a miss and an answer of the provider without an error, the
-- answer is served exactly if it has not expired in the cache between its write and the second
-- read; otherwise the query fails, though the provider has answered.
pub get_miss :
    (env : Environment) (group : Group (State function_cacher)) (fn ns : Bytes)
    (s : State function_cacher) (r q : ServiceQueryResponse)
    → function_cacher.cache_get (env.time s.history) fn ns s.cache ≡ (q, false)
    → env.get_replicas (clock_read ∷ s.history) fn ns ≡ (r, none)
    → ((s : State function_cacher)
        → group.do_call (get_key fn ns) (get_replicas env function_cacher fn ns) s
          ≡ get_replicas env function_cacher fn ns s)
    → let asked = replicas_asked fn ns ∷ clock_read ∷ s.history in
      (get env function_cacher group fn ns s).0
      ≡ done (
          if leb_ℤ (env.time (clock_read ∷ asked)) (env.time asked +ℤ s.cache.expiry)
          then (r, none)
          else (empty_response, some (cache_error fn ns)))
unfolding get read_cache now after_read miss after_miss reread get_replicas write_cache
get_miss env group fn ns s r q h a g =
    rw (h, g, a)
      (rw
        (get-set_same (env.time (replicas_asked fn ns ∷ clock_read ∷ s.history))
          (env.time (clock_read ∷ replicas_asked fn ns ∷ clock_read ∷ s.history)) fn ns r s.cache)
        refl)

module _ (w : Weights) (env : Environment) (C : FunctionCacher) (group : Group (State C))
    (fn ns : Bytes) (a : ℕ) (get_le : w.on_get fn ns ≤ a) where
  abbrev μ : State C → ℕ
  μ s = weight w s.history

  reread-Costs : Costs μ 0 (reread env C group fn ns)
  unfolding reread read_cache now
  reread-Costs s = omega arith

  after_miss-Costs : (got : FlightResult) → Costs μ 0 (after_miss env C group fn ns got)
  unfolding after_miss write_cache now
  after_miss-Costs (res, some err) s = omega arith
  after_miss-Costs (none, none) s = reread-Costs s
  after_miss-Costs (some r, none) s = reread-Costs _

  asked-Costs : Costs μ a (group.do_call (get_key fn ns) (get_replicas env C fn ns))
  unfolding get_replicas
  asked-Costs s = elim (group.runs_or_joins (get_key fn ns) (get_replicas env C fn ns) s) [
    | inl e ↦ rw e (omega (arith, get_le))
    | inr (t, e) ↦ rw e (omega arith)
  ]

  after_read-Costs :
      (got : ServiceQueryResponse × Bool) → Costs μ a (after_read env C group fn ns got)
  unfolding after_read miss
  after_read-Costs (q, true) s = omega arith
  after_read-Costs (q, false) s =
      Costs-continue μ (μ s) a 0 a (group.do_call (get_key fn ns) (get_replicas env C fn ns) s)
        (after_miss env C group fn ns) (asked-Costs s) after_miss-Costs (omega arith)

  get-Costs : Costs μ a (get env C group fn ns)
  unfolding get read_cache now
  get-Costs s =
      after_read-Costs (C.cache_get (env.time s.history) fn ns s.cache)
        (record s { history = clock_read ∷ s.history })

-- The cached query asks the provider at most once and never sets a count.
pub get_calls :
    (env : Environment) (C : FunctionCacher) (group : Group (State C)) (fn ns : Bytes) (s : State C)
    → let t = (get env C group fn ns s).1 in
      (weight asks t.history ≤ weight asks s.history + 1)
      × (weight requests t.history ≤ weight requests s.history)
get_calls env C group fn ns s = (
  get-Costs asks env C group fn ns 1 (omega arith) s,
  omega (arith, get-Costs requests env C group fn ns 0 (omega arith) s),
)
