-- ===== src/Scaling/Scaler/Bounded.antt =====
-- How large the counts are that a call of `Scale` asks for.
use faas_drl.Base.{
  ℕ, zero, suc, ◌≤◌, inl, inr, Bool, true, false, ◌&&◌, Option, none, some, [], ◌∷◌, arith, ltb,
  ◌==◌,
}
use faas_drl.Base.Int.{ℤ, to_int}
use faas_drl.Base.Bytes.{Bytes}
use faas_drl.Effect.{Error, M, continue}
use faas_drl.Effect.Laws.{Keeps-continue, Yields, Yields-continue, Keeps-if}
use faas_drl.Types.Retry.{retry}
use faas_drl.Types.Retry.Bounds.{retry_bound}
use faas_drl.Scaling.Response.{
  ServiceQueryResponse, ScalingConfig, Environment, History, clock_read, replicas_asked,
  replicas_set, slept,
}
use faas_drl.Scaling.Cacher.{FunctionCacher, FlightResult, Group}
use faas_drl.Scaling.Scaler.{
  FunctionScaleResult, State, now, sleep, get_replicas, set_replicas, read_cache, write_cache,
  finish, assert_response, query, request, scale_if_zero, scale_round, poll, hold, scale_up,
  scale_live, scale, after_query, judge, serve, after_retry, set_desired, get_key, set_key,
  wanted_replicas,
}

-- No count in the history is above a limit.
abbrev pub SetsAtMost : ℕ → History → Type 0
SetsAtMost limit [] = Unit
SetsAtMost limit (clock_read ∷ h) = SetsAtMost limit h
SetsAtMost limit (replicas_asked _ _ ∷ h) = SetsAtMost limit h
SetsAtMost limit (replicas_set _ _ count ∷ h) = (count ≤ limit) × SetsAtMost limit h
SetsAtMost limit (slept _ ∷ h) = SetsAtMost limit h

-- The provider never answers with a larger minimum.
abbrev pub MinimumsAtMost : ℕ → Environment → Type 0
MinimumsAtMost limit env =
    (h : History) (fn ns : Bytes) → (env.get_replicas h fn ns).0.min_replicas ≤ limit

abbrev SmallMinimum : ℕ → FlightResult → Type 0
SmallMinimum limit (none, err) = Unit
SmallMinimum limit (some r, err) = r.min_replicas ≤ limit

wanted_replicas-le :
    (limit : ℕ) (r : ServiceQueryResponse)
    → 1 ≤ limit
    → r.min_replicas ≤ limit
    → wanted_replicas r ≤ limit
wanted_replicas-le limit r one h = ground (arith, one, h)

module _ (limit : ℕ) (env : Environment) (C : FunctionCacher) (group : Group (State C))
    (config : ScalingConfig) (fn ns : Bytes) (one : 1 ≤ limit)
    (minimums : MinimumsAtMost limit env) where
  abbrev Keeps : {A : Type 0} → M (State C) A → Type 0
  Keeps m = (s : State C) → SetsAtMost limit s.history → SetsAtMost limit (m s).1.history

  abbrev IsKept : State C → Type 0
  IsKept s = SetsAtMost limit s.history

  finish-Keeps :
      (start : ℤ) (error : Option Error) (available found : Bool)
      → Keeps (finish env C start error available found)
  unfolding finish
  finish-Keeps start error available found s i = i

  write-Keeps : (r : ServiceQueryResponse) → Keeps (write_cache env C fn ns r)
  unfolding write_cache
  write-Keeps r s i = i

  query-Yields :
      (s : State C)
      → IsKept s
      → Yields IsKept (SmallMinimum limit) (query env C group config fn ns s)
  unfolding query get_replicas
  query-Yields s i = elim (group.runs_or_joins (get_key fn ns) (get_replicas env C fn ns) s) [
    | inl e ↦ rw e (minimums s.history fn ns, i)
    | inr (t, e) ↦ rw e (minimums t.history fn ns, i)
  ]

  request-Keeps : (count : ℕ) → count ≤ limit → Keeps (request env C group config fn ns count)
  unfolding request set_replicas
  request-Keeps count le s i =
      elim (group.runs_or_joins (set_key fn ns) (set_replicas env C fn ns count) s) [
        | inl e ↦ rw e (le, i)
        | inr (t, e) ↦ rw e i
      ]

  scale_if_zero-Keeps :
      (count : ℕ) (r : ServiceQueryResponse)
      → count ≤ limit
      → Keeps (scale_if_zero env C group config fn ns count r)
  unfolding scale_if_zero
  scale_if_zero-Keeps count r le s i =
      Keeps-continue IsKept (write_cache env C fn ns r s) _ (write-Keeps r s i) (λ _ t j.
        Keeps-if IsKept (ltb 0 r.replicas) _ _ t j (
          Keeps-continue IsKept (request env C group config fn ns count t) _
            (request-Keeps count le t j) (λ _ _ k. k)))

  after_query-Keeps :
      (count : ℕ) (got : FlightResult)
      → count ≤ limit
      → Keeps (after_query env C group config fn ns count got)
  unfolding after_query assert_response
  after_query-Keeps count (o, some err) le s i = i
  after_query-Keeps count (none, none) le s i = i
  after_query-Keeps count (some r, none) le s i = scale_if_zero-Keeps count r le s i

  scale_round-Keeps :
      (count k : ℕ) → count ≤ limit → Keeps (scale_round env C group config fn ns count k)
  unfolding scale_round
  scale_round-Keeps count k le s i =
      Yields-continue IsKept (SmallMinimum limit) (query env C group config fn ns s) _
        (query-Yields s i) (λ got t _ j. after_query-Keeps count got le t j)

  judge-Keeps :
      (start : ℤ) (again : M (State C) FunctionScaleResult) (err : Option Error)
      (o : Option ServiceQueryResponse)
      → Keeps again
      → (s : State C) → IsKept s
      → IsKept
          (continue (assert_response env C o s) (judge env C group config fn ns start again err)).1
  unfolding judge now assert_response
  judge-Keeps start again err none h s i = i
  judge-Keeps start again (some err) (some r) h s i = finish-Keeps start (some err) false true s i
  judge-Keeps start again none (some r) h s i =
      Keeps-continue IsKept (write_cache env C fn ns r s) _ (write-Keeps r s i) (λ _ t j.
        Keeps-if IsKept (ltb 0 r.available_replicas) _ _ t (finish-Keeps start none true true t j)
          (h _ j))

  poll-Keeps : (start : ℤ) (rounds : ℕ) → Keeps (poll env C group config fn ns start rounds)
  unfolding poll sleep
  poll-Keeps start zero s i = finish-Keeps start none true true s i
  poll-Keeps start (suc rounds) s i =
      Yields-continue IsKept (SmallMinimum limit) (query env C group config fn ns s) _
        (query-Yields s i)
        (λ got t _ j.
          judge-Keeps start _ got.1 got.0
            (λ u k.
              poll-Keeps start rounds
                (record u { history = slept config.function_poll_interval ∷ u.history }) k)
            t j)

  hold-Keeps : (start : ℤ) → Keeps (hold env C group config fn ns start)
  unfolding hold
  hold-Keeps start = poll-Keeps start _

  after_retry-Keeps :
      (start : ℤ) (o : Option Error) → Keeps (after_retry env C group config fn ns start o)
  unfolding after_retry
  after_retry-Keeps start (some err) s i = finish-Keeps start (some err) false true s i
  after_retry-Keeps start none s i = hold-Keeps start s i

  set_desired-Keeps :
      (start : ℤ) (r : ServiceQueryResponse)
      → r.min_replicas ≤ limit
      → Keeps (set_desired env C group config fn ns start r)
  unfolding set_desired sleep
  set_desired-Keeps start r small s i =
      let wanted = wanted_replicas-le limit r one small in
      Keeps-continue IsKept (retry _ _ _ s) _
        (retry_bound _ _ (λ _. IsKept) (λ _ _ j. j)
          (λ _ k t j. scale_round-Keeps (wanted_replicas r) k wanted t j) (λ _ _ j. j)
          (to_int config.set_scale_retries) s i)
        (after_retry-Keeps start)

  scale_up-Keeps :
      (start : ℤ) (r : ServiceQueryResponse)
      → r.min_replicas ≤ limit
      → Keeps (scale_up env C group config fn ns start r)
  unfolding scale_up
  scale_up-Keeps start r small s i =
      Keeps-continue IsKept (write_cache env C fn ns r s) _ (write-Keeps r s i) (λ _ t j.
        Keeps-if IsKept (r.replicas == 0) _ _ t (set_desired-Keeps start r small t j)
          (hold-Keeps start t j))

  scale_live-Keeps :
      (start : ℤ) (got : FlightResult)
      → SmallMinimum limit got
      → Keeps (scale_live env C group config fn ns start got)
  unfolding scale_live
  scale_live-Keeps start (o, some err) small s i = finish-Keeps start (some err) false false s i
  scale_live-Keeps start (none, none) small s i = finish-Keeps start _ false false s i
  scale_live-Keeps start (some r, none) small s i =
      Keeps-if IsKept (ltb 0 r.available_replicas) _ _ s (finish-Keeps start none true true s i)
        (scale_up-Keeps start r small s i)

  serve-Keeps :
      (start : ℤ) (cached : ServiceQueryResponse × Bool)
      → Keeps (serve env C group config fn ns start cached)
  unfolding serve
  serve-Keeps start (cached, hit) s i =
      Keeps-if IsKept (hit && ltb 0 cached.available_replicas) _ _ s
        (finish-Keeps start none true true s i)
        (Yields-continue IsKept (SmallMinimum limit) (query env C group config fn ns s) _
          (query-Yields s i) (λ got t small j. scale_live-Keeps start got small t j))

  -- If the provider answers with no larger minimum, no call of `Scale` sets a larger count.
  pub scale-SetsAtMost : Keeps (scale env C group config fn ns)
  unfolding scale now read_cache
  scale-SetsAtMost s i = serve-Keeps _ _ _ i
