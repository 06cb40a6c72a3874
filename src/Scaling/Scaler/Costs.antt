-- ===== src/Scaling/Scaler/Costs.antt =====
-- What a call of `Scale` adds to the weight of the history.
use faas_drl.Base.{
  ℕ, zero, suc, ◌+◌, ◌*◌, ◌≤◌, inl, inr, Bool, true, false, ◌&&◌, Option, none, some, [], ◌∷◌,
  arith, ltb, ◌==◌,
}
use faas_drl.Base.Int.{ℤ, pos_part, to_int}
use faas_drl.Base.Bytes.{Bytes}
use faas_drl.Effect.{Error, M}
use faas_drl.Effect.Laws.{Costs, Costs-continue, Costs-if}
use faas_drl.Types.Retry.{retry}
use faas_drl.Types.Retry.Bounds.{retry-Costs}
use faas_drl.Scaling.Response.{
  ServiceQueryResponse, ScalingConfig, Environment, History, clock_read, replicas_asked,
  replicas_set, slept,
}
use faas_drl.Scaling.Cacher.{FunctionCacher, FlightResult, Group}
use faas_drl.Scaling.Scaler.{
  FunctionScaleResult, State, now, sleep, get_replicas, set_replicas, read_cache, write_cache,
  finish, assert_response, query, request, scale_if_zero, scale_round, poll, hold, scale_up,
  scale_live, scale, after_query, judge, serve, after_retry, set_desired, get_key, set_key,
  wanted_replicas,
}

-- The weight of a history, where clock readings and sleeps weigh nothing.
pub record Weights : Type 0 where
  pub on_get : Bytes → Bytes → ℕ
  pub on_set : Bytes → Bytes → ℕ → ℕ

abbrev pub weight : Weights → History → ℕ
weight w [] = 0
weight w (clock_read ∷ h) = weight w h
weight w (replicas_asked fn ns ∷ h) = w.on_get fn ns + weight w h
weight w (replicas_set fn ns count ∷ h) = w.on_set fn ns count + weight w h
weight w (slept interval ∷ h) = weight w h

module _ (w : Weights) (env : Environment) (C : FunctionCacher) (group : Group (State C))
    (config : ScalingConfig) (fn ns : Bytes) (a b : ℕ) (get_le : w.on_get fn ns ≤ a)
    (set_le : (count : ℕ) → 1 ≤ count → w.on_set fn ns count ≤ b) where
  abbrev pub μ : State C → ℕ
  μ s = weight w s.history

  abbrev pub retries : ℕ
  retries = pos_part (to_int config.set_scale_retries)

  abbrev pub polls : ℕ
  polls = pos_part (to_int config.max_poll_count)

  finish-Costs :
      (start : ℤ) (error : Option Error) (available found : Bool)
      → Costs μ 0 (finish env C start error available found)
  unfolding finish
  finish-Costs start error available found s = omega arith

  write-Costs : (r : ServiceQueryResponse) → Costs μ 0 (write_cache env C fn ns r)
  unfolding write_cache
  write-Costs r s = omega arith

  assert-Costs : (o : Option ServiceQueryResponse) → Costs μ 0 (assert_response env C o)
  unfolding assert_response
  assert-Costs none s = omega arith
  assert-Costs (some r) s = omega arith

  query-Costs : Costs μ a (query env C group config fn ns)
  unfolding query get_replicas
  query-Costs s = elim (group.runs_or_joins (get_key fn ns) (get_replicas env C fn ns) s) [
    | inl e ↦ rw e (omega (arith, get_le))
    | inr (t, e) ↦ rw e (omega arith)
  ]

  request-Costs : (count : ℕ) → 1 ≤ count → Costs μ b (request env C group config fn ns count)
  unfolding request set_replicas
  request-Costs count p s =
      elim (group.runs_or_joins (set_key fn ns) (set_replicas env C fn ns count) s) [
        | inl e ↦ rw e (omega (arith, set_le count p))
        | inr (t, e) ↦ rw e (omega arith)
      ]

  scale_if_zero-Costs :
      (k : ℕ) (r : ServiceQueryResponse)
      → 1 ≤ k
      → Costs μ b (scale_if_zero env C group config fn ns k r)
  unfolding scale_if_zero
  scale_if_zero-Costs k r p s =
      Costs-continue μ _ 0 b b (write_cache env C fn ns r s) _ (write-Costs r s)
        (λ _.
          Costs-if μ b (ltb 0 r.replicas) _ _ (λ _. omega arith)
            (λ t.
              Costs-continue μ _ b 0 b (request env C group config fn ns k t) _
                (request-Costs k p t) (λ _ _. omega arith) (omega arith)))
        (omega arith)

  after_query-Costs :
      (k : ℕ) (got : FlightResult) → 1 ≤ k → Costs μ b (after_query env C group config fn ns k got)
  unfolding after_query
  after_query-Costs k (o, some err) p s = omega arith
  after_query-Costs k (o, none) p s =
      Costs-continue μ _ 0 b b (assert_response env C o s) _ (assert-Costs o s)
        (λ r. scale_if_zero-Costs k r p) (omega arith)

  scale_round-Costs : (k i : ℕ) → 1 ≤ k → Costs μ (a + b) (scale_round env C group config fn ns k i)
  unfolding scale_round
  scale_round-Costs k i p s =
      Costs-continue μ _ a b (a + b) (query env C group config fn ns s) _ (query-Costs s)
        (λ got. after_query-Costs k got p) (omega arith)

  judge-Costs :
      (start : ℤ) (k : ℕ) (again : M (State C) FunctionScaleResult) (err : Option Error)
      (r : ServiceQueryResponse)
      → Costs μ k again
      → Costs μ k (judge env C group config fn ns start again err r)
  unfolding judge now
  judge-Costs start k again (some err) r h s =
      omega (arith, finish-Costs start (some err) false true s)
  judge-Costs start k again none r h s =
      Costs-continue μ _ 0 k k (write_cache env C fn ns r s) _ (write-Costs r s)
        (λ _.
          Costs-if μ k (ltb 0 r.available_replicas) _ _
            (λ t. omega (arith, finish-Costs start none true true t))
            (λ t. omega (arith, h (record t { history = clock_read ∷ t.history }))))
        (omega arith)

  poll-Costs :
      (start : ℤ) (rounds : ℕ) → Costs μ (rounds * a) (poll env C group config fn ns start rounds)
  unfolding poll sleep
  poll-Costs start zero s = omega (arith, finish-Costs start none true true s)
  poll-Costs start (suc rounds) s =
      Costs-continue μ _ a (rounds * a) (suc rounds * a) (query env C group config fn ns s) _
        (query-Costs s)
        (λ got t.
          Costs-continue μ _ 0 (rounds * a) (rounds * a) (assert_response env C got.0 t) _
            (assert-Costs got.0 t)
            (λ r. judge-Costs start (rounds * a) _ got.1 r (λ u. omega (
              arith,
              poll-Costs start rounds
                  (record u { history = slept config.function_poll_interval ∷ u.history }),
            )))
            (omega arith))
        (omega arith)

  hold-Costs : (start : ℤ) → Costs μ (polls * a) (hold env C group config fn ns start)
  unfolding hold
  hold-Costs start = poll-Costs start polls

  after_retry-Costs :
      (start : ℤ) (o : Option Error)
      → Costs μ (polls * a) (after_retry env C group config fn ns start o)
  unfolding after_retry
  after_retry-Costs start (some err) s = omega (arith, finish-Costs start (some err) false true s)
  after_retry-Costs start none s = hold-Costs start s

  set_desired-Costs :
      (start : ℤ) (r : ServiceQueryResponse)
      → Costs μ (retries * (a + b) + polls * a) (set_desired env C group config fn ns start r)
  unfolding set_desired sleep
  set_desired-Costs start r s =
      Costs-continue μ _ (retries * (a + b)) (polls * a) _ (retry _ _ _ s) _
        (retry-Costs _ _ μ (a + b) (λ i. scale_round-Costs (wanted_replicas r) i (ground arith))
          (λ t. omega arith) (to_int config.set_scale_retries) s)
        (after_retry-Costs start) (omega arith)

  scale_up-Costs :
      (start : ℤ) (r : ServiceQueryResponse)
      → Costs μ (retries * (a + b) + polls * a) (scale_up env C group config fn ns start r)
  unfolding scale_up
  scale_up-Costs start r s =
      Costs-continue μ _ 0 (retries * (a + b) + polls * a) _ (write_cache env C fn ns r s) _
        (write-Costs r s)
        (λ _.
          Costs-if μ _ (r.replicas == 0) _ _ (set_desired-Costs start r)
            (λ t. omega (arith, hold-Costs start t)))
        (omega arith)

  scale_live-Costs :
      (start : ℤ) (got : FlightResult)
      → Costs μ (retries * (a + b) + polls * a) (scale_live env C group config fn ns start got)
  unfolding scale_live
  scale_live-Costs start (res, some err) s =
      omega (arith, finish-Costs start (some err) false false s)
  scale_live-Costs start (none, none) s = omega (arith, finish-Costs start _ false false s)
  scale_live-Costs start (some r, none) s =
      Costs-if μ _ (ltb 0 r.available_replicas) _ _
        (λ t. omega (arith, finish-Costs start none true true t)) (scale_up-Costs start r) s

  serve-Costs :
      (start : ℤ) (cached : ServiceQueryResponse × Bool)
      → Costs μ (a + (retries * (a + b) + polls * a)) (serve env C group config fn ns start cached)
  unfolding serve
  serve-Costs start (cached, hit) =
      Costs-if μ _ (hit && ltb 0 cached.available_replicas) _ _
        (λ t. omega (arith, finish-Costs start none true true t))
        (λ s.
          Costs-continue μ _ a _ _ (query env C group config fn ns s) _ (query-Costs s)
            (scale_live-Costs start) (omega arith))

  pub scale-Costs : Costs μ (a + (retries * (a + b) + polls * a)) (scale env C group config fn ns)
  unfolding scale now read_cache
  scale-Costs s = serve-Costs _ _ _
