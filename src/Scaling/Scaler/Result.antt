-- ===== src/Scaling/Scaler/Result.antt =====
-- What a call of `Scale` returns.
use faas_drl.Base.{
  ℕ, zero, suc, ◌≡◌, inl, inr, refl, Bool, true, false, ◌&&◌, ◌||◌, Option, none, some, is_none,
  is_some, ltb, ◌==◌,
}
use mathlib.Core.Option
use faas_drl.Base.Int.{ℤ}
use faas_drl.Base.Bytes.{Bytes}
use faas_drl.Effect.{Error, M, Exit, done, panicked, map_exit}
use faas_drl.Effect.Laws.{EndsIn, EndsIn-continue, EndsIn-if}
use faas_drl.Types.Retry.{retry}
use faas_drl.Types.Retry.Bounds.{retry-EndsIn}
use faas_drl.Scaling.Response.{ServiceQueryResponse, ScalingConfig, Environment, History}
use faas_drl.Scaling.Scaler.Consistent.{SetPanics, IsExplained, IsConsistent, on_get, on_set}
use faas_drl.Scaling.Cacher.{FunctionCacher, FlightResult, Group}
use faas_drl.Scaling.Scaler.{
  FunctionScaleResult, State, now, sleep, get_replicas, set_replicas, read_cache, write_cache,
  finish, assert_response, query, request, scale_if_zero, scale_round, poll, hold, scale_up,
  scale_live, scale, after_query, judge, serve, after_retry, set_desired, get_key, set_key,
  set_error, wanted_replicas,
}

abbrev Any : {A : Type 0} → A → Type 0
Any a = Unit {0}

module _ (env : Environment) (C : FunctionCacher) (group : Group (State C)) (config : ScalingConfig)
    (fn ns : Bytes) where
  -- A panic is one of the provider.
  abbrev X : State C → Type 0
  X s = SetPanics env fn ns

  abbrev Explained : Option Error → Type 0
  Explained = IsExplained env fn ns

  abbrev Good : FunctionScaleResult → Type 0
  Good = IsConsistent env fn ns

  -- What a query gives: a response, and an error that the provider gave.
  abbrev IsAnswer : FlightResult → Type 0
  IsAnswer got = (is_some got.0 ≡ true) × Explained got.1

  finish-EndsIn :
      (start : ℤ) (error : Option Error) (available found : Bool) (s : State C)
      → available ≡ is_none error
      → (found || is_some error) ≡ true
      → Explained error
      → EndsIn X Good (finish env C start error available found s)
  unfolding finish
  finish-EndsIn start error available found s a f x = record {
    available_iff = a;
    found_or_error = f;
    explained = x;
  }

  get_error-Explained :
      (h : History) (o : Option Error) → (env.get_replicas h fn ns).1 ≡ o → Explained o
  get_error-Explained h none e = tt
  get_error-Explained h (some err) e = on_get h e

  -- What `SetReplicas` comes to, for any state behind it.
  set_replicas-EndsIn :
      (h : History) (count : ℕ) (m : Exit (Option Error)) (s : State C)
      → env.set_replicas h fn ns count ≡ m
      → EndsIn {A = FlightResult} X
          (λ got. Explained got.1)
          (map_exit (λ err. (none, Option.map (set_error fn) err)) m, s)
  set_replicas-EndsIn h count panicked s e = (h, count, e)
  set_replicas-EndsIn h count (done none) s e = tt
  set_replicas-EndsIn h count (done (some err)) s e = on_set h count err e refl

  query-EndsIn : (s : State C) → EndsIn X IsAnswer (query env C group config fn ns s)
  unfolding query get_replicas
  query-EndsIn s = elim (group.runs_or_joins (get_key fn ns) (get_replicas env C fn ns) s) [
    | inl e ↦ rw e (refl, get_error-Explained s.history _ refl)
    | inr (t, e) ↦ rw e (refl, get_error-Explained t.history _ refl)
  ]

  request-EndsIn :
      (count : ℕ) (s : State C)
      → EndsIn X (λ got. Explained got.1) (request env C group config fn ns count s)
  unfolding request set_replicas
  request-EndsIn count s =
      elim (group.runs_or_joins (set_key fn ns) (set_replicas env C fn ns count) s) [
        | inl e ↦ rw e (set_replicas-EndsIn s.history count _ _ refl)
        | inr (t, e) ↦ rw e (set_replicas-EndsIn t.history count _ s refl)
      ]

  assert-EndsIn :
      (o : Option ServiceQueryResponse) (s : State C)
      → is_some o ≡ true
      → EndsIn X Any (assert_response env C o s)
  unfolding assert_response
  assert-EndsIn none s h = absurd (cc h)
  assert-EndsIn (some r) s h = tt

  scale_if_zero-EndsIn :
      (k : ℕ) (r : ServiceQueryResponse) (s : State C)
      → EndsIn X Explained (scale_if_zero env C group config fn ns k r s)
  unfolding scale_if_zero write_cache
  scale_if_zero-EndsIn k r s = EndsIn-if X Explained (ltb 0 r.replicas) _ _ _ tt (
      EndsIn-continue X (λ got. Explained got.1) Explained (request env C group config fn ns k _) _
        (request-EndsIn k _) (λ _ _ x. x))

  after_query-EndsIn :
      (k : ℕ) (got : FlightResult) (s : State C)
      → IsAnswer got
      → EndsIn X Explained (after_query env C group config fn ns k got s)
  unfolding after_query
  after_query-EndsIn k (o, some err) s h = h.1
  after_query-EndsIn k (o, none) s h =
      EndsIn-continue X Any Explained (assert_response env C o s) _ (assert-EndsIn o s h.0)
        (λ r t _. scale_if_zero-EndsIn k r t)

  scale_round-EndsIn :
      (k i : ℕ) (s : State C) → EndsIn X Explained (scale_round env C group config fn ns k i s)
  unfolding scale_round
  scale_round-EndsIn k i s =
      EndsIn-continue X IsAnswer Explained (query env C group config fn ns s) _ (query-EndsIn s)
        (λ got t h. after_query-EndsIn k got t h)

  judge-EndsIn :
      (start : ℤ) (again : M (State C) FunctionScaleResult) (err : Option Error)
      (r : ServiceQueryResponse) (s : State C)
      → Explained err
      → ((t : State C) → EndsIn X Good (again t))
      → EndsIn X Good (judge env C group config fn ns start again err r s)
  unfolding judge write_cache now
  judge-EndsIn start again (some err) r s x h =
      finish-EndsIn start (some err) false true s refl refl x
  judge-EndsIn start again none r s x h =
      EndsIn-if X Good (ltb 0 r.available_replicas) _ _ _
        (finish-EndsIn start none true true _ refl refl tt) (h _)

  poll-EndsIn :
      (start : ℤ) (rounds : ℕ) (s : State C)
      → EndsIn X Good (poll env C group config fn ns start rounds s)
  unfolding poll sleep
  poll-EndsIn start zero s = finish-EndsIn start none true true s refl refl tt
  poll-EndsIn start (suc rounds) s =
      EndsIn-continue X IsAnswer Good (query env C group config fn ns s) _ (query-EndsIn s)
        (λ got t h.
          EndsIn-continue X Any Good (assert_response env C got.0 t) _ (assert-EndsIn got.0 t h.0)
            (λ r u _. judge-EndsIn start _ got.1 r u h.1 (λ v. poll-EndsIn start rounds _)))

  hold-EndsIn : (start : ℤ) (s : State C) → EndsIn X Good (hold env C group config fn ns start s)
  unfolding hold
  hold-EndsIn start s = poll-EndsIn start _ s

  after_retry-EndsIn :
      (start : ℤ) (o : Option Error) (s : State C)
      → Explained o
      → EndsIn X Good (after_retry env C group config fn ns start o s)
  unfolding after_retry
  after_retry-EndsIn start (some err) s x = finish-EndsIn start (some err) false true s refl refl x
  after_retry-EndsIn start none s x = hold-EndsIn start s

  set_desired-EndsIn :
      (start : ℤ) (r : ServiceQueryResponse) (s : State C)
      → EndsIn X Good (set_desired env C group config fn ns start r s)
  unfolding set_desired sleep
  set_desired-EndsIn start r s =
      EndsIn-continue X Explained Good (retry _ _ _ s) _
        (retry-EndsIn _ _ X Explained (scale_round-EndsIn (wanted_replicas r)) (λ _. tt) tt _ s)
        (λ o t x. after_retry-EndsIn start o t x)

  scale_live-EndsIn :
      (start : ℤ) (got : FlightResult) (s : State C)
      → IsAnswer got
      → EndsIn X Good (scale_live env C group config fn ns start got s)
  unfolding scale_live scale_up write_cache
  scale_live-EndsIn start (res, some err) s h = finish-EndsIn start _ false false s refl refl h.1
  scale_live-EndsIn start (none, none) s h = cc
  scale_live-EndsIn start (some r, none) s h =
      EndsIn-if X Good (ltb 0 r.available_replicas) _ _ s
        (finish-EndsIn start none true true s refl refl tt)
        (EndsIn-if X Good (r.replicas == 0) _ _ _ (set_desired-EndsIn start r _)
          (hold-EndsIn start _))

  serve-EndsIn :
      (start : ℤ) (cached : ServiceQueryResponse × Bool) (s : State C)
      → EndsIn X Good (serve env C group config fn ns start cached s)
  unfolding serve
  serve-EndsIn start (cached, hit) s =
      EndsIn-if X Good (hit && ltb 0 cached.available_replicas) _ _ s
        (finish-EndsIn start none true true s refl refl tt)
        (EndsIn-continue X IsAnswer Good (query env C group config fn ns s) _ (query-EndsIn s)
          (λ got t h. scale_live-EndsIn start got t h))

  -- `Scale` ends. It panics only if the provider panics in a `SetReplicas` for this function.
  -- Otherwise it returns: it reports a function as available exactly if it reports no error, a
  -- function that it has not found with an error, and only errors that the provider gave.
  pub scale-EndsIn :
      (s : State C) → EndsIn X (IsConsistent env fn ns) (scale env C group config fn ns s)
  unfolding scale now read_cache
  scale-EndsIn s = serve-EndsIn _ _ _
