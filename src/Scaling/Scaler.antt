-- ===== src/Scaling/Scaler.antt =====
-- gateway/scaling/function_scaler.go: a function with no replicas is scaled up and waited for.
-- One call of `Scale`, whose state is the history and the cache. Lines that only log are left out.
pub mod Consistent
pub mod Result
pub mod Available
pub mod Costs
pub mod Calls
pub mod Bounded
mod Tests
use faas_drl.Base.{
  ℕ, zero, suc, ◌≡◌, Bool, true, false, ◌&&◌, Option, none, some, List, ◌∷◌, ◌++◌, ltb, ◌==◌,
  if◌then◌else◌,
}
use mathlib.Core.Option
use faas_drl.Base.Int.{ℤ, pos, pos_part, to_int, ◌-ℤ◌}
use faas_drl.Base.Bytes.{Bytes, codes}
use faas_drl.Effect.{Error, M, done, pure, panic, continue, ◌>>=◌, ◌>>◌, map_exit}
use faas_drl.Types.Retry.{retry}
use faas_drl.Scaling.Response.{
  ServiceQueryResponse, ScalingConfig, Environment, Event, clock_read, replicas_asked, replicas_set,
  slept, History,
}
use faas_drl.Scaling.Cacher.{FunctionCacher, FlightResult, Group}

pub record FunctionScaleResult : Type 0 where
  pub available : Bool
  pub error : Option Error
  pub found : Bool
  pub duration : ℤ

pub record State (C : FunctionCacher) : Type 0 where
  pub history : History
  pub cache : C.Cache

-- `fmt.Sprintf("GetReplicas-%s.%s", …)` and its like for SetReplicas.
abbrev pub get_key : Bytes → Bytes → Bytes
get_key fn ns = codes "GetReplicas-" ++ (fn ++ b'.' ∷ ns)

abbrev pub set_key : Bytes → Bytes → Bytes
set_key fn ns = codes "SetReplicas-" ++ (fn ++ b'.' ∷ ns)

abbrev pub set_error : Bytes → Error → Error
set_error fn err = codes "unable to scale function [" ++ (fn ++ (codes "], err: " ++ err))

-- `MinReplicas`, or 1 if that is 0.
abbrev pub wanted_replicas : ServiceQueryResponse → ℕ
wanted_replicas r = if ltb 0 r.min_replicas then r.min_replicas else 1

module _ (env : Environment) (C : FunctionCacher) where
  open C use {cache_set, cache_get}

  -- `time.Now()`
  unfoldable pub now : M (State C) ℤ
  now s = (done (env.time s.history), record s { history = clock_read ∷ s.history })

  -- `time.Sleep(interval)`
  unfoldable pub sleep : ℤ → M (State C) (Unit {0})
  sleep interval s = (done tt, record s { history = slept interval ∷ s.history })

  -- `ServiceQuery.GetReplicas`: its two results, the first boxed in an interface.
  unfoldable pub get_replicas : Bytes → Bytes → M (State C) FlightResult
  get_replicas fn ns s =
      let answer = env.get_replicas s.history fn ns in
      (done (some answer.0, answer.1), record s { history = replicas_asked fn ns ∷ s.history })

  -- `ServiceQuery.SetReplicas` in the closure of the retry loop: the value is nil. Its panic goes
  -- through the closure.
  unfoldable pub set_replicas : Bytes → Bytes → ℕ → M (State C) FlightResult
  set_replicas fn ns count s =
      let answer = env.set_replicas s.history fn ns count in
      (
        map_exit (λ err. (none, Option.map (set_error fn) err)) answer,
        record s { history = replicas_set fn ns count ∷ s.history },
      )

  -- `Cache.Get` and `Cache.Set` read the clock.
  unfoldable pub read_cache : Bytes → Bytes → M (State C) (ServiceQueryResponse × Bool)
  unfolding now
  read_cache fn ns = do t ← now; λ s. (done (cache_get t fn ns s.cache), s)

  unfoldable pub write_cache : Bytes → Bytes → ServiceQueryResponse → M (State C) (Unit {0})
  unfolding now
  write_cache fn ns r = do t ← now; λ s. (done tt, record s { cache = cache_set t fn ns r s.cache })

  -- A result, stamped with `time.Since(start)`.
  unfoldable pub finish : ℤ → Option Error → Bool → Bool → M (State C) FunctionScaleResult
  unfolding now
  finish start error available found = do
    t ← now
    pure (record { available = available; error = error; found = found; duration = t -ℤ start })

  -- `res.(ServiceQueryResponse)`: a nil interface panics.
  unfoldable pub assert_response : Option ServiceQueryResponse → M (State C) ServiceQueryResponse
  assert_response none = panic
  assert_response (some r) = pure r

  module _ (group : Group (State C)) (config : ScalingConfig) (fn ns : Bytes) where
    unfoldable pub query : M (State C) FlightResult
    query = group.do_call (get_key fn ns) (get_replicas fn ns)

    unfoldable pub request : ℕ → M (State C) FlightResult
    request count = group.do_call (set_key fn ns) (set_replicas fn ns count)

    -- The routine of the retry loop, behind a query without an error.
    unfoldable pub scale_if_zero : ℕ → ServiceQueryResponse → M (State C) (Option Error)
    scale_if_zero min_replicas r = do
      write_cache fn ns r
      let wanted = request min_replicas >>= λ set. pure set.1
      if ltb 0 r.replicas then pure none else wanted

    unfoldable pub after_query : ℕ → FlightResult → M (State C) (Option Error)
    unfolding scale_if_zero
    after_query min_replicas (res, some err) = pure (some err)
    after_query min_replicas (res, none) = assert_response res >>= scale_if_zero min_replicas

    unfoldable pub scale_round : ℕ → ℕ → M (State C) (Option Error)
    unfolding after_query
    scale_round min_replicas attempt = query >>= after_query min_replicas

    -- One round of the holding pattern, behind its query; `again` is the rest of the loop. Each
    -- round reads the clock for its `totalTime`.
    unfoldable pub judge :
        ℤ
        → M (State C) FunctionScaleResult
        → Option Error
        → ServiceQueryResponse
        → M (State C) FunctionScaleResult
    judge start again (some err) r = finish start (some err) false true
    judge start again none r =
        let ready = finish start none true true in
        write_cache fn ns r >> (if ltb 0 r.available_replicas then ready else (now >> again))

    -- The holding pattern, with the rounds that are left.
    unfoldable pub poll : ℤ → ℕ → M (State C) FunctionScaleResult
    poll start zero = finish start none true true
    poll start (suc rounds) =
        let again = sleep config.function_poll_interval >> poll start rounds in
        query >>= λ got. assert_response got.0 >>= judge start again got.1

    unfoldable pub hold : ℤ → M (State C) FunctionScaleResult
    hold start = poll start (pos_part (to_int config.max_poll_count))

    -- Behind the retry loop.
    unfoldable pub after_retry : ℤ → Option Error → M (State C) FunctionScaleResult
    after_retry start (some err) = finish start (some err) false true
    after_retry start none = hold start

    unfoldable pub set_desired : ℤ → ServiceQueryResponse → M (State C) FunctionScaleResult
    set_desired start r =
        retry (scale_round (wanted_replicas r)) (sleep config.function_poll_interval)
          (to_int config.set_scale_retries)
        >>= after_retry start

    -- Behind the first live query: there are no available replicas.
    unfoldable pub scale_up : ℤ → ServiceQueryResponse → M (State C) FunctionScaleResult
    scale_up start r =
        write_cache fn ns r >> (if r.replicas == 0 then set_desired start r else hold start)

    unfoldable pub scale_live : ℤ → FlightResult → M (State C) FunctionScaleResult
    scale_live start (res, some err) = finish start (some err) false false
    scale_live start (none, none) =
        finish start (some (codes "empty response from server")) false false
    scale_live start (some r, none) =
        if ltb 0 r.available_replicas then finish start none true true else scale_up start r

    -- Behind the read of the cache.
    unfoldable pub serve : ℤ → ServiceQueryResponse × Bool → M (State C) FunctionScaleResult
    serve start (cached, hit) =
        if hit && ltb 0 cached.available_replicas
        then finish start none true true
        else (query >>= scale_live start)

    unfoldable pub scale : M (State C) FunctionScaleResult
    scale = now >>= λ start. read_cache fn ns >>= serve start
