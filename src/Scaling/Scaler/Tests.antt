-- ===== src/Scaling/Scaler/Tests.antt =====
-- Runs of the scaler, and the theorems about it at concrete inputs.
use faas_drl.Base.{ℕ, ◌+◌, ◌≤◌, ◌≡◌, refl, true, none, [], ◌∷◌}
use faas_drl.Base.Int.{pos, ◌+ℤ◌, ◌-ℤ◌, pos_part, to_int}
use faas_drl.Base.Bytes.{Bytes, codes}
use faas_drl.Base.Dict.{lookup, insert, erase}
use faas_drl.Effect.{Exit, done, panicked}
use faas_drl.Effect.Laws.{Returns, EndsIn}
use faas_drl.Types.Retry.{retry}
use faas_drl.Scaling.Response.{
  empty_response, ScalingConfig, Environment, History, Event, clock_read, replicas_asked,
  replicas_set, slept,
}
use faas_drl.Scaling.Cache.{set, get, new_function_cache}
use faas_drl.Scaling.Cacher.{function_cacher, lone_group}
use faas_drl.Scaling.Scaler.{
  FunctionScaleResult, State, now, sleep, get_replicas, set_replicas, read_cache, write_cache,
  finish, assert_response, query, request, scale_if_zero, after_query, scale_round, judge, poll,
  hold, after_retry, set_desired, scale_up, scale_live, serve, scale,
}
use faas_drl.Scaling.Scaler.Consistent.{IsConsistent, SetPanics}
use faas_drl.Scaling.Scaler.Result.{scale-EndsIn}
use faas_drl.Scaling.Scaler.Available.{scale-available}
use faas_drl.Scaling.Scaler.Costs.{weight}
use faas_drl.Scaling.Scaler.Calls.{asks, requests, improper_requests, scale_calls}

run_scale : Unit {0}
unfolding scale now sleep get_replicas set_replicas read_cache write_cache finish assert_response
    query request scale_if_zero after_query scale_round judge poll hold after_retry set_desired
    scale_up scale_live serve retry set get lookup insert erase new_function_cache ◌+ℤ◌ ◌-ℤ◌
run_scale = tt

abbrev fn : Bytes
fn = codes "figlet"

abbrev ns : Bytes
ns = codes "openfaas-fn"

abbrev settings : ScalingConfig
settings = record {
  max_poll_count = 2;
  function_poll_interval = pos 100;
  cache_expiry = pos 250;
  set_scale_retries = 3;
}

abbrev start : State function_cacher
start = record { history = []; cache = new_function_cache (pos 250) }

-- Replicas are desired once they were requested, and none is ever available.
abbrev desired : History → ℕ
desired [] = 0
desired (replicas_set f n count ∷ h) = count
desired (_ ∷ h) = desired h

abbrev never_ready : Environment
never_ready = record {
  time = λ h. pos 7;
  get_replicas = λ h f n. (record empty_response { replicas = desired h; min_replicas = 2 }, none);
  set_replicas = λ h f n count. done none;
}

abbrev last : Exit FunctionScaleResult × State function_cacher
last = scale never_ready function_cacher (lone_group _) settings fn ns start

abbrev asked : Event
asked = replicas_asked fn ns

-- One request for the two wanted replicas, then two polls; the function is reported as available,
-- though no replica ever is.
never_ready_run :
    (last.0 ≡ done (record { available = true; error = none; found = true; duration = pos 0 }))
    × (last.1.history
        ≡ clock_read
          ∷ slept (pos 100)
          ∷ clock_read
          ∷ clock_read
          ∷ asked
          ∷ slept (pos 100)
          ∷ clock_read
          ∷ clock_read
          ∷ asked
          ∷ replicas_set fn ns 2
          ∷ clock_read
          ∷ asked
          ∷ clock_read
          ∷ asked
          ∷ clock_read
          ∷ clock_read
          ∷ [])
unfolding run_scale
never_ready_run = (refl, refl)

-- A provider whose `SetReplicas` panics, and a call that needs it.
abbrev crashing : Environment
crashing = record never_ready { set_replicas = λ h f n count. panicked }

crashing_run : (scale crashing function_cacher (lone_group _) settings fn ns start).0 ≡ panicked
unfolding run_scale
crashing_run = refl

scale-EndsIn_example :
    EndsIn (λ s. SetPanics never_ready fn ns) (IsConsistent never_ready fn ns) last
scale-EndsIn_example = scale-EndsIn never_ready function_cacher (lone_group _) settings fn ns start

scale-available_example : Returns (λ r. r.available ≡ true) last
scale-available_example =
    scale-available never_ready function_cacher (lone_group _) settings fn ns (λ h. refl)
      (λ h count. refl) start

scale_calls_example :
    (weight asks last.1.history ≤ 0 + (1 + pos_part (to_int 3) + pos_part (to_int 2)))
    × (weight requests last.1.history ≤ 0 + pos_part (to_int 3))
    × (weight (improper_requests fn ns) last.1.history ≤ 0)
scale_calls_example = scale_calls never_ready function_cacher (lone_group _) settings fn ns start
