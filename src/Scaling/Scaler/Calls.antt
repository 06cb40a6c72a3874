-- ===== src/Scaling/Scaler/Calls.antt =====
-- How often a call of `Scale` turns to the provider, and with what counts.
use faas_drl.Base.{◌+◌, ◌≤◌, ◌&&◌, arith, leb, if◌then◌else◌}
use faas_drl.Base.Int.{pos_part, to_int}
use faas_drl.Base.Bytes.{Bytes, eq_bytes, eq_bytes_refl}
use faas_drl.Scaling.Response.{ScalingConfig, Environment}
use faas_drl.Scaling.Cacher.{FunctionCacher, Group}
use faas_drl.Scaling.Scaler.{State, scale}
use faas_drl.Scaling.Scaler.Costs.{Weights, weight, scale-Costs}

-- Counts of the calls in a history: of GetReplicas, of SetReplicas, and of those calls of
-- SetReplicas that name another function or ask for no replica.
abbrev pub asks : Weights
asks = record { on_get = λ f n. 1; on_set = λ f n count. 0 }

abbrev pub requests : Weights
requests = record { on_get = λ f n. 0; on_set = λ f n count. 1 }

abbrev pub improper_requests : Bytes → Bytes → Weights
improper_requests fn ns = record {
  on_get = λ f n. 0;
  on_set = λ f n count. if eq_bytes f fn && (eq_bytes n ns && leb 1 count) then 0 else 1;
}

-- A call of `Scale` asks for the replicas of its function at most once, once more in each of
-- SetScaleRetries rounds and once more in each of MaxPollCount rounds. It requests a scale-up at
-- most once in each round of the former, always for its own function and for one replica or more.
pub scale_calls :
    (env : Environment) (C : FunctionCacher) (group : Group (State C)) (config : ScalingConfig)
    (fn ns : Bytes) (s : State C)
    → let t = (scale env C group config fn ns s).1 in
      let retries = pos_part (to_int config.set_scale_retries) in
      let polls = pos_part (to_int config.max_poll_count) in
      (weight asks t.history ≤ weight asks s.history + (1 + retries + polls))
      × (weight requests t.history ≤ weight requests s.history + retries)
      × (weight (improper_requests fn ns) t.history ≤ weight (improper_requests fn ns) s.history)
scale_calls env C group config fn ns s = (
  omega (arith, scale-Costs asks env C group config fn ns 1 0 (omega arith) (λ k p. omega arith) s),
  omega (
    arith,
    scale-Costs requests env C group config fn ns 0 1 (omega arith) (λ k p. omega arith) s,
  ),
  omega (
    arith,
    scale-Costs (improper_requests fn ns) env C group config fn ns 0 0 (omega arith)
        (λ k p. ground (arith, eq_bytes_refl fn, eq_bytes_refl ns)) s,
  ),
)
