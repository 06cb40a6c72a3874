-- ===== src/Scaling/Scaler/Consistent.antt =====
-- When a result of `Scale` fits what the provider answered.
use faas_drl.Base.{ℕ, ◌≡◌, ◌||◌, true, Option, none, some, is_none, is_some}
use faas_drl.Base.Bytes.{Bytes}
use faas_drl.Effect.{Error, done, panicked}
use faas_drl.Scaling.Response.{Environment, History}
use faas_drl.Scaling.Scaler.{FunctionScaleResult, set_error}

-- The errors that a call about one function can meet: an answer to `GetReplicas`, or one to
-- `SetReplicas` in the words of the scaler.
pub data IsProviderError (env : Environment) (fn ns : Bytes) (e : Error) : Type 0 where
  on_get : (h : History) → (env.get_replicas h fn ns).1 ≡ some e → IsProviderError env fn ns e
  on_set :
      (h : History) (count : ℕ) (err : Error)
      → env.set_replicas h fn ns count ≡ done (some err)
      → e ≡ set_error fn err
      → IsProviderError env fn ns e

abbrev pub IsExplained : Environment → Bytes → Bytes → Option Error → Type 0
IsExplained env fn ns none = Unit
IsExplained env fn ns (some e) = IsProviderError env fn ns e

-- A function is reported as available exactly if there is no error, one that is not found comes
-- with an error, and an error is one that the provider gave.
pub record IsConsistent (env : Environment) (fn ns : Bytes) (r : FunctionScaleResult) : Type 0 where
  pub available_iff : r.available ≡ is_none r.error
  pub found_or_error : (r.found || is_some r.error) ≡ true
  pub explained : IsExplained env fn ns r.error

-- The provider panics in a `SetReplicas` for the function.
abbrev pub SetPanics : Environment → Bytes → Bytes → Type 0
SetPanics env fn ns = (h : History) × (count : ℕ) × (env.set_replicas h fn ns count ≡ panicked)
