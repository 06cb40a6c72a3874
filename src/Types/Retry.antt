-- ===== src/Types/Retry.antt =====
-- gateway/types/retry.go: a routine is tried until it gives no error.
pub mod Outcome
pub mod Bounds
use faas_drl.Base.{ℕ, zero, suc, Option, none, some}
use faas_drl.Base.Int.{ℤ, pos_part}
use faas_drl.Effect.{Error, M, pure, ◌>>=◌, ◌>>◌, continue}

module _ {S : Type 0} (r : ℕ → M S (Option Error)) (sleep : M S (Unit {0})) where
  -- The rounds from `i` on, with the error so far.
  retry_from : (rounds i : ℕ) → Option Error → M S (Option Error)
  retry_from zero i err = pure err
  retry_from (suc rounds) i err = do
    res ← r i
    elim res [ none ↦ pure none | some e ↦ sleep >> retry_from rounds (suc i) (some e) ]

  -- `for i := 0; i < attempts; i++` makes no round if `attempts` is negative.
  unfoldable pub retry : ℤ → M S (Option Error)
  unfolding retry_from
  retry attempts = retry_from (pos_part attempts) 0 none
