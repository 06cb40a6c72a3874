-- ===== src/Handlers/Alert/Replicas.antt =====
-- What `CalculateReplicas` decides.
use native.Mathlib.Nat.{one-le-mul, mul-le-mul, mul-le-mul_left}
use faas_drl.Base.{
  ℕ, zero, suc, inl, inr, Bool-cases, ◌+◌, ◌*◌, ◌/◌, ◌^◌, ◌≤◌, ◌<◌, ◌≡◌, refl, ◌∙◌, ◌⊎◌, Bool, true,
  false, ◌&&◌, arith, ◌==◌, min, ==_iff,
}
use faas_drl.Base.Bytes.{Bytes, codes}
use faas_drl.Float64.{of_uint64, divide, multiply, ceiling, round, nearest, scale_up, scale_down}
use faas_drl.Float64.Laws.{
  of_uint64-IsExact, truncate-IsExact, truncate-minimum-le, minimum-IsExact,
}
use faas_drl.Handlers.Alert.{is_firing, clamp_max, scaling_step, calculate_replicas}

clamp_max-le : (max : ℕ) → clamp_max max ≤ 5
unfolding clamp_max
clamp_max-le max = truncate-minimum-le _ _ 5 (of_uint64-IsExact 5 (omega arith))

clamp_max_lem : (max : ℕ) → max < 2 ^ 53 → clamp_max max ≡ min max 5
unfolding clamp_max
clamp_max_lem max h = ground (
  arith,
  truncate-IsExact _ _
      (minimum-IsExact max 5 _ _ (of_uint64-IsExact max h) (of_uint64-IsExact 5 (omega arith))),
)

-- The test passes from 0 up to and with the bound.
passes : (ℕ → Bool) → ℕ → Bool
passes test zero = test 0
passes test (suc bound) = test (suc bound) && passes test bound

passes_at :
    (test : ℕ → Bool) (bound : ℕ) → passes test bound ≡ true → (k : ℕ) → k ≤ bound → test k ≡ true
unfolding passes
passes_at test zero ok k le = let e : k ≡ 0 = omega arith in rw e ok
passes_at test (suc bound) ok k le = elim (Bool-cases (k == suc bound)) [
  | inl e ↦ let same : k ≡ suc bound = (==_iff _ _).0 e in rw same (ground (arith, ok))
  | inr e ↦ passes_at test bound (ground (arith, ok)) k (ground (arith, e))
]

abbrev exact_step : ℕ → ℕ → Bool
exact_step max factor = scaling_step max factor == (max * factor + 99) / 100

step_table : passes (λ max. passes (exact_step max) 100) 5 ≡ true
unfolding passes scaling_step ceiling multiply divide of_uint64 round nearest scale_up scale_down
step_table = refl

scaling_step_lem :
    (max factor : ℕ) → max ≤ 5 → factor ≤ 100 → scaling_step max factor ≡ (max * factor + 99) / 100
scaling_step_lem max factor hm hf =
    let row = passes_at (λ m. passes (exact_step m) 100) 5 step_table max hm in
    (==_iff _ _).0 (passes_at (exact_step max) 100 row factor hf)

-- One step, in integers: `factor` percent of the maximum, rounded up.
abbrev pub percent : ℕ → ℕ → ℕ
percent max factor = (max * factor + 99) / 100

percent_bounds :
    (max factor : ℕ)
    → 1 ≤ max
    → 1 ≤ factor
    → factor ≤ 100
    → (1 ≤ percent max factor) × (percent max factor ≤ max)
percent_bounds max factor hm h1 h2 =
    (omega (arith, one-le-mul hm h1), omega (arith, mul-le-mul_left max h2))

-- An alert that fires brings a function with the maximum `max`, from 1 to below 2 ^ 53, and a
-- scaling factor from 1 to 100 to the lesser of `max`, 5 and its count with `percent` of the
-- lesser of `max` and 5 added, rounded up, where that sum does not come near 2 ^ 64. The
-- floating-point arithmetic of the code gives exactly this integer.
pub calculate_replicas-firing :
    (current max min_replicas factor : ℕ)
    → 1 ≤ max
    → max < 2 ^ 53
    → 1 ≤ factor
    → factor ≤ 100
    → current + 5 < 2 ^ 64
    → calculate_replicas (codes "firing") current max min_replicas factor
      ≡ min (min max 5) (current + percent (min max 5) factor)
unfolding calculate_replicas
calculate_replicas-firing current max min_replicas factor h1 h2 f1 f2 c =
    let m = clamp_max_lem max h2 in
    let s = scaling_step_lem (min max 5) factor (omega arith) f2 in
    let b = percent_bounds (min max 5) factor (omega arith) f1 f2 in rw (m, s) (ground (arith, b))

-- Whatever the counts are, also where the sum wraps, an alert that fires with a positive step
-- leaves the function at 5 replicas at most; any other alert gives it its minimum.
pub calculate_replicas_cases :
    (status : Bytes) (current max min_replicas factor : ℕ)
    → let result = calculate_replicas status current max min_replicas factor in
      ((is_firing status ≡ true) × (0 < scaling_step (clamp_max max) factor) × (result ≤ 5))
      ⊎ (((is_firing status ≡ false) ⊎ (scaling_step (clamp_max max) factor ≡ 0))
          × (result ≡ min_replicas))
unfolding calculate_replicas
calculate_replicas_cases status current max min_replicas factor = ground (arith, clamp_max-le max)

-- The count after so many alerts that fire.
abbrev pub after_alerts : ℕ → ℕ → ℕ → ℕ → ℕ → ℕ
after_alerts zero current max min_replicas factor = current
after_alerts (suc n) current max min_replicas factor =
    after_alerts n (calculate_replicas (codes "firing") current max min_replicas factor) max
      min_replicas factor

after_alerts_lem :
    (n current max min_replicas factor : ℕ)
    → 1 ≤ max
    → max < 2 ^ 53
    → 1 ≤ factor
    → factor ≤ 100
    → current ≤ min max 5
    → after_alerts n current max min_replicas factor
      ≡ min (min max 5) (current + n * percent (min max 5) factor)
after_alerts_lem zero current max mn factor h1 h2 f1 f2 c = omega arith
after_alerts_lem (suc n) current max mn factor h1 h2 f1 f2 c =
    let e = calculate_replicas-firing current max mn factor h1 h2 f1 f2 (omega arith) in
    after_alerts_lem n _ max mn factor h1 h2 f1 f2 (omega (arith, e)) ∙ omega (arith, e)

-- Five alerts that fire, or more, one after the other, bring a function to the lesser of its
-- maximum and 5, if its maximum is from 1 to below 2 ^ 53, its scaling factor from 1 to 100, and
-- its count at first at most that lesser number.
pub after_alerts-reaches :
    (n current max min_replicas factor : ℕ)
    → 5 ≤ n
    → 1 ≤ max
    → max < 2 ^ 53
    → 1 ≤ factor
    → factor ≤ 100
    → current ≤ min max 5
    → after_alerts n current max min_replicas factor ≡ min max 5
after_alerts-reaches n current max mn factor five h1 h2 f1 f2 c =
    let (p, _) = percent_bounds (min max 5) factor (omega arith) f1 f2 in
    let many : 5 ≤ n * percent (min max 5) factor = omega (arith, mul-le-mul five p) in
    after_alerts_lem n current max mn factor h1 h2 f1 f2 c ∙ omega arith
