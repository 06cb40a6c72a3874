-- ===== src/Float64/Laws.antt =====
-- Conversions of integers below 2 ^ 53 are exact, and a minimum with 5 is 5 at most.
use faas_drl.Base.{
  ℕ, zero, suc, ◌+◌, ◌*◌, ◌/◌, ◌^◌, ◌≤◌, ◌<◌, ◌≡◌, ap, true, ltb, leb, ◌==◌, if◌then◌else◌, arith,
  Bool-cases, inl, inr,
}
use faas_drl.Float64.{Float64, nearest, scale_up, round, of_uint64, minimum, truncate}
use native.Mathlib.Nat.{
  one-le-pow, le_of_mul-le-mul_right, mul-le-mul_right, mul-lt-mul_of_pos_right,
}
use native.Mathlib.Numerals.{towards_suc}

nearest_one : (a : ℕ) → nearest a 1 ≡ a
unfolding nearest
nearest_one a = ground arith

two_pow_next : (k : ℕ) → 2 ^ (k + 1) ≡ 2 * 2 ^ k
two_pow_next k = simp towards_suc (omega arith)

two_pow_pos : (k : ℕ) → 0 < 2 ^ k
two_pow_pos k = one-le-pow k 2 (omega arith)

-- The number is the integer `n`, scaled.
abbrev pub IsExact : ℕ → Float64 → Type 0
IsExact n x = x.mantissa ≡ n * 2 ^ x.down

scale_up-IsExact : (rounds n a k : ℕ) → a ≡ n * 2 ^ k → IsExact n (scale_up rounds a 1 k)
unfolding scale_up
scale_up-IsExact zero n a k h = rw (nearest_one a) h
scale_up-IsExact (suc rounds) n a k h =
    let ih = scale_up-IsExact rounds n (a * 2) (k + 1) (rw (two_pow_next k) (omega arith)) in
    elim (Bool-cases (leb (2 ^ 52 * 1) a)) [ inl e ↦ rw e (rw (nearest_one a) h) | inr e ↦ rw e ih ]

round-IsExact : (n : ℕ) → n < 2 ^ 53 → IsExact n (round n 1)
unfolding round
round-IsExact n h =
    let small : ltb n (2 ^ 53 * 1) ≡ true = ground arith in
    elim (Bool-cases (n == 0)) [
      | inl e ↦ rw e (ground arith)
      | inr e ↦ rw e (rw small (scale_up-IsExact 64 n n 0 (omega arith)))
    ]

pub of_uint64-IsExact : (n : ℕ) → n < 2 ^ 53 → IsExact n (of_uint64 n)
unfolding of_uint64
of_uint64-IsExact n h = round-IsExact n h

div_le : (m p k : ℕ) → m ≤ k * p → 0 < p → m / p ≤ k
div_le m p k h q = grind arith

div_eq : (m p k : ℕ) → m ≡ k * p → 0 < p → m / p ≡ k
div_eq m p k h q = grind arith

pub truncate-IsExact : (n : ℕ) (x : Float64) → IsExact n x → truncate x ≡ n
unfolding truncate
truncate-IsExact n x h = div_eq x.mantissa (2 ^ x.down) n h (two_pow_pos x.down)

leb→le : (a b : ℕ) → leb a b ≡ true → a ≤ b
leb→le a b h = ground arith

cancel_le : (a b p : ℕ) → 0 < p → a * p ≤ b * p → a ≤ b
cancel_le a b p q h = le_of_mul-le-mul_right h q

scaled_le : (m n p q : ℕ) → m ≤ n → m * p * q ≤ n * q * p
scaled_le m n p q h = omega (arith, mul-le-mul_right (p * q) h)

scaled_lt : (m n p q : ℕ) → 0 < p → 0 < q → n < m → n * q * p < m * p * q
scaled_lt m n p q hp hq h =
    let pos : 0 < p * q = grind arith in omega (arith, mul-lt-mul_of_pos_right h pos)

leb_scaled : (m n p q : ℕ) → 0 < p → 0 < q → leb (m * p * q) (n * q * p) ≡ leb m n
leb_scaled m n p q hp hq = elim (Bool-cases (leb m n)) [
  | inl e ↦ rw e (ground (arith, scaled_le m n p q))
  | inr e ↦ rw e (ground (arith, scaled_lt m n p q hp hq))
]

-- A minimum, truncated, is at most what the second operand stands for.
pub truncate-minimum-le : (x y : Float64) (n : ℕ) → IsExact n y → truncate (minimum x y) ≤ n
unfolding truncate minimum
truncate-minimum-le x y n h =
    elim (Bool-cases (leb (x.mantissa * 2 ^ y.down) (y.mantissa * 2 ^ x.down))) [
      | inl e ↦ rw e (
          div_le x.mantissa (2 ^ x.down) n
            (cancel_le x.mantissa (n * 2 ^ x.down) (2 ^ y.down) (two_pow_pos y.down)
              (omega (arith, leb→le _ _ e, ap (λ (t : ℕ). t * 2 ^ x.down) h)))
            (two_pow_pos x.down))
      | inr e ↦ rw e (div_le y.mantissa (2 ^ y.down) n (omega (arith, h)) (two_pow_pos y.down))
    ]

-- The minimum of two exact integers is exact.
pub minimum-IsExact :
    (m n : ℕ) (x y : Float64)
    → IsExact m x
    → IsExact n y
    → IsExact (if leb m n then m else n) (minimum x y)
unfolding minimum
minimum-IsExact m n x y hx hy =
    let e : leb (x.mantissa * 2 ^ y.down) (y.mantissa * 2 ^ x.down) ≡ leb m n =
      rw (hx, hy)
        (leb_scaled m n (2 ^ x.down) (2 ^ y.down) (two_pow_pos x.down) (two_pow_pos y.down)) in
    rw e (elim (Bool-cases (leb m n)) [ inl d ↦ rw d hx | inr d ↦ rw d hy ])
