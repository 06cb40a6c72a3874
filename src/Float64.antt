-- ===== src/Float64.antt =====
-- The float64 operations of gateway/handlers/alerthandler.go, on numbers that are not negative and
-- of moderate size: a number is `mantissa / 2 ^ down`, and each operation rounds its exact result
-- to 53 bits, to the nearest and on a tie to the even one. Infinities and numbers too small for 53
-- bits do not come up: the operands are uint64 values, and quotients of them by 100.
pub mod Laws
use faas_drl.Base.{
  ℕ, zero, suc, ◌+◌, ◌-◌, ◌*◌, ◌/◌, ◌%◌, ◌^◌, ◌≡◌, refl, Bool, true, false, ltb, leb, ◌==◌,
  if◌then◌else◌,
}

pub record Float64 : Type 0 where
  pub mantissa : ℕ
  pub down : ℕ

-- The nearest number to `a / b`.
unfoldable pub nearest : ℕ → ℕ → ℕ
nearest a b =
    let q = a / b in
    let r = a % b in if ltb (2 * r) b then q else (if ltb b (2 * r) then q + 1 else q + q % 2)

-- Doubles the numerator until the quotient has 53 bits. A quotient of at least 2 ^ -12 takes 64
-- rounds at most.
unfoldable pub scale_up : ℕ → ℕ → ℕ → ℕ → Float64
scale_up zero a b k = record { mantissa = nearest a b; down = k }
scale_up (suc rounds) a b k =
    let more = scale_up rounds (a * 2) b (k + 1) in
    if leb (2 ^ 52 * b) a then record { mantissa = nearest a b; down = k } else more

-- Doubles the denominator until the quotient has 53 bits. A quotient below 2 ^ 64 takes 11 rounds.
unfoldable pub scale_down : ℕ → ℕ → ℕ → ℕ → Float64
scale_down zero a b unit = record { mantissa = nearest a b * unit; down = 0 }
scale_down (suc rounds) a b unit =
    let more = scale_down rounds a (b * 2) (unit * 2) in
    if ltb a (2 ^ 53 * b) then record { mantissa = nearest a b * unit; down = 0 } else more

-- `a / b`, rounded.
unfoldable pub round : ℕ → ℕ → Float64
round a b =
    let small = scale_up 64 a b 0 in
    let large = scale_down 11 a b 1 in
    if a == 0
    then record { mantissa = 0; down = 0 }
    else (if ltb a (2 ^ 53 * b) then small else large)

unfoldable pub of_uint64 : ℕ → Float64
of_uint64 n = round n 1

unfoldable pub divide : Float64 → Float64 → Float64
divide x y = round (x.mantissa * 2 ^ y.down) (y.mantissa * 2 ^ x.down)

unfoldable pub multiply : Float64 → Float64 → Float64
multiply x y = round (x.mantissa * y.mantissa) (2 ^ (x.down + y.down))

-- `math.Min`
unfoldable pub minimum : Float64 → Float64 → Float64
minimum x y = if leb (x.mantissa * 2 ^ y.down) (y.mantissa * 2 ^ x.down) then x else y

-- `uint64(f)`, for a number below 2 ^ 64.
unfoldable pub truncate : Float64 → ℕ
truncate x = x.mantissa / 2 ^ x.down

-- `uint64(math.Ceil(f))`, for a number below 2 ^ 64.
unfoldable pub ceiling : Float64 → ℕ
ceiling x = (x.mantissa + 2 ^ x.down - 1) / 2 ^ x.down
