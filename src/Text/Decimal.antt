-- ===== src/Text/Decimal.antt =====
-- The decimal numbers of Go's package strconv: `Atoi`, and `%d` for a number of at most 64 bits.
use faas_drl.Base.{
  ℕ, zero, suc, ◌+◌, ◌-◌, ◌*◌, ◌/◌, ◌%◌, ◌^◌, ◌≡◌, refl, Bool, true, false, ◌&&◌, Option, none,
  some, [], ◌∷◌, ltb, leb, ◌==◌, if◌then◌else◌,
}
use faas_drl.Base.Int.{ℤ, pos, negsuc}
use faas_drl.Base.Bytes.{Bytes, codes}

-- The digits behind an accumulator; `none` at any other byte.
unfoldable pub read_digits : ℕ → Bytes → Option ℕ
read_digits acc [] = some acc
read_digits acc (b ∷ s) =
    let rest = read_digits (acc * 10 + (b - b'0')) s in
    if leb b'0' b && leb b b'9' then rest else none

unfoldable pub parse_ℕ : Bytes → Option ℕ
unfolding read_digits
parse_ℕ [] = none
parse_ℕ (b ∷ s) = read_digits 0 (b ∷ s)

-- The range of `int`, which has 64 bits.
abbrev pub in_range : Bool → Option ℕ → Option ℤ
in_range negative none = none
in_range true (some zero) = some (pos 0)
in_range true (some (suc n)) = if ltb n (2 ^ 63) then some (negsuc n) else none
in_range false (some n) = if ltb n (2 ^ 63) then some (pos n) else none

-- `strconv.Atoi`: an optional sign and decimal digits; `none` is any error.
unfoldable pub atoi : Bytes → Option ℤ
unfolding parse_ℕ
atoi [] = none
atoi (b ∷ s) =
    if b == b'-'
    then in_range true (parse_ℕ s)
    else (if b == b'+' then in_range false (parse_ℕ s) else in_range false (parse_ℕ (b ∷ s)))

-- The decimal digits of a number below 10 ^ rounds, in front of `tail`.
format_from : ℕ → ℕ → Bytes → Bytes
format_from zero n tail = tail
format_from (suc rounds) n tail =
    let more = format_from rounds (n / 10) ((b'0' + n % 10) ∷ tail) in
    if ltb n 10 then (b'0' + n) ∷ tail else more

-- `%d`; twenty digits hold every number of 64 bits.
unfoldable pub format : ℕ → Bytes
unfolding format_from
format n = format_from 20 n []

-- `%d` for an `int`.
abbrev pub format_int : ℤ → Bytes
format_int (pos n) = format n
format_int (negsuc n) = b'-' ∷ format (suc n)

atoi_tests :
    (atoi (codes "-12") ≡ some (negsuc 11))
    × (atoi (codes "+7") ≡ some (pos 7))
    × (atoi (codes "1_0") ≡ none)
    × (atoi (codes "9223372036854775808") ≡ none)
    × (atoi (codes "-9223372036854775808") ≡ some (negsuc (2 ^ 63 - 1)))
    × (format 8080 ≡ codes "8080")
    × (format 0 ≡ codes "0")
unfolding atoi format
atoi_tests = (refl, refl, refl, refl, refl, refl, refl)
