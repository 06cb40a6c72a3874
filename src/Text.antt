-- ===== src/Text.antt =====
-- The functions of Go's package strings that the gateway calls, on byte strings.
pub mod Laws
pub mod Decimal
use faas_drl.Base.{
  ℕ, zero, suc, ◌-◌, Bool, true, false, not, ◌&&◌, ◌||◌, Option, none, some, List, [], ◌∷◌, ◌++◌,
  ◌==◌, if◌then◌else◌, length, is_some, ◌≢◌, All,
}
use faas_drl.Base.Bytes.{Bytes, codes}

-- No byte of the string is `c`.
abbrev pub Lacks : ℕ → Bytes → Type 0
Lacks c s = All (λ b. b ≢ c) s

-- `strings.CutPrefix`: what follows the prefix.
unfoldable pub strip_prefix : Bytes → Bytes → Option Bytes
strip_prefix [] s = some s
strip_prefix (p ∷ ps) [] = none
strip_prefix (p ∷ ps) (x ∷ s) = if p == x then strip_prefix ps s else none

unfoldable pub has_prefix : Bytes → Bytes → Bool
unfolding strip_prefix
has_prefix s p = is_some (strip_prefix p s)

-- `strings.LastIndex(s, c)` for a one-byte `c`; `none` is -1.
unfoldable pub last_index : ℕ → Bytes → Option ℕ
last_index c [] = none
last_index c (x ∷ s) = elim (last_index c s) [
  | some i ↦ some (suc i)
  | none ↦ if x == c then some 0 else none
]

-- `strings.Contains(s, c)` for a one-byte `c`.
unfoldable pub contains : ℕ → Bytes → Bool
contains c [] = false
contains c (x ∷ s) = x == c || contains c s

-- `strings.TrimLeft`, `strings.TrimRight` and `strings.Trim` with a one-byte cutset.
unfoldable pub trim_left : ℕ → Bytes → Bytes
trim_left c [] = []
trim_left c (x ∷ s) = let rest = trim_left c s in if x == c then rest else x ∷ s

unfoldable pub trim_right : ℕ → Bytes → Bytes
trim_right c [] = []
trim_right c (x ∷ s) = elim (trim_right c s) [
  | [] ↦ if x == c then [] else x ∷ []
  | y ∷ r ↦ x ∷ y ∷ r
]

unfoldable pub trim : ℕ → Bytes → Bytes
unfolding trim_left trim_right
trim c s = trim_right c (trim_left c s)

-- `strings.TrimSuffix(s, c)` for a one-byte `c`: one such byte is cut from the end.
unfoldable pub trim_suffix : ℕ → Bytes → Bytes
trim_suffix c [] = []
trim_suffix c (x ∷ []) = if x == c then [] else x ∷ []
trim_suffix c (x ∷ y ∷ s) = x ∷ trim_suffix c (y ∷ s)

-- `strings.Replace(s, old, "", -1)`. The counter is what is left to skip of the last match.
remove_from : Bytes → ℕ → Bytes → Bytes
unfolding has_prefix
remove_from old k [] = []
remove_from old (suc k) (x ∷ s) = remove_from old k s
remove_from old zero (x ∷ s) =
    let found = remove_from old (length old - 1) s in
    let kept = x ∷ remove_from old zero s in if has_prefix (x ∷ s) old then found else kept

unfoldable pub remove_all : Bytes → Bytes → Bytes
unfolding remove_from
remove_all old s = elim old [ [] ↦ s | c ∷ cs ↦ remove_from (c ∷ cs) zero s ]

-- The longest prefix whose bytes pass the test, and the rest.
unfoldable pub span : (ℕ → Bool) → Bytes → Bytes × Bytes
span p [] = ([], [])
span p (x ∷ s) = let (front, back) = span p s in if p x then (x ∷ front, back) else ([], x ∷ s)

-- `strings.Replace(s, old, new, 1)`: the first match; an empty `old` matches at the front.
unfoldable pub replace_first : Bytes → Bytes → Bytes → Bytes
unfolding strip_prefix
replace_first old new [] = elim old [ [] ↦ new | c ∷ cs ↦ [] ]
replace_first old new (x ∷ s) =
    let rest = replace_first old new s in
    elim (strip_prefix old (x ∷ s)) [ some tail ↦ new ++ tail | none ↦ x ∷ rest ]
