-- ===== src/Text/Laws.antt =====
-- Laws of the string functions: prefixes, the last index of a byte, trimming, spans.
use faas_drl.Base.{
  ℕ, suc, ◌≡◌, refl, Bool, true, false, none, some, [], ◌∷◌, ◌++◌, arith, length, take, drop, All,
  inl, inr, Option-cases,
}
use faas_drl.Base.Bytes.{Bytes}
use faas_drl.Text.{Lacks, strip_prefix, last_index, trim_left, trim_right, trim, span}

pub strip_prefix-append : (p s : Bytes) → strip_prefix p (p ++ s) ≡ some s
unfolding strip_prefix
strip_prefix-append [] s = refl
strip_prefix-append (x ∷ p) s = ground (arith, strip_prefix-append p s)

pub eq-append_of_strip_prefix : (p s : Bytes) {t : Bytes} → strip_prefix p s ≡ some t → s ≡ p ++ t
unfolding strip_prefix
eq-append_of_strip_prefix [] s h = ground arith
eq-append_of_strip_prefix (x ∷ p) [] h = cc
eq-append_of_strip_prefix (x ∷ p) (y ∷ s) {t} h =
    ground (arith, eq-append_of_strip_prefix p s {t = t})

pub last_index-Lacks : (c : ℕ) (s : Bytes) → Lacks c s → last_index c s ≡ none
unfolding last_index
last_index-Lacks c [] h = refl
last_index-Lacks c (x ∷ s) h = ground (arith, last_index-Lacks c s h.1)

pub last_index-Lacks_of_none : (c : ℕ) (s : Bytes) → last_index c s ≡ none → Lacks c s
unfolding last_index
last_index-Lacks_of_none c [] h = tt
last_index-Lacks_of_none c (x ∷ s) h = ground (arith, last_index-Lacks_of_none c s)

pub last_index-append :
    (c : ℕ) (s t : Bytes) → Lacks c t → last_index c (s ++ c ∷ t) ≡ some (length s)
unfolding last_index
last_index-append c [] t h = ground (arith, last_index-Lacks c t h)
last_index-append c (x ∷ s) t h = ground (arith, last_index-append c s t h)

-- The index that is found cuts the string at a `c` behind which there is no other.
pub last_index_cut :
    (c : ℕ) (s : Bytes) {i : ℕ}
    → last_index c s ≡ some i
    → (s ≡ take i s ++ c ∷ drop (suc i) s) × Lacks c (drop (suc i) s)
unfolding last_index
last_index_cut c [] h = cc
last_index_cut c (x ∷ s) {i} h = elim (Option-cases (last_index c s)) [
  | inl e ↦ ground (arith, last_index-Lacks_of_none c s e)
  | inr (j, e) ↦ ground (arith, last_index_cut c s e)
]

pub trim_left-Lacks : (c : ℕ) (s : Bytes) → Lacks c s → trim_left c s ≡ s
unfolding trim_left
trim_left-Lacks c [] h = refl
trim_left-Lacks c (x ∷ s) h = ground arith

pub trim_right-Lacks : (c : ℕ) (s : Bytes) → Lacks c s → trim_right c s ≡ s
unfolding trim_right
trim_right-Lacks c [] h = refl
trim_right-Lacks c (x ∷ s) h = ground (arith, trim_right-Lacks c s h.1)

pub trim-Lacks : (c : ℕ) (s : Bytes) → Lacks c s → trim c s ≡ s
unfolding trim
trim-Lacks c s h = rw (trim_left-Lacks c s h) (trim_right-Lacks c s h)

-- What `span` splits off: the parts spell the string, the front passes, the back begins otherwise.
abbrev pub Begins : (ℕ → Bool) → Bytes → Type 0
Begins p [] = Unit
Begins p (x ∷ s) = p x ≡ false

pub record IsSpan (p : ℕ → Bool) (s front back : Bytes) : Type 0 where
  pub spelled : s ≡ front ++ back
  pub passes : All (λ b. p b ≡ true) front
  pub stops : Begins p back

pub span-IsSpan : (p : ℕ → Bool) (s : Bytes) → IsSpan p s (span p s).0 (span p s).1
unfolding span
span-IsSpan p [] = record { spelled = refl; passes = tt; stops = tt }
span-IsSpan p (x ∷ s) = ground (arith, span-IsSpan p s)

pub span-append :
    (p : ℕ → Bool) (front back : Bytes)
    → All (λ b. p b ≡ true) front
    → Begins p back
    → span p (front ++ back) ≡ (front, back)
unfolding span
span-append p [] [] h b = refl
span-append p [] (x ∷ s) h b = ground arith
span-append p (x ∷ front) back h b = ground (arith, span-append p front back h.1 b)
