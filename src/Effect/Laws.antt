-- ===== src/Effect/Laws.antt =====
-- What holds of every end, what is kept, and what a computation may cost: one rule for a
-- sequence each.
use faas_drl.Base.{ℕ, ◌+◌, ◌≤◌, arith, Bool, true, false, if◌then◌else◌}
use faas_drl.Effect.{Exit, done, panicked, M, continue}

module _ {S : Type 0} where
  -- The computation ends with a result in `P`, or with a panic in a state in `X`.
  abbrev pub EndsIn : {A : Type 0} → (S → Type 0) → (A → Type 0) → Exit A × S → Type 0
  EndsIn X P (done a, s) = P a
  EndsIn X P (panicked, s) = X s

  pub EndsIn-continue :
      {A B : Type 0} (X : S → Type 0) (P : A → Type 0) (Q : B → Type 0) (m : Exit A × S)
      (f : A → M S B)
      → EndsIn X P m
      → ((a : A) (s : S) → P a → EndsIn X Q (f a s))
      → EndsIn X Q (continue m f)
  EndsIn-continue X P Q (done a, s) f r h = h a s r
  EndsIn-continue X P Q (panicked, s) f r h = r

  pub EndsIn-imp :
      {A : Type 0} (X Y : S → Type 0) (P Q : A → Type 0)
      → ((s : S) → X s → Y s)
      → ((a : A) → P a → Q a)
      → (m : Exit A × S) → EndsIn X P m
      → EndsIn Y Q m
  EndsIn-imp X Y P Q g h (done a, s) r = h a r
  EndsIn-imp X Y P Q g h (panicked, s) r = g s r

  pub EndsIn-if :
      {A : Type 0} (X : S → Type 0) (P : A → Type 0) (b : Bool) (m k : M S A) (s : S)
      → EndsIn X P (m s)
      → EndsIn X P (k s)
      → EndsIn X P ((if b then m else k) s)
  EndsIn-if X P true m k s hm hk = hm
  EndsIn-if X P false m k s hm hk = hk

  -- The computation ends without a panic.
  abbrev pub Returns : {A : Type 0} → (A → Type 0) → Exit A × S → Type 0
  Returns = EndsIn (λ s. ⊥)

  -- At most `k` is added to what `μ` counts.
  abbrev pub Costs : {A : Type 0} → (S → ℕ) → ℕ → M S A → Type 0
  Costs μ k m = (s : S) → μ (m s).1 ≤ μ s + k

  pub Costs-if :
      {A : Type 0} (μ : S → ℕ) (j : ℕ) (b : Bool) (m k : M S A)
      → Costs μ j m
      → Costs μ j k
      → Costs μ j (if b then m else k)
  Costs-if μ j true m k hm hk = hm
  Costs-if μ j false m k hm hk = hk

  -- A sequence costs at most what its parts do together.
  pub Costs-continue :
      {A B : Type 0} (μ : S → ℕ) (n j k t : ℕ) (m : Exit A × S) (f : A → M S B)
      → μ m.1 ≤ n + j
      → ((a : A) → Costs μ k (f a))
      → j + k ≤ t
      → μ (continue m f).1 ≤ n + t
  Costs-continue μ n j k t (done a, s) f h hf le = omega (arith, hf a s)
  Costs-continue μ n j k t (panicked, s) f h hf le = omega arith

  -- What both parts of a sequence keep, the sequence keeps.
  pub Keeps-continue :
      {A B : Type 0} (I : S → Type 0) (m : Exit A × S) (f : A → M S B)
      → I m.1
      → ((a : A) (s : S) → I s → I (f a s).1)
      → I (continue m f).1
  Keeps-continue I (done a, s) f i k = k a s i
  Keeps-continue I (panicked, s) f i k = i

  -- The state is left in `I`, and a result, if there is one, is in `Q`.
  abbrev pub Yields : {A : Type 0} → (S → Type 0) → (A → Type 0) → Exit A × S → Type 0
  Yields I Q (done a, s) = Q a × I s
  Yields I Q (panicked, s) = I s

  pub Yields-continue :
      {A B : Type 0} (I : S → Type 0) (Q : A → Type 0) (m : Exit A × S) (f : A → M S B)
      → Yields I Q m
      → ((a : A) (s : S) → Q a → I s → I (f a s).1)
      → I (continue m f).1
  Yields-continue I Q (done a, s) f (q, i) k = k a s q i
  Yields-continue I Q (panicked, s) f i k = i

  pub Keeps-if :
      {A : Type 0} (I : S → Type 0) (b : Bool) (m k : M S A) (s : S)
      → I (m s).1
      → I (k s).1
      → I ((if b then m else k) s).1
  Keeps-if I true m k s hm hk = hm
  Keeps-if I false m k s hm hk = hk
