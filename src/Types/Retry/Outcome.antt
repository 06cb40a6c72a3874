-- ===== src/Types/Retry/Outcome.antt =====
-- How a retry loop ends, round by round.
use faas_drl.Base.{ℕ, zero, suc, ◌+◌, ◌<◌, ◌≡◌, refl, Option, none, some, arith, inl, inr, ◌⊎◌}
use faas_drl.Base.Int.{ℤ, pos_part}
use faas_drl.Effect.{Error, M, Exit, done, panicked, returned, crashed, ends}
use faas_drl.Types.Retry.{retry_from, retry}

module _ {S : Type 0} (r : ℕ → M S (Option Error)) (sleep : M S (Unit {0})) where
  -- A round that failed with `e` and slept.
  pub record IsFailure (i : ℕ) (s : S) (e : Error) (t : S) : Type 0 where
    pub after : S
    pub tried : r i s ≡ (done (some e), after)
    pub slept : sleep after ≡ (done tt, t)

  -- How the rounds from `i` on end, started in `s` with the error `err` so far.
  pub data Rounds : (rounds i : ℕ) → Option Error → S → Exit (Option Error) × S → Type 0 where
    exhausted : (i : ℕ) (err : Option Error) (s : S) → Rounds zero i err s (done err, s)
    succeeded :
        (n i : ℕ) (err : Option Error) (s t : S)
        → r i s ≡ (done none, t)
        → Rounds (suc n) i err s (done none, t)
    failed :
        (n i : ℕ) (err : Option Error) (s t : S) (e : Error) (m : Exit (Option Error) × S)
        → IsFailure i s e t
        → Rounds n (suc i) (some e) t m
        → Rounds (suc n) i err s m
    broke :
        (n i : ℕ) (err : Option Error) (s t : S)
        → r i s ≡ (panicked, t)
        → Rounds (suc n) i err s (panicked, t)
    broke_asleep :
        (n i : ℕ) (err : Option Error) (s u t : S) (e : Error)
        → r i s ≡ (done (some e), u)
        → sleep u ≡ (panicked, t)
        → Rounds (suc n) i err s (panicked, t)

  after_round :
      (n i : ℕ) (err : Option Error) (s u : S) (o : Option Error)
      → r i s ≡ (done o, u)
      → ((x : Error) (t : S)
          → Rounds n (suc i) (some x) t (retry_from r sleep n (suc i) (some x) t))
      → Rounds (suc n) i err s (retry_from r sleep (suc n) i err s)
  unfolding retry_from
  after_round n i err s u none e ih = rw e (succeeded n i err s u e)
  after_round n i err s u (some x) e ih = elim (ends (sleep u)) [
    | crashed t d ↦ rw (e, d) (broke_asleep n i err s u t x e d)
    | returned _ t d ↦
        rw (e, d) (failed n i err s t x _ (record { after = u; tried = e; slept = d }) (ih x t))
  ]

  retry_from-Rounds :
      (n i : ℕ) (err : Option Error) (s : S) → Rounds n i err s (retry_from r sleep n i err s)
  unfolding retry_from
  retry_from-Rounds zero i err s = exhausted i err s
  retry_from-Rounds (suc n) i err s = elim (ends (r i s)) [
    | crashed t e ↦ rw e (broke n i err s t e)
    | returned o u e ↦ after_round n i err s u o e (λ x t. retry_from-Rounds n (suc i) (some x) t)
  ]

  -- The loop ends as one of the rules says: at its last round with the last error (nil if there
  -- was no round), at the first round that gives no error, or in a panic of a round.
  pub retry-Rounds :
      (attempts : ℤ) (s : S) → Rounds (pos_part attempts) 0 none s (retry r sleep attempts s)
  unfolding retry
  retry-Rounds attempts s = retry_from-Rounds (pos_part attempts) 0 none s

  -- Rounds from `i` in `s` that failed and slept lead to round `j` in `u`.
  pub data Failures : (i : ℕ) (s : S) (j : ℕ) (u : S) → Type 0 where
    no_failure : (i : ℕ) (s : S) → Failures i s i s
    then_failures :
        (i : ℕ) (s t : S) (e : Error) (j : ℕ) (u : S)
        → IsFailure i s e t
        → Failures (suc i) t j u
        → Failures i s j u

  -- A round that panics, or one that fails and whose sleep panics.
  abbrev pub Breaks : ℕ → S → S → Type 0
  Breaks j before t =
      (r j before ≡ (panicked, t))
      ⊎ ((e : Error) × (u : S) × (r j before ≡ (done (some e), u)) × (sleep u ≡ (panicked, t)))

  -- What `n` rounds from `i`, begun in `s` with the error so far, come to.
  pub data RetryEnds (n i : ℕ) (err : Option Error) (s : S) (m : Exit (Option Error) × S)
      : Type 0 where
    untried : n ≡ 0 → m ≡ (done err, s) → RetryEnds n i err s m
    succeeded_at :
        (j : ℕ) (before t : S)
        → j < i + n
        → Failures i s j before
        → r j before ≡ (done none, t)
        → m ≡ (done none, t)
        → RetryEnds n i err s m
    failed_at :
        (j : ℕ) (before t : S) (e : Error)
        → suc j ≡ i + n
        → Failures i s j before
        → IsFailure j before e t
        → m ≡ (done (some e), t)
        → RetryEnds n i err s m
    broken_off :
        (j : ℕ) (before t : S)
        → j < i + n
        → Failures i s j before
        → Breaks j before t
        → m ≡ (panicked, t)
        → RetryEnds n i err s m

  -- A failure before.
  after_failure :
      (n i : ℕ) (err : Option Error) (s t : S) (e : Error) (m : Exit (Option Error) × S)
      → IsFailure i s e t
      → RetryEnds n (suc i) (some e) t m
      → RetryEnds (suc n) i err s m
  after_failure n i err s t e m f (untried z q) =
      failed_at i s t e (omega (arith, z)) (no_failure i s) f q
  after_failure n i err s t e m f (succeeded_at j before u lt fails gave q) =
      succeeded_at j before u (omega (arith, lt)) (then_failures i s t e j before f fails) gave q
  after_failure n i err s t e m f (failed_at j before u x last fails g q) =
      failed_at j before u x (omega (arith, last)) (then_failures i s t e j before f fails) g q
  after_failure n i err s t e m f (broken_off j before u lt fails b q) =
      broken_off j before u (omega (arith, lt)) (then_failures i s t e j before f fails) b q

  Rounds-RetryEnds :
      {n i : ℕ} {err : Option Error} {s : S} {m : Exit (Option Error) × S}
      → Rounds n i err s m
      → RetryEnds n i err s m
  Rounds-RetryEnds (exhausted i err s) = untried refl refl
  Rounds-RetryEnds (succeeded n i err s t e) =
      succeeded_at i s t (omega arith) (no_failure i s) e refl
  Rounds-RetryEnds (failed n i err s t e m f rest) =
      after_failure n i err s t e m f (Rounds-RetryEnds rest)
  Rounds-RetryEnds (broke n i err s t e) =
      broken_off i s t (omega arith) (no_failure i s) (inl e) refl
  Rounds-RetryEnds (broke_asleep n i err s u t e p q) =
      broken_off i s t (omega arith) (no_failure i s) (inr (e, u, p, q)) refl

  -- A retry loop ends in one of four ways. Without an attempt it gives no error and does nothing.
  -- Or its rounds from the first on fail, each followed by a sleep, up to a round within the
  -- attempts, and there it ends: a round that gives no error ends it with none, in the state that
  -- this round leaves; the last of the attempts, if it fails too, ends it with its error, behind
  -- its sleep; and a round that panics, or the sleep behind one that fails, ends it in this panic.
  pub retry-RetryEnds :
      (attempts : ℤ) (s : S) → RetryEnds (pos_part attempts) 0 none s (retry r sleep attempts s)
  retry-RetryEnds attempts s = Rounds-RetryEnds (retry-Rounds attempts s)
