-- ===== src/Types/Retry/Bounds.antt =====
-- What a retry loop keeps, what it costs at most, and how it ends if its rounds do.
use faas_drl.Base.{ℕ, zero, suc, ◌+◌, ◌*◌, ◌≤◌, ◌≡◌, Option, none, some, arith}
use faas_drl.Base.Int.{ℤ, pos_part}
use faas_drl.Effect.{Error, M, Exit}
use faas_drl.Effect.Laws.{EndsIn, EndsIn-continue, Costs}
use faas_drl.Types.Retry.{retry_from, retry}
use faas_drl.Types.Retry.Outcome.{
  Rounds, exhausted, succeeded, failed, broke, broke_asleep, retry-Rounds,
}

module _ {S : Type 0} (r : ℕ → M S (Option Error)) (sleep : M S (Unit {0})) where
  -- What grows by one with each round, and does not shrink: a bound for the whole loop.
  module _ (P : ℕ → S → Type 0) (grow : (i : ℕ) (s : S) → P i s → P (suc i) s)
      (round : (i k : ℕ) (s : S) → P i s → P (suc i) (r k s).1)
      (asleep : (i : ℕ) (s : S) → P i s → P i (sleep s).1) where
    grow_to : (n i : ℕ) (s : S) → P i s → P (i + n) s
    grow_to zero i s h = let e : i + 0 ≡ i = omega arith in rw e h
    grow_to (suc n) i s h =
        let e : i + suc n ≡ suc i + n = omega arith in rw e (grow_to n (suc i) s (grow i s h))

    at_end : (n i : ℕ) (s : S) → P (suc i + n) s → P (i + suc n) s
    at_end n i s h = let e : i + suc n ≡ suc i + n = omega arith in rw e h

    Rounds_bound :
        {n k : ℕ} {err : Option Error} {s : S} {m : Exit (Option Error) × S} (i : ℕ)
        → Rounds r sleep n k err s m
        → P i s
        → P (i + n) m.1
    Rounds_bound j (exhausted i err s) h = grow_to zero j s h
    Rounds_bound j (succeeded n i err s t e) h =
        at_end n j t (grow_to n (suc j) t (rw e at (round j i s h)))
    Rounds_bound j (failed n i err s t e m f rest) h = at_end n j m.1 (
        Rounds_bound (suc j) rest
          (rw f.slept at (asleep (suc j) f.after (rw f.tried at (round j i s h)))))
    Rounds_bound j (broke n i err s t e) h =
        at_end n j t (grow_to n (suc j) t (rw e at (round j i s h)))
    Rounds_bound j (broke_asleep n i err s u t e p q) h =
        at_end n j t (grow_to n (suc j) t (rw q at (asleep (suc j) u (rw p at (round j i s h)))))

    pub retry_bound :
        (attempts : ℤ) (s : S) → P 0 s → P (pos_part attempts) (retry r sleep attempts s).1
    retry_bound attempts s h =
        let e : 0 + pos_part attempts ≡ pos_part attempts = omega arith in
        rw e at (Rounds_bound 0 (retry-Rounds r sleep attempts s) h)

  -- A loop whose rounds and sleeps return, or panic in `X`, does so; its error is nil or that of a
  -- round.
  module _ (X : S → Type 0) (P : Option Error → Type 0) where
    retry_from-EndsIn :
        ((i : ℕ) (s : S) → EndsIn X P (r i s))
        → ((s : S) → EndsIn X (λ _. Unit {0}) (sleep s))
        → P none
        → (n i : ℕ) (err : Option Error) (s : S) → P err
        → EndsIn X P (retry_from r sleep n i err s)
    unfolding retry_from
    retry_from-EndsIn hr hs p zero i err s q = q
    retry_from-EndsIn hr hs p (suc n) i err s q = EndsIn-continue X P P (r i s) _ (hr i s) (elim [
      | none ↦ λ t k. k
      | some e ↦ λ t k.
          EndsIn-continue X (λ _. Unit {0}) P (sleep t) _ (hs t)
            (λ _ u _. retry_from-EndsIn hr hs p n (suc i) (some e) u k)
    ])

    pub retry-EndsIn :
        ((i : ℕ) (s : S) → EndsIn X P (r i s))
        → ((s : S) → EndsIn X (λ _. Unit {0}) (sleep s))
        → P none
        → (attempts : ℤ) (s : S) → EndsIn X P (retry r sleep attempts s)
    unfolding retry
    retry-EndsIn hr hs p attempts s = retry_from-EndsIn hr hs p (pos_part attempts) 0 none s p

  -- The cost of a loop is that of a round for each attempt.
  pub retry-Costs :
      (μ : S → ℕ) (k : ℕ)
      → ((i : ℕ) → Costs μ k (r i))
      → Costs μ 0 sleep
      → (attempts : ℤ) → Costs μ (pos_part attempts * k) (retry r sleep attempts)
  retry-Costs μ k hr hs attempts s =
      retry_bound (λ i t. μ t ≤ μ s + i * k) (λ i t h. grind arith)
        (λ i j t h. grind (arith, hr j t)) (λ i t h. omega (arith, hs t)) attempts s (omega arith)
