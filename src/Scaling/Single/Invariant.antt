-- ===== src/Scaling/Single/Invariant.antt =====
-- What holds of a single-flight group whatever the order of the steps.
use faas_drl.Base.{
  ℕ, zero, suc, false, Bool, true, if◌then◌else◌, ◌<◌, ◌≡◌, refl, Option, none, some, ltb, is_none,
  ◌&&◌, arith, inl, inr, Bool-cases,
}
use faas_drl.Base.Bytes.{Bytes}
use faas_drl.Effect.{Exit, done, panicked}
use faas_drl.Base.Dict.{lookup}
use faas_drl.Scaling.Single.{
  Call, Phase, entering, waiting, returned, crashed, SingleFlight, Action, enter, finish, leave,
  enter_from, leave_with, leave_from, end_run, act, step, Reached, start, then_step,
}
use faas_drl.Scaling.Single.Valid.{
  IsServed, IsValid, IsServed-mono, new-IsValid, finish-IsValid, set_phase-IsValid, join-IsValid,
}

module _ {R : Type 0} where
  some-IsValid : (s t : SingleFlight R) → IsValid s → some s ≡ some t → IsValid t
  some-IsValid s t v e = let q : s ≡ t = cc e in rw⁻¹ q v

  enter_from-IsValid :
      (s t : SingleFlight R) (i : ℕ) (p : Phase R)
      → IsValid s
      → enter_from i p s ≡ some t
      → IsValid t
  unfolding enter_from
  enter_from-IsValid s t i (entering key) v e =
      some-IsValid _ t (join-IsValid s i key (lookup key s.calls) refl v) e
  enter_from-IsValid s t i (waiting key c) v e = absurd (cc e)
  enter_from-IsValid s t i (returned key r) v e = absurd (cc e)
  enter_from-IsValid s t i (crashed key) v e = absurd (cc e)

  leave_with-IsValid :
      (s t : SingleFlight R) (i : ℕ) (key : Bytes) (c n : ℕ) (o : Option R)
      → (s.made c).wg ≡ n
      → (s.made c).res ≡ o
      → IsServed s (waiting key c)
      → IsValid s
      → leave_with i key n o s ≡ some t
      → IsValid t
  leave_with-IsValid s t i key c (suc n) o k q w v e = absurd (cc e)
  leave_with-IsValid s t i key c zero none k q (a, b) v e =
      absurd (ground (arith, v.counted c a, k, q))
  leave_with-IsValid s t i key c zero (some r) k q (a, b) v e =
      some-IsValid _ t (set_phase-IsValid s i (returned key r) v (c, a, b, q)) e

  leave_from-IsValid :
      (s t : SingleFlight R) (i : ℕ) (p : Phase R)
      → IsServed s p
      → IsValid s
      → leave_from i p s ≡ some t
      → IsValid t
  unfolding leave_from
  leave_from-IsValid s t i (entering key) w v e = absurd (cc e)
  leave_from-IsValid s t i (waiting key c) w v e =
      leave_with-IsValid s t i key c (s.made c).wg (s.made c).res refl refl w v e
  leave_from-IsValid s t i (returned key r) w v e = absurd (cc e)
  leave_from-IsValid s t i (crashed key) w v e = absurd (cc e)

  -- A run that returns, or whose panic ends the process.
  end_run-IsValid :
      (s : SingleFlight R) (c : ℕ) (ended : Exit R)
      → IsValid s
      → c < s.next
      → (s.made c).res ≡ none
      → IsValid (end_run c ended s)
  end_run-IsValid s c (done r) v lt run = finish-IsValid s c r v lt run
  end_run-IsValid s c panicked v lt run = record {
    listed = v.listed;
    in_flight = v.in_flight;
    counted = v.counted;
    served = λ i.
        IsServed-mono s (record s { exited = true }) (s.phase i) (λ c a. (a, refl)) (λ c r a e. e)
          (v.served i);
  }

  act-IsValid : (a : Action R) (s t : SingleFlight R) → IsValid s → act a s ≡ some t → IsValid t
  unfolding act
  act-IsValid (enter i) s t v h = enter_from-IsValid s t i (s.phase i) v h
  act-IsValid (finish c ended) s t v h =
      elim (Bool-cases (ltb c s.next && is_none (s.made c).res)) [
        | inl e ↦
            some-IsValid _ t (end_run-IsValid s c ended v (ground (arith, e)) (ground (arith, e)))
              (rw e at h)
        | inr e ↦ absurd (cc (rw e at h))
      ]
  act-IsValid (leave i) s t v h = leave_from-IsValid s t i (s.phase i) (v.served i) v h

  step-IsValid : (a : Action R) (s t : SingleFlight R) → IsValid s → step a s ≡ some t → IsValid t
  unfolding step
  step-IsValid a s t v h = go s.exited h
    where
      go : (exited : Bool) → (if exited then none else act a s) ≡ some t → IsValid t
      go true e = absurd (cc e)
      go false e = act-IsValid a s t v e

  -- Every state that a sequence of steps reaches is valid: a call in the map is in flight and was
  -- made for its key, a call in flight is in the map under its key, the wait group of a call is
  -- done exactly if there is a result, a caller waits for a call of its key, what was returned to
  -- a caller is the result of a run for its key, and no caller has panicked on a nil result.
  pub Reached-IsValid :
      (unused : Call R) (keys : ℕ → Bytes) (s : SingleFlight R) → Reached unused keys s → IsValid s
  Reached-IsValid unused keys s start = new-IsValid unused keys
  Reached-IsValid unused keys s (then_step a r t h e) =
      step-IsValid a r s (Reached-IsValid unused keys r h) e
