-- ===== src/Scaling/Single/Progress.antt =====
-- What the invariant of a single-flight group gives to its callers.
use mathlib.Core.Path.{subst}
use faas_drl.Base.{ℕ, false, ◌<◌, ◌≡◌, none, some, arith, ◌⊎◌, inl, inr, Option-cases}
use faas_drl.Effect.{done}
use faas_drl.Base.Bytes.{Bytes, eq_bytes_iff}
use faas_drl.Base.Dict.{lookup, lookup-erase}
use faas_drl.Scaling.Single.{
  Call, Phase, waiting, returned, SingleFlight, finish, leave, update, finished, leave_from, act,
  step, Reached,
}
use faas_drl.Scaling.Single.Valid.{IsServed}
use faas_drl.Scaling.Single.Invariant.{Reached-IsValid}

module _ {R : Type 0} where
  -- In a state that is reached, at most one run of a key is in flight: two calls with no result
  -- that were made for one key are the same call.
  pub one_in_flight :
      (unused : Call R) (keys : ℕ → Bytes) (s : SingleFlight R)
      → Reached unused keys s
      → (c d : ℕ) → c < s.next
      → d < s.next
      → (s.made c).res ≡ none
      → (s.made d).res ≡ none
      → (s.made c).key ≡ (s.made d).key
      → c ≡ d
  one_in_flight unused keys s h c d hc hd rc rd k =
      let v = Reached-IsValid unused keys s h in
      ground (arith, v.in_flight c hc rc, v.in_flight d hd rd, k)

  update-same : (f : ℕ → Phase R) (i : ℕ) (p : Phase R) → update f i p i ≡ p
  update-same f i p = ground arith

  -- A caller whose call is done gets its result.
  leave-returned :
      (s : SingleFlight R) (i : ℕ) (key : Bytes) (c : ℕ) (r : R)
      → s.exited ≡ false
      → s.phase i ≡ waiting key c
      → (s.made c).wg ≡ 0
      → (s.made c).res ≡ some r
      → step (leave i) s ≡ some (record s { phase = update s.phase i (returned key r) })
  unfolding step act leave_from
  leave-returned s i key c r live w n e = simp (live, w, n, e)

  finish-done :
      (s : SingleFlight R) (c : ℕ) (r : R)
      → s.exited ≡ false
      → c < s.next
      → (s.made c).res ≡ none
      → step (finish c (done r)) s ≡ some (finished c r s)
  unfolding step act
  finish-done s c r live lt e = ground (arith, live, lt, e)

  -- The caller can return with a result of its call.
  abbrev pub Returnable : SingleFlight R → ℕ → Bytes → R → Type 0
  Returnable s i key r =
      (u : SingleFlight R) × (step (leave i) s ≡ some u) × (u.phase i ≡ returned key r)

  -- In a state that is reached, where the process has not exited, a caller that waits is not stuck.
  -- Either its call has a result, with which the caller can return. Or the run of its call is in
  -- flight, and once it ends with any result, no call of the key is in the map any more, and the
  -- caller can return with this result.
  pub waiting-progress :
      (unused : Call R) (keys : ℕ → Bytes) (s : SingleFlight R) (i : ℕ) (key : Bytes) (c : ℕ)
      → Reached unused keys s
      → s.exited ≡ false
      → s.phase i ≡ waiting key c
      → ((r : R) × ((s.made c).res ≡ some r) × Returnable s i key r)
        ⊎ ((r : R)
            → (t : SingleFlight R) × (step (finish c (done r)) s ≡ some t)
              × (lookup key t.calls ≡ none)
              × Returnable t i key r)
  unfolding finished
  waiting-progress unused keys s i key c h live w =
      let v = Reached-IsValid unused keys s h in
      let waits : IsServed s (waiting key c) = subst (IsServed s) w (v.served i) in
      let (lt, made) = waits in
      elim (Option-cases (s.made c).res) [
        | inl e ↦ inr (λ r.
            let t : SingleFlight R = finished c r s in
            let gone : lookup key t.calls ≡ none = ground (
              arith,
              lookup-erase (s.made c).key key s.calls,
              eq_bytes_iff (s.made c).key key,
              made,
            ) in
            let zero : (t.made c).wg ≡ 0 = ground (arith, v.counted c lt, e) in
            let result : (t.made c).res ≡ some r = ground arith in
            let left = leave-returned t i key c r live w zero result in
            (t, finish-done s c r live lt e, gone, (_, left, update-same s.phase i _)))
        | inr (r, e) ↦
            let zero : (s.made c).wg ≡ 0 = ground (arith, v.counted c lt, e) in
            let left = leave-returned s i key c r live w zero e in
            inl (r, e, (_, left, update-same s.phase i _))
      ]
