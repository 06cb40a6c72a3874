-- ===== src/Scaling/Single/Valid.antt =====
-- When a state of a single-flight group is valid, and what its critical sections keep.
use faas_drl.Base.{
  ℕ, if◌then◌else◌, ◌<◌, ◌≡◌, refl, Option, none, some, ◌==◌, is_none, arith, inl, inr, Bool-cases,
}
use faas_drl.Base.Bytes.{Bytes, eq_bytes_iff}
use faas_drl.Base.Dict.{lookup, lookup-insert, lookup-erase}
use faas_drl.Scaling.Single.{
  Call, Phase, entering, waiting, returned, crashed, SingleFlight, update, join, finished,
  new_single_flight,
}

-- What a caller may rely on.
abbrev pub IsServed : {R : Type 0} → SingleFlight R → Phase R → Type 0
IsServed s (entering key) = Unit
IsServed s (crashed key) = ⊥
IsServed s (waiting key c) = (c < s.next) × ((s.made c).key ≡ key)
IsServed s (returned key r) =
    (c : ℕ) × (c < s.next) × ((s.made c).key ≡ key) × ((s.made c).res ≡ some r)

pub record IsValid {R : Type 0} (s : SingleFlight R) : Type 0 where
  -- A call in the map was made for its key and is in flight,
  pub listed :
      (key : Bytes) (c : ℕ)
      → lookup key s.calls ≡ some c
      → (c < s.next) × (((s.made c).key ≡ key) × ((s.made c).res ≡ none))
  -- a call in flight is in the map,
  pub in_flight :
      (c : ℕ) → c < s.next → (s.made c).res ≡ none → lookup (s.made c).key s.calls ≡ some c
  -- the wait group of a call is done exactly if there is a result,
  pub counted : (c : ℕ) → c < s.next → (s.made c).wg ≡ (if is_none (s.made c).res then 1 else 0)
  -- and callers wait for calls of their key, or have the result of one.
  pub served : (i : ℕ) → IsServed s (s.phase i)

module _ {R : Type 0} where
  pub new-IsValid : (unused : Call R) (keys : ℕ → Bytes) → IsValid (new_single_flight unused keys)
  unfolding lookup
  new-IsValid unused keys = record {
    listed = λ key c h. absurd (ground (arith, h));
    in_flight = λ c h e. absurd (omega (arith, h));
    counted = λ c h. absurd (omega (arith, h));
    served = λ i. tt;
  }

  -- A state with the calls of `s` and more serves whom `s` does.
  pub IsServed-mono :
      (s t : SingleFlight R) (p : Phase R)
      → ((c : ℕ) → c < s.next → (c < t.next) × ((t.made c).key ≡ (s.made c).key))
      → ((c : ℕ) (r : R) → c < s.next → (s.made c).res ≡ some r → (t.made c).res ≡ some r)
      → IsServed s p
      → IsServed t p
  IsServed-mono s t (entering key) more kept h = tt
  IsServed-mono s t (waiting key c) more kept (a, b) =
      ((more c a).0, ground (arith, (more c a).1, b))
  IsServed-mono s t (returned key r) more kept (c, a, b, d) =
      (c, (more c a).0, ground (arith, (more c a).1, b), kept c r a d)
  IsServed-mono s t (crashed key) more kept h = h

  IsServed-update :
      (t : SingleFlight R) (phase : ℕ → Phase R) (i j : ℕ) (p : Phase R)
      → IsServed t p
      → IsServed t (phase j)
      → IsServed t (update phase i p j)
  IsServed-update t phase i j p a b = elim (Bool-cases (i == j)) [ inl e ↦ rw e a | inr e ↦ rw e b ]

  pub finish-IsValid :
      (s : SingleFlight R) (c : ℕ) (r : R)
      → IsValid s
      → c < s.next
      → (s.made c).res ≡ none
      → IsValid (finished c r s)
  unfolding finished
  finish-IsValid s c r v lt run = record {
    listed = λ key d h. ground (
      arith,
      lookup-erase (s.made c).key key s.calls,
      v.listed key d,
      eq_bytes_iff (s.made c).key key,
      h,
    );
    in_flight = λ d ltd e. ground (
      arith,
      lookup-erase (s.made c).key (s.made d).key s.calls,
      v.in_flight c lt run,
      v.in_flight d ltd,
      eq_bytes_iff (s.made c).key (s.made d).key,
      e,
    );
    counted = λ d ltd. ground (arith, v.counted c lt, v.counted d ltd, run);
    served = λ i.
        IsServed-mono s (finished c r s) (s.phase i) (λ d ltd. (ltd, ground arith))
          (λ d q ltd e. ground (arith, e, run)) (v.served i);
  }

  pub set_phase-IsValid :
      (s : SingleFlight R) (i : ℕ) (p : Phase R)
      → IsValid s
      → IsServed s p
      → IsValid (record s { phase = update s.phase i p })
  set_phase-IsValid s i p v h =
      let t : SingleFlight R = record s { phase = update s.phase i p } in
      let same = λ (q : Phase R). IsServed-mono s t q (λ c a. (a, refl)) (λ c r a e. e) in
      record {
        listed = v.listed;
        in_flight = v.in_flight;
        counted = v.counted;
        served = λ j. IsServed-update t s.phase i j p (same p h) (same (s.phase j) (v.served j));
      }

  pub join-IsValid :
      (s : SingleFlight R) (i : ℕ) (key : Bytes) (o : Option ℕ)
      → lookup key s.calls ≡ o
      → IsValid s
      → IsValid (join i key o s)
  unfolding join
  join-IsValid s i key (some c) e v =
      let (a, (b, _)) = v.listed key c e in set_phase-IsValid s i (waiting key c) v (a, b)
  join-IsValid s i key none e v = record {
    listed = λ j d h.
        ground (arith, lookup-insert key j s.next s.calls, v.listed j d, eq_bytes_iff key j, h);
    in_flight = λ d lt r. ground (
      arith,
      lookup-insert key (s.made d).key s.next s.calls,
      lookup-insert key key s.next s.calls,
      v.in_flight d,
      eq_bytes_iff key (s.made d).key,
      eq_bytes_iff key key,
      lt,
      r,
      e,
    );
    counted = λ d lt. ground (arith, v.counted d, lt);
    served = λ j.
        IsServed-update (join i key none s) s.phase i j (waiting key s.next)
          (omega arith, ground arith)
          (IsServed-mono s (join i key none s) (s.phase j)
            (λ c a. (omega (arith, a), ground (arith, a))) (λ c r a e. ground (arith, a, e))
            (v.served j));
  }
