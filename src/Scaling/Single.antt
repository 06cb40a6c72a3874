-- ===== src/Scaling/Single.antt =====
-- gateway/scaling/single.go: callers that share the runs of a function. The mutex makes each
-- critical section one step; the steps of callers and runs come in any order.
mod Valid
pub mod Invariant
mod Progress
mod Tests
use faas_drl.Base.{
  ℕ, zero, suc, ◌+◌, ◌-◌, ◌≡◌, Bool, true, false, Option, none, some, List, [], ◌==◌, ltb, is_none,
  ◌&&◌, if◌then◌else◌,
}
use faas_drl.Base.Bytes.{Bytes}
use faas_drl.Effect.{Exit, done, panicked}
use faas_drl.Base.Dict.{Dict, lookup, insert, erase}

-- A `Call`, with the key of its function: the counter of its wait group, and the result, if there
-- is one, which is of the type `SingleFlightResult`.
pub record Call (R : Type 0) : Type 0 where
  pub key : Bytes
  pub wg : ℕ
  pub res : Option R

-- A caller of `Do` with a key: before its critical section, in `wg.Wait()` on a call, behind its
-- return, or in a panic, for a nil result behind the wait.
pub data Phase (R : Type 0) : Type 0 where
  entering : Bytes → Phase R
  waiting : Bytes → ℕ → Phase R
  returned : Bytes → R → Phase R
  crashed : Bytes → Phase R

-- The map of a `SingleFlight`, the calls that were made so far, by number, the callers, and whether
-- the process has exited.
pub record SingleFlight (R : Type 0) : Type 0 where
  pub calls : Dict ℕ
  pub made : ℕ → Call R
  pub next : ℕ
  pub phase : ℕ → Phase R
  pub exited : Bool

-- The critical section of a caller, the end of the run of a call, with its result or in a panic,
-- and what a caller does behind its wait.
pub data Action (R : Type 0) : Type 0 where
  enter : ℕ → Action R
  finish : ℕ → Exit R → Action R
  leave : ℕ → Action R

abbrev pub update {ℓ} : {A : Type ℓ} → (ℕ → A) → ℕ → A → ℕ → A
update f i a j = if i == j then a else f j

module _ {R : Type 0} where
  -- A call in flight is joined; otherwise one is made, with `wg.Add(1)`, and its run started.
  unfoldable pub join : ℕ → Bytes → Option ℕ → SingleFlight R → SingleFlight R
  join i key (some c) s = record s { phase = update s.phase i (waiting key c) }
  join i key none s = record {
    calls = insert key s.next s.calls;
    made = update s.made s.next (record { key = key; wg = 0 + 1; res = none });
    next = suc s.next;
    phase = update s.phase i (waiting key s.next);
    exited = s.exited;
  }

  -- The critical section behind a run that returns, with `wg.Done()`.
  unfoldable pub finished : ℕ → R → SingleFlight R → SingleFlight R
  finished c r s =
      let call = s.made c in
      record s {
        calls = erase call.key s.calls;
        made = update s.made c (record call { wg = call.wg - 1; res = some r });
      }

  -- `none` where the action is not possible.
  unfoldable pub enter_from : ℕ → Phase R → SingleFlight R → Option (SingleFlight R)
  unfolding join
  enter_from i (entering key) s = some (join i key (lookup key s.calls) s)
  enter_from i (waiting key c) s = none
  enter_from i (returned key r) s = none
  enter_from i (crashed key) s = none

  -- `wg.Wait()` ends only at 0; behind it the result is read, and a nil one panics.
  abbrev pub leave_with : ℕ → Bytes → ℕ → Option R → SingleFlight R → Option (SingleFlight R)
  leave_with i key (suc n) res s = none
  leave_with i key zero none s = some (record s { phase = update s.phase i (crashed key) })
  leave_with i key zero (some r) s = some (record s { phase = update s.phase i (returned key r) })

  unfoldable pub leave_from : ℕ → Phase R → SingleFlight R → Option (SingleFlight R)
  leave_from i (entering key) s = none
  leave_from i (waiting key c) s = leave_with i key (s.made c).wg (s.made c).res s
  leave_from i (returned key r) s = none
  leave_from i (crashed key) s = none

  -- A panic of the function is one of its goroutine, which nothing recovers: the process exits.
  abbrev pub end_run : ℕ → Exit R → SingleFlight R → SingleFlight R
  end_run c (done r) s = finished c r s
  end_run c panicked s = record s { exited = true }

  unfoldable pub act : Action R → SingleFlight R → Option (SingleFlight R)
  unfolding enter_from finished leave_from
  act (enter i) s = enter_from i (s.phase i) s
  act (finish c ended) s =
      if ltb c s.next && is_none (s.made c).res then some (end_run c ended s) else none
  act (leave i) s = leave_from i (s.phase i) s

  unfoldable pub step : Action R → SingleFlight R → Option (SingleFlight R)
  unfolding act
  step a s = if s.exited then none else act a s

  -- `NewSingleFlight`, with callers for these keys.
  abbrev pub new_single_flight : Call R → (ℕ → Bytes) → SingleFlight R
  new_single_flight unused keys = record {
    calls = [];
    made = λ c. unused;
    next = 0;
    phase = λ i. entering (keys i);
    exited = false;
  }

  -- The states that some sequence of steps reaches.
  pub data Reached (unused : Call R) (keys : ℕ → Bytes) : SingleFlight R → Type 0 where
    start : Reached unused keys (new_single_flight unused keys)
    then_step :
        (a : Action R) (s t : SingleFlight R)
        → Reached unused keys s
        → step a s ≡ some t
        → Reached unused keys t
