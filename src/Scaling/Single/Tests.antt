-- ===== src/Scaling/Single/Tests.antt =====
-- Two callers of one key, and the theorems about them.
use faas_drl.Base.{arith, ℕ, ◌≡◌, ◌⊎◌, refl, none, some, []}
use faas_drl.Effect.{done}
use faas_drl.Base.Bytes.{Bytes, codes}
use faas_drl.Base.Dict.{lookup, insert, erase}
use faas_drl.Scaling.Single.{
  Call, SingleFlight, enter, finish, join, enter_from, step, new_single_flight, Reached, start,
  then_step, act,
}
use faas_drl.Scaling.Single.Valid.{IsValid}
use faas_drl.Scaling.Single.Invariant.{Reached-IsValid}
use faas_drl.Scaling.Single.Progress.{Returnable, waiting-progress, one_in_flight}

abbrev echo : Bytes
echo = codes "echo"

abbrev keys : ℕ → Bytes
keys i = echo

abbrev unused : Call ℕ
unused = record { key = []; wg = 0; res = some 0 }

abbrev both_wait : SingleFlight ℕ
both_wait = join 1 echo (some 0) (join 0 echo none (new_single_flight unused keys))

both_wait_reached : Reached unused keys both_wait
unfolding step act enter_from join lookup insert erase
both_wait_reached =
    then_step (enter 1) (join 0 echo none (new_single_flight unused keys)) both_wait
      (then_step (enter 0) (new_single_flight unused keys)
        (join 0 echo none (new_single_flight unused keys)) start first)
      second
  where
    first :
        step (enter 0) (new_single_flight unused keys)
        ≡ some (join 0 echo none (new_single_flight unused keys))
    first = refl

    second : step (enter 1) (join 0 echo none (new_single_flight unused keys)) ≡ some both_wait
    second = refl

Reached-IsValid_example : IsValid both_wait
Reached-IsValid_example = Reached-IsValid unused keys both_wait both_wait_reached

waiting-progress_example :
    ((r : ℕ) × ((both_wait.made 0).res ≡ some r) × Returnable both_wait 1 echo r)
    ⊎ ((r : ℕ)
        → (t : SingleFlight ℕ) × (step (finish 0 (done r)) both_wait ≡ some t)
          × (lookup echo t.calls ≡ none)
          × Returnable t 1 echo r)
unfolding join
waiting-progress_example =
    waiting-progress unused keys both_wait 1 echo 0 both_wait_reached refl refl

one_in_flight_example : ◌≡◌ {A = ℕ} 0 0
unfolding join
one_in_flight_example =
    one_in_flight unused keys both_wait both_wait_reached 0 0 (omega arith) (omega arith) refl refl
      refl
