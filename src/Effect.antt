-- ===== src/Effect.antt =====
-- Go code with state: a computation takes a state and gives the state that it leaves with its
-- result, or with a panic. An `error` is its text; a nil error is `none`.
pub mod Laws
use faas_drl.Base.{◌≡◌, refl, Option, Bool, if◌then◌else◌}
use faas_drl.Base.Bytes.{Bytes}

abbrev pub Error : Type 0
Error = Bytes

pub data Exit (A : Type 0) : Type 0 where
  done : A → Exit A
  panicked : Exit A

abbrev pub M : Type 0 → Type 0 → Type 0
M S A = S → Exit A × S

-- A result that is made of another, or the same panic.
abbrev pub map_exit : {A B : Type 0} → (A → B) → Exit A → Exit B
map_exit f (done a) = done (f a)
map_exit f panicked = panicked

module _ {S : Type 0} where
  abbrev pub pure : {A : Type 0} → A → M S A
  pure a s = (done a, s)

  abbrev pub panic : {A : Type 0} → M S A
  panic s = (panicked, s)

  abbrev pub continue : {A B : Type 0} → Exit A × S → (A → M S B) → Exit B × S
  continue (done a, s) f = f a s
  continue (panicked, s) f = (panicked, s)

  infixl 5 ◌>>=◌ ◌>>◌
  abbrev pub ◌>>=◌ : {A B : Type 0} → M S A → (A → M S B) → M S B
  ◌>>=◌ m f s = continue (m s) f

  abbrev pub ◌>>◌ : {A B : Type 0} → M S A → M S B → M S B
  m >> k = m >>= λ _. k

  -- The two ways in which a computation ends.
  pub data Ends {A : Type 0} (m : Exit A × S) : Type 0 where
    returned : (a : A) (s : S) → m ≡ (done a, s) → Ends m
    crashed : (s : S) → m ≡ (panicked, s) → Ends m

  pub ends : {A : Type 0} (m : Exit A × S) → Ends m
  ends (done a, s) = returned a s refl
  ends (panicked, s) = crashed s refl
