-- ===== src/Prelude/Exec.antt =====
-- Methods that change a stored state and may throw. A repository hands each write to the database
-- when the method is called, and `save` only waits for them: what was written before a throw stays
-- written, so the state comes back beside an error too.
pub mod Ensures
pub mod Succeeds
use mathlib.Core.Bool.{Bool, true, false}
use mathlib.Core.Option.{Option, none, some}

pub data Result {ℓ} (E A : Type ℓ) : Type ℓ where
  ok : A → Result E A
  err : E → Result E A

abbrev pub Exec {ℓ} : Type ℓ → Type ℓ → Type ℓ → Type ℓ
Exec E S A = S → Result E A × S

module _ {ℓ} {E S A : Type ℓ} where
  unfoldable pub pure : A → Exec E S A
  pure a s = (ok a, s)

  -- `throw`
  unfoldable pub throw : E → Exec E S A
  throw e s = (err e, s)

  unfoldable pub gets : (S → A) → Exec E S A
  gets f s = (ok (f s), s)

  -- the value, or the error where it is undefined
  unfoldable pub require : Option A → E → Exec E S A
  require none e s = (err e, s)
  require (some a) e s = (ok a, s)

module _ {ℓ} {E S A : Type ℓ} where
  -- `if (test) … else …` on actions
  unfoldable pub choose : Bool → Exec E S A → Exec E S A → Exec E S A
  choose true m n = m
  choose false m n = n

module _ {ℓ} {E S : Type ℓ} where
  unfoldable pub modify : (S → S) → Exec E S (Unit {ℓ})
  modify f s = (ok tt, f s)

  -- `if (!test) throw`
  unfoldable pub guard : Bool → E → Exec E S (Unit {ℓ})
  guard true e s = (ok tt, s)
  guard false e s = (err e, s)

module _ {ℓ} {E S A B : Type ℓ} where
  abbrev continue : Result E A → (A → Exec E S B) → Exec E S B
  continue (ok a) f s = f a s
  continue (err e) f s = (err e, s)

  infixl 5 ◌>>=◌
  -- Opening this opens the actions above too.
  unfoldable pub ◌>>=◌ : Exec E S A → (A → Exec E S B) → Exec E S B
  unfolding pure throw gets require modify guard choose
  ◌>>=◌ m f s = let (r, s') = m s in continue r f s'

module _ {ℓ} {E S B : Type ℓ} where
  infixl 5 ◌>>◌
  abbrev pub ◌>>◌ : Exec E S (Unit {ℓ}) → Exec E S B → Exec E S B
  m >> n = m >>= λ _. n
