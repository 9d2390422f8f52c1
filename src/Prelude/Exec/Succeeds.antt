-- ===== src/Prelude/Exec/Succeeds.antt =====
-- Total correctness of actions: from a state in `P` the action returns, without a throw, a value in
-- `Q`, and leaves a state in `P`. One rule for each way to build an action that does not throw.
use mathlib.Core.Path.{◌≡◌, refl}
use mathlib.Core.Bool.{Bool, true, false}
use mathlib.Core.Option.{Option, some}
use tiny_office.Prelude.Exec.{Result, ok, Exec, pure, gets, modify, require, guard, choose, ◌>>=◌}

-- The run of `m` from `s` ends in a value in `Q` and a state in `P`.
pub record Ends {ℓ κ} {E S A : Type ℓ} (P : S → Type κ) (Q : A → Type κ) (r : Result E A × S)
    : Type (ℓ ⊔ κ) where
  pub value : A
  pub state : S
  pub run : r ≡ (ok value, state)
  pub holds : P state
  pub good : Q value

pub record Succeeds {ℓ κ} {E S A : Type ℓ} (P : S → Type κ) (m : Exec E S A) (Q : A → Type κ)
    : Type (ℓ ⊔ κ) where
  pub at : (s : S) → P s → Ends P Q (m s)

module _ {ℓ κ} {E S A : Type ℓ} {P : S → Type κ} {Q : A → Type κ} where
  pub Succeeds-pure : (a : A) → Q a → Succeeds {E = E} P (pure a) Q
  unfolding pure
  Succeeds-pure a q = record {
    at = λ s h. record { value = a; state = s; run = refl; holds = h; good = q };
  }

  pub Succeeds-gets : (f : S → A) → ((s : S) → P s → Q (f s)) → Succeeds {E = E} P (gets f) Q
  unfolding gets
  Succeeds-gets f k = record {
    at = λ s h. record { value = f s; state = s; run = refl; holds = h; good = k s h };
  }

  pub Succeeds-choose :
      (b : Bool) (m n : Exec E S A)
      → (b ≡ true → Succeeds P m Q)
      → (b ≡ false → Succeeds P n Q)
      → Succeeds P (choose b m n) Q
  unfolding choose
  Succeeds-choose true m n km kn = km refl
  Succeeds-choose false m n km kn = kn refl

module _ {ℓ} {E S A : Type ℓ} {P : S → Type ℓ} where
  pub Succeeds-require :
      (o : Option A) (e : E) (a : A) → o ≡ some a → Succeeds P (require o e) (λ x. x ≡ a)
  unfolding require
  Succeeds-require o e a k =
      rw k
        record { at = λ s h. record { value = a; state = s; run = refl; holds = h; good = refl } }

module _ {ℓ κ} {E S : Type ℓ} {P : S → Type κ} where
  pub Succeeds-guard : (b : Bool) (e : E) → b ≡ true → Succeeds P (guard b e) (λ _. Unit {κ})
  unfolding guard
  Succeeds-guard b e k =
      rw k record { at = λ s h. record { value = tt; state = s; run = refl; holds = h; good = tt } }

  pub Succeeds-modify :
      (f : S → S) → ((s : S) → P s → P (f s)) → Succeeds {E = E} P (modify f) (λ _. Unit {κ})
  unfolding modify
  Succeeds-modify f k = record {
    at = λ s h. record { value = tt; state = f s; run = refl; holds = k s h; good = tt };
  }

module _ {ℓ κ} {E S A B : Type ℓ} {O P : S → Type κ} {Q : A → Type κ} {R : B → Type κ} where
  -- The rest of a do block, after a first action that returned.
  pub Ends-bind :
      (m : Exec E S A) (f : A → Exec E S B) (s : S)
      → (e : Ends O Q (m s)) → Ends P R (f e.value e.state)
      → Ends P R ((m >>= f) s)
  unfolding ◌>>=◌
  Ends-bind m f s e k = rw e.run k

module _ {ℓ κ} {E S A B : Type ℓ} {P : S → Type κ} {Q : A → Type κ} {R : B → Type κ} where
  pub Succeeds-bind :
      (m : Exec E S A) (f : A → Exec E S B)
      → Succeeds P m Q
      → ((a : A) → Q a → Succeeds P (f a) R)
      → Succeeds P (m >>= f) R
  Succeeds-bind m f km kf = record {
    at = λ s h. let e = km.at s h in Ends-bind m f s e ((kf e.value e.good).at e.state e.holds);
  }
