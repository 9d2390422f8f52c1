-- ===== src/Prelude/Exec/Ensures.antt =====
-- Invariants of actions: an action keeps `P`, whether it returns or throws, and what it returns
-- satisfies `Q`. One rule for each way to build an action.
use mathlib.Core.Path.{◌≡◌, refl}
use mathlib.Core.Bool.{Bool, true, false}
use mathlib.Core.Option.{Option, none, some}
use tiny_office.Prelude.Exec.{
  Result, ok, err, Exec, pure, throw, gets, require, modify, guard, choose, continue, ◌>>=◌,
}

abbrev pub Returns {ℓ κ} : {E A : Type ℓ} → (A → Type κ) → Result E A → Type κ
Returns Q (ok a) = Q a
Returns Q (err e) = Unit

pub record Ensures {ℓ κ} {E S A : Type ℓ} (P : S → Type κ) (m : Exec E S A) (Q : A → Type κ)
    : Type (ℓ ⊔ κ) where
  pub at : (s : S) → P s → P (m s).1 × Returns Q (m s).0

module _ {ℓ κ} {E S A : Type ℓ} {P : S → Type κ} {Q : A → Type κ} where
  pub Ensures-pure : (a : A) → Q a → Ensures {E = E} P (pure a) Q
  unfolding pure
  Ensures-pure a q = record { at = λ s h. (h, q) }

  pub Ensures-throw : (e : E) → Ensures P (throw e) Q
  unfolding throw
  Ensures-throw e = record { at = λ s h. (h, tt) }

  pub Ensures-gets : (f : S → A) → ((s : S) → P s → Q (f s)) → Ensures {E = E} P (gets f) Q
  unfolding gets
  Ensures-gets f k = record { at = λ s h. (h, k s h) }

  pub Ensures-require :
      (o : Option A) (e : E) → ((a : A) → o ≡ some a → Q a) → Ensures P (require o e) Q
  unfolding require
  Ensures-require none e k = record { at = λ s h. (h, tt) }
  Ensures-require (some a) e k = record { at = λ s h. (h, k a refl) }

  pub Ensures-choose :
      (b : Bool) (m n : Exec E S A)
      → (b ≡ true → Ensures P m Q)
      → (b ≡ false → Ensures P n Q)
      → Ensures P (choose b m n) Q
  unfolding choose
  Ensures-choose true m n km kn = km refl
  Ensures-choose false m n km kn = kn refl

module _ {ℓ} {E S : Type ℓ} {P : S → Type 0} where
  pub Ensures-modify :
      (f : S → S) → ((s : S) → P s → P (f s)) → Ensures {E = E} P (modify f) (λ _. Unit)
  unfolding modify
  Ensures-modify f k = record { at = λ s h. (k s h, tt) }

  pub Ensures-guard : (b : Bool) (e : E) → Ensures P (guard b e) (λ _. b ≡ true)
  unfolding guard
  Ensures-guard true e = record { at = λ s h. (h, refl) }
  Ensures-guard false e = record { at = λ s h. (h, tt) }

module _ {ℓ κ} {E S A B : Type ℓ} {P : S → Type κ} {Q : A → Type κ} {R : B → Type κ} where
  after :
      (r : Result E A) (f : A → Exec E S B) (s : S)
      → P s × Returns Q r
      → ((a : A) → Q a → Ensures P (f a) R)
      → P (continue r f s).1 × Returns R (continue r f s).0
  after (ok a) f s (h, q) k = (k a q).at s h
  after (err e) f s (h, q) k = (h, tt)

  pub Ensures-bind :
      (m : Exec E S A) (f : A → Exec E S B)
      → Ensures P m Q
      → ((a : A) → Q a → Ensures P (f a) R)
      → Ensures P (m >>= f) R
  unfolding ◌>>=◌
  Ensures-bind m f km kf = record { at = λ s h. after (m s).0 f (m s).1 (km.at s h) kf }

module _ {ℓ κ} {E A : Type ℓ} {Q R : A → Type κ} where
  weaken : (r : Result E A) → ((a : A) → Q a → R a) → Returns Q r → Returns R r
  weaken (ok a) k q = k a q
  weaken (err e) k q = tt

module _ {ℓ κ} {E S A : Type ℓ} {P : S → Type κ} {Q R : A → Type κ} where
  -- A weaker claim about the value.
  pub Ensures-map : (m : Exec E S A) → Ensures P m Q → ((a : A) → Q a → R a) → Ensures P m R
  Ensures-map m h k = record { at = λ s p. ((h.at s p).0, weaken (m s).0 k (h.at s p).1) }

any_result {ℓ κ} : {E A : Type ℓ} (r : Result E A) → Returns (λ _. Unit {κ}) r
any_result (ok a) = tt
any_result (err e) = tt

module _ {ℓ κ} {E S A : Type ℓ} {P : S → Type κ} where
  -- No claim about the value.
  pub Ensures-states : (m : Exec E S A) → ((s : S) → P s → P (m s).1) → Ensures P m (λ _. Unit {κ})
  Ensures-states m k = record { at = λ s p. (k s p, any_result (m s).0) }
