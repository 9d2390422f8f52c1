-- ===== src/Prelude/Sorting.antt =====
-- `Array.prototype.sort`, which is stable: insertion by the comparator gives the same list.
use Prim.Native.Nat.{Ordering}
use mathlib.Core.Bool.{Bool, true, false}
use mathlib.Core.List.{List, [], ◌∷◌}
use native.Mathlib.Omega.{arith}
use tiny_office.Prelude.Tests.{if◌then◌else◌}
use tiny_office.Prelude.Lists.{All}

-- `left || right` on comparisons, where 0 is falsy
abbrev pub then_by : Ordering → Ordering → Ordering
then_by Ordering.eq o = o
then_by Ordering.lt o = Ordering.lt
then_by Ordering.gt o = Ordering.gt

abbrev pub is_after : Ordering → Bool
is_after Ordering.gt = true
is_after _ = false

module _ {ℓ} {A : Type ℓ} (order : A → A → Ordering) where
  -- behind the items that are not after `x`… an item already placed before `x` stays before it
  unfoldable pub insert : A → List A → List A
  insert x [] = x ∷ []
  insert x (y ∷ ys) = if is_after (order x y) then y ∷ insert x ys else x ∷ y ∷ ys

  unfoldable pub sort : List A → List A
  unfolding insert
  sort [] = []
  sort (x ∷ xs) = insert x (sort xs)

  pub All-insert {κ} : (P : A → Type κ) (x : A) (ys : List A) → P x → All P ys → All P (insert x ys)
  unfolding insert
  All-insert P x [] p h = (p, tt)
  All-insert P x (y ∷ ys) p (q, h) = ground (arith, All-insert P x ys p h)

  pub All-sort {κ} : (P : A → Type κ) (xs : List A) → All P xs → All P (sort xs)
  unfolding sort
  All-sort P [] h = tt
  All-sort P (x ∷ xs) (p, h) = All-insert P x (sort xs) p (All-sort P xs h)
