-- ===== src/Prelude/Lists.antt =====
-- Lists searched by Boolean tests, and records kept in a list under their ids.
use Prim.Native.Nat.{ℕ, zero, suc}
use Prim.Native.String.{String}
use mathlib.Core.Path.{◌≡◌, refl, sym, ◌∙◌}
use mathlib.Core.Logic.{◌≢◌, inl, inr}
use mathlib.Core.Bool.{Bool, true, false, false≢true, ◌||◌}
use mathlib.Core.Option.{Option, none, some}
use mathlib.Core.List.{List, [], ◌∷◌, ◌++◌}
use native.Mathlib.Omega.{arith}
use text.Mathlib.Text.{◌==◌}
use text.Mathlib.TextEquality.{eq_iff}
use tiny_office.Prelude.Tests.{if◌then◌else◌, Bool-cases}

module _ {ℓ} {A : Type ℓ} where
  abbrev pub length : List A → ℕ
  length [] = 0
  length (x ∷ xs) = suc (length xs)

  -- `items.find(p)`
  unfoldable pub find : (A → Bool) → List A → Option A
  find p [] = none
  find p (x ∷ xs) = if p x then some x else find p xs

  -- `items.filter(p)`
  unfoldable pub filter : (A → Bool) → List A → List A
  filter p [] = []
  filter p (x ∷ xs) = let rest = filter p xs in if p x then x ∷ rest else rest

  -- `items.some(p)`
  unfoldable pub any : (A → Bool) → List A → Bool
  any p [] = false
  any p (x ∷ xs) = p x || any p xs

  -- `items[0]`
  abbrev pub head? : List A → Option A
  head? [] = none
  head? (x ∷ xs) = some x

  -- `items.slice(0, n)`
  abbrev pub take : ℕ → List A → List A
  take zero xs = []
  take (suc n) [] = []
  take (suc n) (x ∷ xs) = x ∷ take n xs

  -- change the first item that passes the test, in place
  unfoldable pub update_first : (A → Bool) → (A → A) → List A → List A
  update_first p f [] = []
  update_first p f (x ∷ xs) = if p x then f x ∷ xs else x ∷ update_first p f xs

module _ {ℓ κ} {A : Type ℓ} (P : A → Type κ) where
  abbrev pub All : List A → Type κ
  All [] = Unit
  All (x ∷ xs) = P x × All xs

  pub All-append : (xs ys : List A) → All xs → All ys → All (xs ++ ys)
  All-append [] ys h k = k
  All-append (x ∷ xs) ys (p, h) k = (p, All-append xs ys h k)

  pub All-filter : (p : A → Bool) (xs : List A) → All xs → All (filter p xs)
  unfolding filter
  All-filter p [] h = tt
  All-filter p (x ∷ xs) (q, h) = ground (arith, All-filter p xs h)

  pub All-find :
      (p : A → Bool) (xs : List A) (x : A) → All xs → find p xs ≡ some x → P x × (p x ≡ true)
  unfolding find
  All-find p [] x h e = cc
  All-find p (y ∷ xs) x (q, h) e = ground (arith, All-find p xs x h)

pub All-map {ℓ κ μ} :
    {A : Type ℓ} (P : A → Type κ) (Q : A → Type μ) (xs : List A)
    → ((a : A) → P a → Q a)
    → All P xs
    → All Q xs
All-map P Q [] k h = tt
All-map P Q (x ∷ xs) k (p, h) = (k x p, All-map P Q xs k h)

-- What a filter lets through passed its test.
pub All-filter_test {ℓ} :
    {A : Type ℓ} (p : A → Bool) (xs : List A) → All (λ x. p x ≡ true) (filter p xs)
unfolding filter
All-filter_test p [] = tt
All-filter_test p (x ∷ xs) = ground (arith, All-filter_test p xs)

pub All-both {ℓ κ μ} :
    {A : Type ℓ} (P : A → Type κ) (Q : A → Type μ) (xs : List A)
    → All P xs
    → All Q xs
    → All (λ x. P x × Q x) xs
All-both P Q [] h k = tt
All-both P Q (x ∷ xs) (p, h) (q, k) = ((p, q), All-both P Q xs h k)

-- Records that carry an id.
module _ {ℓ} {A : Type ℓ} (key : A → String) where
  -- `upsertById`: replace the record with this id, or add one at the end
  unfoldable pub upsert : A → List A → List A
  upsert a [] = a ∷ []
  upsert a (x ∷ xs) = if key x == key a then a ∷ xs else x ∷ upsert a xs

  -- `items.find((item) => item.id === id)`
  unfoldable pub find_by : String → List A → Option A
  find_by k [] = none
  find_by k (x ∷ xs) = if key x == k then some x else find_by k xs

  pub find_by-upsert :
      (k : String) (a : A) (xs : List A)
      → find_by k (upsert a xs) ≡ (if key a == k then some a else find_by k xs)
  unfolding upsert find_by
  find_by-upsert k a [] = refl
  find_by-upsert k a (x ∷ xs) =
      ground
        (arith, eq_iff (key x) (key a), eq_iff (key x) k, eq_iff (key a) k, find_by-upsert k a xs)

  pub find_by-upsert_same :
      (k : String) (a : A) (xs : List A) → key a ≡ k → find_by k (upsert a xs) ≡ some a
  find_by-upsert_same k a xs e = rw (find_by-upsert k a xs, (eq_iff (key a) k).1 e) refl

  pub find_by-key : (k : String) (xs : List A) (a : A) → find_by k xs ≡ some a → key a ≡ k
  unfolding find_by
  find_by-key k [] a e = cc
  find_by-key k (x ∷ xs) a e = ground (arith, eq_iff (key x) k, find_by-key k xs a)

  module _ {κ} (P : A → Type κ) where
    pub All-upsert : (a : A) (xs : List A) → All P xs → P a → All P (upsert a xs)
    unfolding upsert
    All-upsert a [] h p = (p, tt)
    All-upsert a (x ∷ xs) (q, h) p = ground (arith, All-upsert a xs h p)

    pub All-find_by : (k : String) (xs : List A) (a : A) → All P xs → find_by k xs ≡ some a → P a
    unfolding find_by
    All-find_by k [] a h e = cc
    All-find_by k (x ∷ xs) a (q, h) e = ground (arith, All-find_by k xs a h)

  -- No two records share an id.
  abbrev pub HasDistinctIds : List A → Type 0
  HasDistinctIds [] = Unit
  HasDistinctIds (x ∷ xs) = All (λ y. key y ≢ key x) xs × HasDistinctIds xs

  upsert-Fresh :
      (a : A) (k : String) (xs : List A)
      → All (λ y. key y ≢ k) xs
      → key a ≢ k
      → All (λ y. key y ≢ k) (upsert a xs)
  upsert-Fresh a k xs h p = All-upsert (λ y. key y ≢ k) a xs h p

  pub upsert-HasDistinctIds :
      (a : A) (xs : List A) → HasDistinctIds xs → HasDistinctIds (upsert a xs)
  unfolding upsert
  upsert-HasDistinctIds a [] h = (tt, tt)
  upsert-HasDistinctIds a (x ∷ xs) (q, h) = elim (Bool-cases (key x == key a)) [
    | inl t ↦ rw t (rw (← (eq_iff (key x) (key a)).0 t) q, h)
    | inr f ↦ rw f (
      upsert-Fresh a (key x) xs q (λ e. ground (arith, eq_iff (key x) (key a))),
      upsert-HasDistinctIds a xs h,
    )
  ]

  -- With distinct ids, the record found is the only one with its id.
  pub find_by_unique :
      (k : String) (xs : List A) (x : A)
      → HasDistinctIds xs
      → find_by k xs ≡ some x
      → All (λ a. key a ≡ k → a ≡ x) xs
  unfolding find_by
  find_by_unique k [] x h e = tt
  find_by_unique k (y ∷ xs) x (q, h) e = elim (Bool-cases (key y == k)) [
    | inl t ↦ (
      λ _. ground arith,
      All-map (λ a. key a ≢ key y) (λ a. key a ≡ k → a ≡ x) xs
          (λ a n m. absurd (n (m ∙ sym ((eq_iff (key y) k).0 t)))) q,
    )
    | inr f ↦ (
      λ m. absurd (false≢true (sym f ∙ (eq_iff (key y) k).1 m)),
      find_by_unique k xs x h (ground arith),
    )
  ]
