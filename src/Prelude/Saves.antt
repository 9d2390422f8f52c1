-- ===== src/Prelude/Saves.antt =====
-- A loop that saves changed records of a stored list one by one, against one pass over the list.
use Prim.Native.String.{String}
use mathlib.Core.Path.{◌≡◌, refl, sym, ap, ◌∙◌}
use mathlib.Core.Logic.{◌≢◌, inl, inr}
use mathlib.Core.Bool.{Bool, false}
use mathlib.Core.Option
use mathlib.Core.List.{List, [], ◌∷◌, map}
use text.Mathlib.Text.{◌==◌}
use text.Mathlib.TextEquality.{eq_iff}
use tiny_office.Prelude.Tests.{if◌then◌else◌, Bool-cases}
use tiny_office.Prelude.Lists.{filter, All, All-filter, find_by, upsert, HasDistinctIds}

-- Every record, changed where it passes the test.
abbrev pub change_where : {A : Type 0} → (A → Bool) → (A → A) → A → A
change_where p change a = if p a then change a else a

module _ {A : Type 0} (key : A → String) where
  abbrev pub save_all : List A → List A → List A
  save_all [] xs = xs
  save_all (a ∷ todo) xs = save_all todo (upsert key a xs)

  differs : (a x : A) → key a ≢ key x → (key a == key x) ≡ false
  differs a x n = elim (Bool-cases (key a == key x)) [
    | inl t ↦ absurd (n ((eq_iff (key a) (key x)).0 t))
    | inr f ↦ f
  ]

  -- Saves of records with other ids do not touch the first record.
  save_all-skip :
      (x : A) (todo xs : List A)
      → All (λ y. key y ≢ key x) todo
      → save_all todo (x ∷ xs) ≡ x ∷ save_all todo xs
  unfolding upsert
  save_all-skip x [] xs h = refl
  save_all-skip x (a ∷ todo) xs (n, h) =
      rw (differs x a (λ e. n (sym e))) (save_all-skip x todo (upsert key a xs) h)

  save_all-first :
      (a x : A) (todo xs : List A)
      → key a ≡ key x
      → save_all (a ∷ todo) (x ∷ xs) ≡ save_all todo (a ∷ xs)
  unfolding upsert
  save_all-first a x todo xs e = rw ((eq_iff (key x) (key a)).1 (sym e)) refl

  module _ (p : A → Bool) (change : A → A) (same : (a : A) → key (change a) ≡ key a) where
    -- The records that pass the test, changed.
    abbrev pub changed : List A → List A
    changed xs = map change (filter p xs)

    changed-Differs :
        (x : A) (xs : List A) → All (λ y. key y ≢ key x) xs → All (λ y. key y ≢ key x) (changed xs)
    unfolding filter
    changed-Differs x [] h = tt
    changed-Differs x (y ∷ xs) (n, h) = elim (Bool-cases (p y)) [
      | inl t ↦ rw t (λ e. n (sym (same y) ∙ e), changed-Differs x xs h)
      | inr f ↦ rw f (changed-Differs x xs h)
    ]

    changed-Distinct : (xs : List A) → HasDistinctIds key xs → HasDistinctIds key (changed xs)
    unfolding filter
    changed-Distinct [] h = tt
    changed-Distinct (x ∷ xs) (n, h) = elim (Bool-cases (p x)) [
      | inl t ↦ rw t (rw (same x) (changed-Differs x xs n), changed-Distinct xs h)
      | inr f ↦ rw f (changed-Distinct xs h)
    ]

    pub save_all-map :
        (xs : List A)
        → HasDistinctIds key xs
        → save_all (changed xs) xs ≡ map (change_where p change) xs
    unfolding filter
    save_all-map [] h = refl
    save_all-map (x ∷ xs) (n, h) = elim (Bool-cases (p x)) [
      | inl t ↦ rw t (
          save_all-first (change x) x (changed xs) xs (same x)
          ∙ save_all-skip (change x) (changed xs) xs (rw (same x) (changed-Differs x xs n))
          ∙ ap (λ rest. change x ∷ rest) (save_all-map xs h))
      | inr f ↦ rw f (
          save_all-skip x (changed xs) xs (changed-Differs x xs n)
          ∙ ap (λ rest. x ∷ rest) (save_all-map xs h))
    ]

    pub change_where-key : (a : A) → key (change_where p change a) ≡ key a
    change_where-key a = elim (Bool-cases (p a)) [ inl t ↦ rw t (same a) | inr f ↦ rw f refl ]

  module _ {κ} (P Q : A → Type κ) (f : A → A) where
    pub All-mapped : (xs : List A) → ((a : A) → P a → Q (f a)) → All P xs → All Q (map f xs)
    All-mapped [] k h = tt
    All-mapped (x ∷ xs) k (p, h) = (k x p, All-mapped xs k h)

  pub map-HasDistinctIds :
      (f : A → A) (xs : List A)
      → ((a : A) → key (f a) ≡ key a)
      → HasDistinctIds key xs
      → HasDistinctIds key (map f xs)
  map-HasDistinctIds f [] same h = tt
  map-HasDistinctIds f (x ∷ xs) same (n, h) = (
    rw (same x) (
        All-mapped (λ y. key y ≢ key x) (λ y. key y ≢ key x) f xs (λ a m e. m (sym (same a) ∙ e))
          n),
    map-HasDistinctIds f xs same h,
  )

  pub filter-HasDistinctIds :
      (p : A → Bool) (xs : List A) → HasDistinctIds key xs → HasDistinctIds key (filter p xs)
  unfolding filter
  filter-HasDistinctIds p [] h = tt
  filter-HasDistinctIds p (x ∷ xs) (n, h) = elim (Bool-cases (p x)) [
    | inl t ↦ rw t (All-filter (λ y. key y ≢ key x) p xs n, filter-HasDistinctIds p xs h)
    | inr f ↦ rw f (filter-HasDistinctIds p xs h)
  ]

  pub find_by-map :
      (f : A → A) (k : String) (xs : List A)
      → ((a : A) → key (f a) ≡ key a)
      → find_by key k (map f xs) ≡ Option.map f (find_by key k xs)
  unfolding find_by
  find_by-map f k [] same = refl
  find_by-map f k (x ∷ xs) same = elim (Bool-cases (key x == k)) [
    | inl t ↦ rw (same x, t) refl
    | inr g ↦ rw (same x, g) (find_by-map f k xs same)
  ]
