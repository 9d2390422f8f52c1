-- ===== src/Prelude/Members.antt =====
-- Membership in lists, and loops that work through the records of a stored list one by one.
use Prim.Native.String.{String}
use mathlib.Core.Path.{◌≡◌, refl, ap, sym, subst, ◌∙◌}
use mathlib.Core.Logic.{◌≢◌, ◌⊎◌, inl, inr}
use mathlib.Core.Bool.{Bool, true, false≢true}
use mathlib.Core.List.{List, [], ◌∷◌}
use mathlib.Core.Option.{some}
use text.Mathlib.Text.{◌==◌}
use text.Mathlib.TextEquality.{eq_iff}
use tiny_office.Prelude.Tests.{Bool-cases}
use tiny_office.Prelude.Lists.{filter, find, All, All-map, All-both, upsert, HasDistinctIds}
use tiny_office.Prelude.Sorting.{insert, sort, is_after}
use Prim.Native.Nat.{Ordering}

module _ {A : Type 0} where
  abbrev pub IsIn : A → List A → Type 0
  IsIn a [] = ⊥
  IsIn a (x ∷ xs) = (a ≡ x) ⊎ IsIn a xs

  pub IsIn-insert :
      (order : A → A → Ordering) (a x : A) (ys : List A)
      → (a ≡ x) ⊎ IsIn a ys
      → IsIn a (insert order x ys)
  unfolding insert
  IsIn-insert order a x [] h = h
  IsIn-insert order a x (y ∷ ys) h = elim (Bool-cases (is_after (order x y))) [
    | inl t ↦ rw t (elim h [
      | inl e ↦ inr (IsIn-insert order a x ys (inl e))
      | inr (inl e) ↦ inl e
      | inr (inr m) ↦ inr (IsIn-insert order a x ys (inr m))
    ])
    | inr f ↦ rw f h
  ]

  pub IsIn-sort :
      (order : A → A → Ordering) (a : A) (xs : List A) → IsIn a xs → IsIn a (sort order xs)
  unfolding sort
  IsIn-sort order a [] m = absurd m
  IsIn-sort order a (x ∷ xs) (inl e) = IsIn-insert order a x (sort order xs) (inl e)
  IsIn-sort order a (x ∷ xs) (inr m) =
      IsIn-insert order a x (sort order xs) (inr (IsIn-sort order a xs m))

  pub IsIn-filter :
      (p : A → Bool) (a : A) (xs : List A) → p a ≡ true → IsIn a xs → IsIn a (filter p xs)
  unfolding filter
  IsIn-filter p a [] t m = absurd m
  IsIn-filter p a (x ∷ xs) t (inl e) = rw (ap p (sym e) ∙ t) (inl e)
  IsIn-filter p a (x ∷ xs) t (inr m) = elim (Bool-cases (p x)) [
    | inl u ↦ rw u (inr (IsIn-filter p a xs t m))
    | inr u ↦ rw u (IsIn-filter p a xs t m)
  ]

  -- Every item of a list is in it.
  pub All-IsIn : (xs : List A) → All (λ a. IsIn a xs) xs
  All-IsIn [] = tt
  All-IsIn (x ∷ xs) =
      (inl refl, All-map (λ a. IsIn a xs) (λ a. IsIn a (x ∷ xs)) xs (λ a m. inr m) (All-IsIn xs))

module _ {A : Type 0} (key : A → String) where
  -- The rest of a list with distinct ids, when the record `a` replaces the one with its id.
  pub All-upsert_others :
      (P : A → Type 0) (a : A) (xs : List A)
      → HasDistinctIds key xs
      → All (λ y. key y ≢ key a → P y) xs
      → P a
      → All P (upsert key a xs)
  unfolding upsert
  All-upsert_others P a [] d h p = (p, tt)
  All-upsert_others P a (x ∷ xs) (n, d) (k, h) p = elim (Bool-cases (key x == key a)) [
    | inl t ↦ rw t (
      p,
      All-map _ P xs (λ y (m, l). l (λ e. m (e ∙ sym ((eq_iff (key x) (key a)).0 t))))
          (All-both _ _ xs n h),
    )
    | inr f ↦
        rw f (
          k (λ e. false≢true (sym f ∙ (eq_iff (key x) (key a)).1 e)),
          All-upsert_others P a xs d h p,
        )
  ]

-- A loop over the records `todo` of a stored list: those that matter are finished or still to do.
module _ {A : Type 0} (key : A → String) (Matters Finished : A → Type 0) where
  -- A record that matters is finished or still to do.
  abbrev Waits : List A → A → Type 0
  Waits todo a = Matters a → Finished a ⊎ IsIn a todo

  abbrev pub Covered : List A → List A → Type 0
  Covered todo xs = All (Waits todo) xs

  -- The next record to do is finished as it is.
  pub Covered-skip :
      (x : A) (todo xs : List A) → Finished x → Covered (x ∷ todo) xs → Covered todo xs
  Covered-skip x todo xs f h =
      All-map (Waits (x ∷ todo)) (Waits todo) xs
        (λ a k m. elim (k m) [
          | inl g ↦ inl g
          | inr (inl e) ↦ inl (subst Finished (sym e) f)
          | inr (inr i) ↦ inr i
        ])
        h

  -- The next record to do is replaced by a finished one.
  pub Covered-upsert :
      (x a : A) (todo xs : List A)
      → HasDistinctIds key xs
      → key a ≡ key x
      → Finished a
      → Covered (x ∷ todo) xs
      → Covered todo (upsert key a xs)
  Covered-upsert x a todo xs d same f h =
      All-upsert_others key (Waits todo) a xs d
        (All-map (Waits (x ∷ todo)) (λ y. key y ≢ key a → Waits todo y) xs
          (λ y k n m. elim (k m) [
            | inl g ↦ inl g
            | inr (inl e) ↦ absurd (n (ap key e ∙ sym same))
            | inr (inr i) ↦ inr i
          ])
          h)
        (λ _. inl f)

module _ {A : Type 0} (p : A → Bool) where
  -- A search finds an item when one passes the test.
  pub find-IsIn : (a : A) (xs : List A) → IsIn a xs → p a ≡ true → (x : A) × (find p xs ≡ some x)
  unfolding find
  find-IsIn a [] m t = absurd m
  find-IsIn a (x ∷ xs) m t = elim (Bool-cases (p x)) [
    | inl u ↦ rw u (x, refl)
    | inr u ↦ rw u (elim m [
      | inl e ↦ absurd (false≢true (sym u ∙ ap p (sym e) ∙ t))
      | inr n ↦ find-IsIn a xs n t
    ])
  ]
