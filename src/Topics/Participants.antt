-- ===== src/Topics/Participants.antt =====
-- The participants of a normalised channel topic (src/channel-topics/domain/channel-topic-normalization.ts).
use tiny_office.Prelude.{
  String, ◌≡◌, ◌≢◌, refl, sym, ap, ◌∙◌, Bool, true, not, false≢true, List, [], ◌∷◌, inl, inr, ◌==◌,
  eq_iff, filter, All, All-filter, All-filter_test, All-map, Bool-cases,
}
use tiny_office.Topics.Domain.{is_not, distinct}

-- No text occurs twice.
abbrev pub AreDistinct : List String → Type 0
AreDistinct [] = Unit
AreDistinct (x ∷ xs) = All (λ y. y ≢ x) xs × AreDistinct xs

filter-AreDistinct :
    (p : String → Bool) (xs : List String) → AreDistinct xs → AreDistinct (filter p xs)
unfolding filter
filter-AreDistinct p [] h = tt
filter-AreDistinct p (x ∷ xs) (n, h) = elim (Bool-cases (p x)) [
  | inl t ↦ rw t (All-filter (λ y. y ≢ x) p xs n, filter-AreDistinct p xs h)
  | inr f ↦ rw f (filter-AreDistinct p xs h)
]

is_not-Differs : (x y : String) → is_not x y ≡ true → y ≢ x
is_not-Differs x y e same = false≢true (sym (ap not ((eq_iff y x).1 same)) ∙ e)

pub distinct-AreDistinct : (xs : List String) → AreDistinct (distinct xs)
unfolding distinct
distinct-AreDistinct [] = tt
distinct-AreDistinct (x ∷ xs) = (
  All-map (λ y. is_not x y ≡ true) (λ y. y ≢ x) _ (is_not-Differs x)
      (All-filter_test (is_not x) (distinct xs)),
  filter-AreDistinct (is_not x) (distinct xs) (distinct-AreDistinct xs),
)

filter-All : (p : String → Bool) (xs : List String) → All (λ y. p y ≡ true) xs → filter p xs ≡ xs
unfolding filter
filter-All p [] h = refl
filter-All p (x ∷ xs) (t, h) = rw t (ap (λ rest. x ∷ rest) (filter-All p xs h))

differs-is_not : (x y : String) → y ≢ x → is_not x y ≡ true
differs-is_not x y n = elim (Bool-cases (y == x)) [
  | inl t ↦ absurd (n ((eq_iff y x).0 t))
  | inr f ↦ ap not f
]

-- Distinct texts stay as they are.
pub distinct-fixed : (xs : List String) → AreDistinct xs → distinct xs ≡ xs
unfolding distinct
distinct-fixed [] h = refl
distinct-fixed (x ∷ xs) (n, h) = rw (distinct-fixed xs h) (
    ap (λ rest. x ∷ rest)
      (filter-All (is_not x) xs (All-map (λ y. y ≢ x) _ xs (differs-is_not x) n)))

filter-own :
    (x : String) (xs : List String)
    → filter (is_not x) (x ∷ filter (is_not x) xs) ≡ filter (is_not x) xs
unfolding filter
filter-own x xs =
    rw ((eq_iff x x).1 refl)
      (filter-All (is_not x) (filter (is_not x) xs) (All-filter_test (is_not x) xs))

-- A text that is put before the distinct texts whose first it is.
pub distinct-repeat :
    (x : String) (xs : List String) → distinct (x ∷ distinct (x ∷ xs)) ≡ distinct (x ∷ xs)
unfolding distinct
distinct-repeat x xs =
    ap (λ ys. x ∷ filter (is_not x) ys)
      (distinct-fixed (distinct (x ∷ xs)) (distinct-AreDistinct (x ∷ xs)))
    ∙ ap (λ ys. x ∷ ys) (filter-own x (distinct xs))
