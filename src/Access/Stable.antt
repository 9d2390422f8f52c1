-- ===== src/Access/Stable.antt =====
-- Reading a tool guard policy back (src/runtime/company-config/access-policy.ts).
use tiny_office.Prelude.{
  String, ◌≡◌, ◌≢◌, refl, sym, ap, subst, ◌∙◌, Bool, true, false, false≢true, List, [], ◌∷◌, ◌++◌,
  ◌||◌, inl, inr, ◌==◌, eq_iff, any, All, All-append, Bool-cases,
}
use tiny_office.Prelude.Text.{trim}
use tiny_office.Prelude.Text.Trimming.{trim-twice}
use tiny_office.Prelude.Json.{
  Json, undefined, null, bool, number, string, array, object, Items, nil, cons,
}
use tiny_office.Prelude.Exec.{ok, pure, choose}
use tiny_office.Prelude.Exec.Ensures.{Ensures, Ensures-pure, Ensures-throw, Ensures-choose}
use tiny_office.Topics.Participants.{AreDistinct}
use tiny_office.Access.{not_strings, is_skipped, collect, read_strings}

-- A pattern that is trimmed and not empty.
abbrev pub IsPattern : String → Type 0
IsPattern x = (trim x ≡ x) × ((x == "") ≡ false)

-- Patterns without repetition.
abbrev pub ArePatterns : List String → Type 0
ArePatterns xs = AreDistinct xs × All IsPattern xs

not_among : (x : String) (xs : List String) → any (λ y. y == x) xs ≡ false → All (λ y. x ≢ y) xs
unfolding any
not_among x [] e = tt
not_among x (y ∷ xs) e = elim (Bool-cases (y == x)) [
  | inl t ↦ absurd (false≢true (sym e ∙ ap (λ b. b || any (λ z. z == x) xs) t))
  | inr f ↦ (
    λ same. false≢true (sym f ∙ (eq_iff y x).1 (sym same)),
    not_among x xs (sym (ap (λ b. b || any (λ z. z == x) xs) f) ∙ e),
  )
]

append-AreDistinct :
    (x : String) (xs : List String)
    → AreDistinct xs
    → All (λ y. x ≢ y) xs
    → AreDistinct (xs ++ (x ∷ []))
append-AreDistinct x [] h k = (tt, tt)
append-AreDistinct x (y ∷ xs) (n, h) (m, k) =
    (All-append (λ z. z ≢ y) xs (x ∷ []) n (m, tt), append-AreDistinct x xs h k)

two_false : (a b : Bool) → a || b ≡ false → (a ≡ false) × (b ≡ false)
two_false true b e = absurd (false≢true (sym e))
two_false false b e = (refl, e)

not_skipped :
    (result : List String) (t : String)
    → is_skipped result t ≡ false
    → ((t == "") ≡ false) × (any (λ x. x == t) result ≡ false)
not_skipped result t e = two_false (t == "") (any (λ x. x == t) result) e

collect-ArePatterns :
    (label : String) (items : Items) (result : List String)
    → ArePatterns result
    → Ensures (λ _. Unit) (collect label result items) ArePatterns
unfolding collect
collect-ArePatterns label nil result h = Ensures-pure result h
collect-ArePatterns label (cons (string s) rest) result (d, p) =
    Ensures-choose _ _ _ (λ _. collect-ArePatterns label rest result (d, p))
      λ e.
        let (g, n) = not_skipped result (trim s) e in
        collect-ArePatterns label rest (result ++ (trim s ∷ [])) (
          append-AreDistinct (trim s) result d (not_among (trim s) result n),
          All-append IsPattern result (trim s ∷ []) p ((trim-twice s, g), tt),
        )
collect-ArePatterns label (cons undefined rest) result h = Ensures-throw (not_strings label)
collect-ArePatterns label (cons null rest) result h = Ensures-throw (not_strings label)
collect-ArePatterns label (cons (bool b) rest) result h = Ensures-throw (not_strings label)
collect-ArePatterns label (cons (number n) rest) result h = Ensures-throw (not_strings label)
collect-ArePatterns label (cons (array items) rest) result h = Ensures-throw (not_strings label)
collect-ArePatterns label (cons (object fields) rest) result h = Ensures-throw (not_strings label)

pub read_strings-ArePatterns :
    (value : Json) (label : String) → Ensures (λ _. Unit) (read_strings value label) ArePatterns
unfolding read_strings
read_strings-ArePatterns undefined label = Ensures-pure [] (tt, tt)
read_strings-ArePatterns (array items) label = collect-ArePatterns label items [] (tt, tt)
read_strings-ArePatterns null label = Ensures-throw (not_strings label)
read_strings-ArePatterns (bool b) label = Ensures-throw (not_strings label)
read_strings-ArePatterns (number n) label = Ensures-throw (not_strings label)
read_strings-ArePatterns (string s) label = Ensures-throw (not_strings label)
read_strings-ArePatterns (object fields) label = Ensures-throw (not_strings label)

-- The policy, as the value that is stored for it.
abbrev pub items_of : List String → Items
items_of [] = nil
items_of (x ∷ xs) = cons (string x) (items_of xs)

append-nil : (xs : List String) → xs ++ [] ≡ xs
append-nil [] = refl
append-nil (x ∷ xs) = ap (λ rest. x ∷ rest) (append-nil xs)

append_step :
    (xs : List String) (y : String) (ys : List String) → (xs ++ (y ∷ [])) ++ ys ≡ xs ++ (y ∷ ys)
append_step [] y ys = refl
append_step (x ∷ xs) y ys = ap (λ rest. x ∷ rest) (append_step xs y ys)

middle : (x y : String) (result xs : List String) → All (λ z. z ≢ y) (result ++ (x ∷ xs)) → x ≢ y
middle x y [] xs (n, h) = n
middle x y (z ∷ result) xs (n, h) = middle x y result xs h

among_not :
    (x : String) (result xs : List String)
    → AreDistinct (result ++ (x ∷ xs))
    → any (λ y. y == x) result ≡ false
unfolding any
among_not x [] xs h = refl
among_not x (y ∷ result) xs (n, h) = elim (Bool-cases (y == x)) [
  | inl t ↦ absurd (middle x y result xs n (sym ((eq_iff y x).0 t)))
  | inr f ↦ rw f (among_not x result xs h)
]

pub collect-items_of :
    (label : String) (xs result : List String)
    → AreDistinct (result ++ xs)
    → All IsPattern xs
    → collect label result (items_of xs) tt ≡ (ok (result ++ xs), tt)
unfolding collect choose pure
collect-items_of label [] result d p = ap (λ r. (ok r, tt)) (sym (append-nil result))
collect-items_of label (x ∷ xs) result d ((t, g), p) =
    rw (t, g, among_not x result xs d)
      (subst (λ r. collect label (result ++ (x ∷ [])) (items_of xs) tt ≡ (ok r, tt))
        (append_step result x xs)
        (collect-items_of label xs (result ++ (x ∷ []))
          (subst AreDistinct (sym (append_step result x xs)) d) p))
