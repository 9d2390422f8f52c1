-- ===== src/Runtime/Transport/Bounds.antt =====
-- The limits that resolveTransportSelection (src/runtime/pi/persistent-pi-transport-state.ts) accepts.
use tiny_office.Prelude.{
  ℕ, ◌≤◌, String, ◌≡◌, refl, Bool, true, false, not, ◌&&◌, Option, none, some, List, inl, inr, eqb,
  leb, Bool-cases, false≢true, ap, sym, ◌∙◌, arith,
}
use tiny_office.Prelude.Text.{optional_text}
use tiny_office.Prelude.Exec.Ensures.{
  Ensures, Returns, Ensures-pure, Ensures-throw, Ensures-gets, Ensures-choose, Ensures-bind,
}
use tiny_office.Runtime.Transport.{
  Setting, ProcessEnvironment, Parsed, integer, negative, not_integer, Selection, Entry, is_sse,
  is_later, iso_time, not_positive, not_non_negative, bad_transport, invalid_time, auto,
  known_setting, setting_for, setting_of, non_negative, non_negative_for, positive, positive_for,
  resolve_pi_transport, resolve_positive_integer_env, resolve_optional_non_negative_integer_env,
  resolve_transport_selection,
}

module _ (states : List Entry) where
  abbrev Same : List Entry → Type 0
  Same s = s ≡ states

  positive-Ensures : (key : String) (p : Parsed) → Ensures Same (positive key p) (λ n. 1 ≤ n)
  positive-Ensures key (integer n) =
      Ensures-choose (eqb n 0) _ _ (λ _. Ensures-throw (not_positive key))
        (λ e. Ensures-pure n (ground arith))
  positive-Ensures key negative = Ensures-throw (not_positive key)
  positive-Ensures key not_integer = Ensures-throw (not_positive key)

  known-Ensures : (o : Option Setting) → Ensures Same (known_setting o) (λ _. Unit)
  known-Ensures none = Ensures-throw bad_transport
  known-Ensures (some s) = Ensures-pure s tt

  positive_for-Ensures :
      (env : ProcessEnvironment) (key : String) (default_value : ℕ) (o : Option String)
      → 1 ≤ default_value
      → Ensures Same (positive_for env key default_value o) (λ n. 1 ≤ n)
  positive_for-Ensures env key d none h = Ensures-pure d h
  positive_for-Ensures env key d (some raw) h = positive-Ensures key (env.number raw)

  iso_time-Ensures : (o : Option ℕ) → Ensures Same (iso_time o) (λ _. Unit)
  unfolding iso_time
  iso_time-Ensures none = Ensures-pure none tt
  iso_time-Ensures (some t) =
      Ensures-choose (eqb t 0) _ _ (λ _. Ensures-pure none tt)
        (λ _.
          Ensures-choose (leb t 8640000000000000) _ _ (λ _. Ensures-pure (some t) tt)
            (λ _. Ensures-throw invalid_time))

  setting-Ensures : (o : Option String) → Ensures Same (setting_for o) (λ _. Unit)
  setting-Ensures none = Ensures-pure auto tt
  setting-Ensures (some raw) = known-Ensures (setting_of raw)

  non_negative-Ensures : (key : String) (p : Parsed) → Ensures Same (non_negative key p) (λ _. Unit)
  non_negative-Ensures key (integer n) = Ensures-pure (some n) tt
  non_negative-Ensures key negative = Ensures-throw (not_non_negative key)
  non_negative-Ensures key not_integer = Ensures-throw (not_non_negative key)

  non_negative_for-Ensures :
      (env : ProcessEnvironment) (key : String) (o : Option String)
      → Ensures Same (non_negative_for env key o) (λ _. Unit)
  non_negative_for-Ensures env key none = Ensures-pure none tt
  non_negative_for-Ensures env key (some raw) = non_negative-Ensures key (env.number raw)

-- A selection has a positive limit of failures and a positive pause, and is in a pause only if the
-- fallback was not requested.
pub record IsBounded (selection : Selection) : Type 0 where
  pub limit : 1 ≤ selection.max_failures
  pub pause : 1 ≤ selection.cooldown_ms
  pub cooling : selection.cooldown_active ≡ true → is_sse selection.requested ≡ false

cooling-requested :
    (requested : Setting) (b : Bool) → not (is_sse requested) && b ≡ true → is_sse requested ≡ false
cooling-requested requested b e = elim (Bool-cases (is_sse requested)) [
  | inl t ↦ absurd (false≢true (ap (λ x. not x && b) (sym t) ∙ e))
  | inr f ↦ f
]

resolve-Ensures :
    (env : ProcessEnvironment) (dir : String) (now : ℕ) (force : Option Setting)
    (states : List Entry)
    → Ensures (Same states) (resolve_transport_selection env dir now force) IsBounded
unfolding resolve_transport_selection resolve_pi_transport resolve_positive_integer_env
    resolve_optional_non_negative_integer_env
resolve-Ensures env dir now force states =
    Ensures-bind _ _
      (setting-Ensures states (optional_text (env.variable "PI_EMPLOYEE_PI_TRANSPORT")))
      λ requested _.
        Ensures-bind _ _ (positive_for-Ensures states env _ 300000 _ (ground arith))
          λ cooldown_ms pause.
            Ensures-bind _ _ (positive_for-Ensures states env _ 2 _ (ground arith))
              λ max_failures limit.
                Ensures-bind _ _ (non_negative_for-Ensures states env _ _) λ timeout _.
                  Ensures-bind {Q = λ _. Unit} _ _ (Ensures-gets _ λ _ _. tt) λ state _.
                    Ensures-bind _ _ (iso_time-Ensures states _) λ cooldown_until _.
                      Ensures-pure _ record {
                        limit = limit;
                        pause = pause;
                        cooling =
                            cooling-requested requested (is_later state.cooldown_until_ms now);
                      }

-- Resolving a selection changes no state, and a selection that it returns has a positive limit of
-- failures and a positive pause, and is in a pause only if the fallback was not requested.
pub resolve_transport_selection-IsBounded :
    (env : ProcessEnvironment) (dir : String) (now : ℕ) (force : Option Setting)
    (states : List Entry)
    → ((resolve_transport_selection env dir now force states).1 ≡ states)
      × Returns IsBounded (resolve_transport_selection env dir now force states).0
resolve_transport_selection-IsBounded env dir now force states =
    (resolve-Ensures env dir now force states).at states refl
