-- ===== src/Runtime/Transport/Selections.antt =====
-- What resolveTransportSelection (src/runtime/pi/persistent-pi-transport-state.ts) selects after a
-- history of successes and failures.
use tiny_office.Prelude.{
  ℕ, ◌+◌, ◌≤◌, suc, String, ◌≡◌, refl, ap, ◌∙◌, Bool, true, false, not, ◌&&◌, Option, none, some,
  List, [], ◌∷◌, inl, inr, length, eqb, leb, ltb, or_else, if◌then◌else◌, Bool-cases, All, arith,
}
use tiny_office.Prelude.Exec.{ok, err, pure, throw, gets, choose, ◌>>=◌}
use tiny_office.Runtime.Transport.{
  Setting, sse, invalid_time, ProcessEnvironment, Selection, Entry, is_sse, is_later, iso_time,
  resolve_pi_transport, resolve_positive_integer_env, resolve_optional_non_negative_integer_env,
  resolve_transport_selection,
}
use tiny_office.Runtime.Transport.History.{
  Event, states_after, recent_failures, pause_end, states_after-current,
}

-- What the variables of the process ask for.
pub record Configuration : Type 0 where
  pub requested : Setting
  pub cooldown_ms : ℕ
  pub max_failures : ℕ
  pub timeout : Option ℕ

pub record IsConfigured (env : ProcessEnvironment) (c : Configuration) : Type 0 where
  pub transport : (s : List Entry) → resolve_pi_transport env s ≡ (ok c.requested, s)
  pub cooldown :
      (s : List Entry)
      → resolve_positive_integer_env env "PI_EMPLOYEE_PI_TRANSPORT_FAILURE_COOLDOWN_MS" 300000 s
        ≡ (ok c.cooldown_ms, s)
  pub limit :
      (s : List Entry)
      → resolve_positive_integer_env env "PI_EMPLOYEE_PI_TRANSPORT_MAX_FAILURES" 2 s
        ≡ (ok c.max_failures, s)
  pub waiting :
      (s : List Entry)
      → resolve_optional_non_negative_integer_env env "PI_EMPLOYEE_PI_WEBSOCKET_CONNECT_TIMEOUT_MS"
          s
        ≡ (ok c.timeout, s)

-- Dates go up to this time.
abbrev pub last_time : ℕ
last_time = 8640000000000000

abbrev pub is_date : Option ℕ → Bool
is_date none = true
is_date (some t) = leb t 8640000000000000

abbrev pub shown_time : Option ℕ → Option ℕ
shown_time none = none
shown_time (some t) = if eqb t 0 then none else some t

abbrev pub selection_for : Configuration → ℕ → Option Setting → List (Selection × ℕ) → Selection
selection_for c now force failures =
    let cooling = not (is_sse c.requested) && is_later (pause_end failures) now in
    record {
      requested = c.requested;
      effective = or_else force (if cooling then sse else c.requested);
      cooldown_active = cooling;
      cooldown_until = shown_time (pause_end failures);
      consecutive_failures = length failures;
      max_failures = c.max_failures;
      cooldown_ms = c.cooldown_ms;
      websocket_connect_timeout_ms = c.timeout;
    }

small : (t : ℕ) → eqb t 0 ≡ true → leb t 8640000000000000 ≡ true
small t e = ground arith

iso_time-date :
    (o : Option ℕ) (s : List Entry)
    → iso_time o s ≡ (if is_date o then ok (shown_time o) else err invalid_time, s)
unfolding iso_time choose pure throw
iso_time-date none s = refl
iso_time-date (some t) s = elim (Bool-cases (eqb t 0)) [
  | inl z ↦ rw (z, small t z) refl
  | inr n ↦
      rw n (elim (Bool-cases (leb t 8640000000000000)) [ inl u ↦ rw u refl | inr f ↦ rw f refl ])
]

-- With variables that are well set, a session's selection after any history is the forced
-- transport, or the fallback while the pause set by its recent failures lasts, or the one
-- requested; it throws exactly when that pause ends after the last date. No state changes.
pub resolve_transport_selection-history :
    (env : ProcessEnvironment) (c : Configuration) (dir : String) (events : List Event) (now : ℕ)
    (force : Option Setting)
    → IsConfigured env c
    → let failures = recent_failures dir events in
      resolve_transport_selection env dir now force (states_after events) ≡ (
        if is_date (pause_end failures)
            then ok (selection_for c now force failures)
            else err invalid_time,
        states_after events,
      )
unfolding resolve_transport_selection gets pure ◌>>=◌
resolve_transport_selection-history env c dir events now force h =
    rw
      (
        h.transport _,
        h.cooldown _,
        h.limit _,
        h.waiting _,
        states_after-current dir events,
        iso_time-date (pause_end (recent_failures dir events)) (states_after events),
      )
      (elim (Bool-cases (is_date (pause_end (recent_failures dir events)))) [
        | inl t ↦ rw t refl
        | inr f ↦ rw f refl
      ])

-- The pause of this failure would have ended.
abbrev pub HasEnded : ℕ → Selection × ℕ → Type 0
HasEnded now (selection, time) = time + selection.cooldown_ms ≤ now

not_later : (t now : ℕ) → t ≤ now → ltb now t ≡ false
not_later t now h = ground arith

in_range : (t now : ℕ) → t ≤ now → now ≤ last_time → leb t 8640000000000000 ≡ true
in_range t now h r = ground arith

and-false : (b : Bool) → b && false ≡ false
and-false true = refl
and-false false = refl

pause_end-HasEnded :
    (now : ℕ) (failures : List (Selection × ℕ))
    → All (HasEnded now) failures
    → now ≤ last_time
    → (is_later (pause_end failures) now ≡ false) × (is_date (pause_end failures) ≡ true)
pause_end-HasEnded now [] h r = (refl, refl)
pause_end-HasEnded now ((selection, time) ∷ earlier) (e, h) r =
    elim (Bool-cases
      (not (is_sse selection.requested) && leb selection.max_failures (suc (length earlier)))) [
        | inl t ↦ rw t (not_later (time + selection.cooldown_ms) now e, in_range _ now e r)
        | inr f ↦ rw f (pause_end-HasEnded now earlier h r)
      ]

-- With variables that are well set, once the pauses of a session's recent failures have ended, at
-- a time that is a date, a selection that no one forces returns the requested transport again,
-- without a pause, and changes no state.
pub resolve_transport_selection-resumes :
    (env : ProcessEnvironment) (c : Configuration) (dir : String) (events : List Event) (now : ℕ)
    → IsConfigured env c
    → All (HasEnded now) (recent_failures dir events)
    → now ≤ last_time
    → (selection : Selection) × (resolve_transport_selection env dir now none (states_after events)
        ≡ (ok selection, states_after events))
      × (selection.effective ≡ c.requested)
      × (selection.cooldown_active ≡ false)
resolve_transport_selection-resumes env c dir events now h ended r =
    let failures = recent_failures dir events in
    let (early, date) = pause_end-HasEnded now failures ended r in
    (
      selection_for c now none failures,
      resolve_transport_selection-history env c dir events now none h
          ∙ ap
              (λ b. (
                if b then ok (selection_for c now none failures) else err invalid_time,
                states_after events,
              ))
              date,
      ap (λ b. if b then sse else c.requested)
          (ap (λ b. not (is_sse c.requested) && b) early ∙ and-false _),
      ap (λ b. not (is_sse c.requested) && b) early ∙ and-false _,
    )
