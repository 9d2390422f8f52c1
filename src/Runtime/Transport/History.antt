-- ===== src/Runtime/Transport/History.antt =====
-- The state of a session's transports (src/runtime/pi/persistent-pi-transport-state.ts) against the
-- history of what was recorded for it.
use tiny_office.Prelude.{
  ℕ, ◌+◌, suc, String, ◌≡◌, refl, sym, ap, ◌∙◌, Bool, true, false, not, ◌&&◌, Option, none, some,
  List, [], ◌∷◌, inl, inr, length, ◌==◌, eq_iff, leb, find_by, upsert, find_by-upsert,
  if◌then◌else◌, Bool-cases,
}
use tiny_office.Runtime.Transport.{
  Selection, TransportState, Entry, entry_dir, is_sse, fresh, state_of, current_state, cleared,
  failed, state_after_failure, record_transport_success, record_transport_failure,
}

pub data Event : Type 0 where
  succeeded : String → Selection → Event
  broke : String → Selection → ℕ → Event

unfoldable pub recorded : Event → List Entry → List Entry
unfolding record_transport_success record_transport_failure
recorded (succeeded dir selection) states = record_transport_success dir selection states
recorded (broke dir selection now) states = (record_transport_failure dir selection now states).1

-- The states after a history, whose last event comes first.
unfoldable pub states_after : List Event → List Entry
unfolding recorded
states_after [] = []
states_after (event ∷ earlier) = recorded event (states_after earlier)

-- The failures of transports other than the fallback in a session since the last success of one, the
-- last failure first.
unfoldable pub recent_failures : String → List Event → List (Selection × ℕ)
recent_failures dir [] = []
recent_failures dir (succeeded dir' selection ∷ earlier) =
    let rest = recent_failures dir earlier in
    if dir' == dir && not (is_sse selection.effective) then [] else rest
recent_failures dir (broke dir' selection now ∷ earlier) =
    let rest = recent_failures dir earlier in
    if dir' == dir && not (is_sse selection.effective) then (selection, now) ∷ rest else rest

-- The end of the pause that the last failure set which reached the limit of failures in a row.
abbrev pub pause_end : List (Selection × ℕ) → Option ℕ
pause_end [] = none
pause_end ((selection, now) ∷ earlier) =
    if not (is_sse selection.requested) && leb selection.max_failures (suc (length earlier))
    then some (now + selection.cooldown_ms)
    else pause_end earlier

abbrev pub state_for : List (Selection × ℕ) → TransportState
state_for failures = record {
  consecutive_failures = length failures;
  cooldown_until_ms = pause_end failures;
}

current_state-upsert :
    (dir : String) (e : Entry) (states : List Entry)
    → current_state dir (upsert entry_dir e states)
      ≡ (if e.session_dir == dir then e.state else current_state dir states)
unfolding current_state
current_state-upsert dir e states = elim (Bool-cases (e.session_dir == dir)) [
  | inl t ↦ rw (find_by-upsert entry_dir dir e states, t) refl
  | inr f ↦ rw (find_by-upsert entry_dir dir e states, f) refl
]

and-true : (b : Bool) → b && true ≡ b
and-true true = refl
and-true false = refl

current_state-cleared :
    (dir dir' : String) (o : Option Entry) (states : List Entry)
    → find_by entry_dir dir' states ≡ o
    → current_state dir (cleared dir' o states)
      ≡ (if dir' == dir then fresh else current_state dir states)
unfolding current_state
current_state-cleared dir dir' (some e) states found =
    current_state-upsert dir (record { session_dir = dir'; state = fresh }) states
current_state-cleared dir dir' none states found = elim (Bool-cases (dir' == dir)) [
  | inl t ↦ rw t (
      ap (λ d. state_of (find_by entry_dir d states)) (sym ((eq_iff dir' dir).0 t))
      ∙ ap state_of found)
  | inr f ↦ rw f refl
]

recorded-succeeded :
    (dir dir' : String) (selection : Selection) (states : List Entry)
    → current_state dir (record_transport_success dir' selection states) ≡ (
        if dir' == dir && not (is_sse selection.effective) then fresh else current_state dir states)
unfolding record_transport_success
recorded-succeeded dir dir' selection states = elim (Bool-cases (is_sse selection.effective)) [
  | inl t ↦ rw t (elim (Bool-cases (dir' == dir)) [ inl u ↦ rw u refl | inr f ↦ rw f refl ])
  | inr f ↦ rw f (
      current_state-cleared dir dir' (find_by entry_dir dir' states) states refl
      ∙ ap (λ b. if b then fresh else current_state dir states) (sym (and-true (dir' == dir))))
]

recorded-broke :
    (dir dir' : String) (selection : Selection) (now : ℕ) (states : List Entry)
    → current_state dir (record_transport_failure dir' selection now states).1 ≡ (
        if dir' == dir && not (is_sse selection.effective)
        then failed selection now (current_state dir states)
        else current_state dir states)
unfolding record_transport_failure
recorded-broke dir dir' selection now states = elim (Bool-cases (dir' == dir)) [
  | inl t ↦
      current_state-upsert dir _ states
      ∙ rw t (
          ap (λ d. state_after_failure selection now (current_state d states))
            ((eq_iff dir' dir).0 t)
          ∙ elim (Bool-cases (is_sse selection.effective)) [
            | inl u ↦ rw u refl
            | inr f ↦ rw f refl
          ])
  | inr f ↦ current_state-upsert dir _ states ∙ rw f refl
]

no_states-current : (dir : String) → current_state dir [] ≡ fresh
unfolding current_state find_by
no_states-current dir = refl

-- After any history of recorded successes and failures, in any sessions, the state of a session
-- counts the failures of its transports other than the fallback since the last success of one, and
-- keeps the end of the pause that the last of those failures set which reached the limit.
pub states_after-current :
    (dir : String) (events : List Event)
    → current_state dir (states_after events) ≡ state_for (recent_failures dir events)
unfolding states_after recent_failures recorded
states_after-current dir [] = no_states-current dir
states_after-current dir (succeeded dir' selection ∷ earlier) =
    recorded-succeeded dir dir' selection (states_after earlier)
    ∙ elim (Bool-cases (dir' == dir && not (is_sse selection.effective))) [
      | inl t ↦ rw t refl
      | inr f ↦ rw f (states_after-current dir earlier)
    ]
states_after-current dir (broke dir' selection now ∷ earlier) =
    recorded-broke dir dir' selection now (states_after earlier)
    ∙ elim (Bool-cases (dir' == dir && not (is_sse selection.effective))) [
      | inl t ↦ rw t (ap (failed selection now) (states_after-current dir earlier))
      | inr f ↦ rw f (states_after-current dir earlier)
    ]
