-- ===== src/Runtime/Transport.antt =====
-- src/runtime/pi/persistent-pi-transport-state.ts: which transport a session uses, and how failures
-- of a transport put it on the fallback for a while. `Number(raw)` with `Number.isInteger` is a
-- parameter; numbers are exact.
pub mod History
pub mod Selections
pub mod Bounds
pub mod Tests
use tiny_office.Prelude.{
  ℕ, ◌+◌, suc, String, Bool, true, false, Option, none, some, List, [], ◌∷◌, not, ◌&&◌, ◌==◌, eqb,
  leb, ltb, find_by, upsert, or_else, if◌then◌else◌,
}
use tiny_office.Prelude.Text.{optional_text}
use tiny_office.Prelude.Exec.{Exec, pure, throw, gets, modify, choose, ◌>>=◌, ◌>>◌}

-- `PiTransportSetting`
pub data Setting : Type 0 where
  auto sse websocket websocket_cached : Setting

pub data TransportError : Type 0 where
  bad_transport : TransportError
  not_positive not_non_negative : String → TransportError
  -- `toISOString` of a time outside the range of dates
  invalid_time : TransportError

-- `PiTransportState`
pub record TransportState : Type 0 where
  pub consecutive_failures : ℕ
  pub cooldown_until_ms : Option ℕ

-- `PiTransportSelection`
pub record Selection : Type 0 where
  pub requested : Setting
  pub effective : Setting
  pub cooldown_active : Bool
  pub cooldown_until : Option ℕ
  pub consecutive_failures : ℕ
  pub max_failures : ℕ
  pub cooldown_ms : ℕ
  pub websocket_connect_timeout_ms : Option ℕ

-- What `Number(raw)` gives, as the tests on it tell it apart.
pub data Parsed : Type 0 where
  not_integer negative : Parsed
  integer : ℕ → Parsed

-- The variables of the process and the reading of numbers.
pub record ProcessEnvironment : Type 0 where
  pub variable : String → Option String
  pub number : String → Parsed

-- An entry of `transportStates`.
pub record Entry : Type 0 where
  pub session_dir : String
  pub state : TransportState

abbrev pub entry_dir : Entry → String
entry_dir e = e.session_dir

abbrev pub Transport : Type 0 → Type 0
Transport A = Exec TransportError (List Entry) A

abbrev pub is_sse : Setting → Bool
is_sse sse = true
is_sse auto = false
is_sse websocket = false
is_sse websocket_cached = false

abbrev pub setting_of : String → Option Setting
setting_of raw =
    if raw == "auto"
    then some auto
    else if raw == "sse"
    then some sse
    else if raw == "websocket"
    then some websocket
    else if raw == "websocket-cached"
    then some websocket_cached
    else none

abbrev pub known_setting : Option Setting → Transport Setting
known_setting none = throw bad_transport
known_setting (some s) = pure s

abbrev pub setting_for : Option String → Transport Setting
setting_for none = pure auto
setting_for (some raw) = known_setting (setting_of raw)

unfoldable pub resolve_pi_transport : ProcessEnvironment → Transport Setting
resolve_pi_transport env = setting_for (optional_text (env.variable "PI_EMPLOYEE_PI_TRANSPORT"))

abbrev pub positive : String → Parsed → Transport ℕ
positive key (integer n) = choose (eqb n 0) (throw (not_positive key)) (pure n)
positive key negative = throw (not_positive key)
positive key not_integer = throw (not_positive key)

abbrev pub positive_for : ProcessEnvironment → String → ℕ → Option String → Transport ℕ
positive_for env key default_value none = pure default_value
positive_for env key default_value (some raw) = positive key (env.number raw)

unfoldable pub resolve_positive_integer_env : ProcessEnvironment → String → ℕ → Transport ℕ
resolve_positive_integer_env env key default_value =
    positive_for env key default_value (optional_text (env.variable key))

abbrev pub non_negative : String → Parsed → Transport (Option ℕ)
non_negative key (integer n) = pure (some n)
non_negative key negative = throw (not_non_negative key)
non_negative key not_integer = throw (not_non_negative key)

abbrev pub non_negative_for : ProcessEnvironment → String → Option String → Transport (Option ℕ)
non_negative_for env key none = pure none
non_negative_for env key (some raw) = non_negative key (env.number raw)

unfoldable pub resolve_optional_non_negative_integer_env :
    ProcessEnvironment → String → Transport (Option ℕ)
resolve_optional_non_negative_integer_env env key =
    non_negative_for env key (optional_text (env.variable key))

abbrev pub fresh : TransportState
fresh = record { consecutive_failures = 0; cooldown_until_ms = none }

abbrev pub state_of : Option Entry → TransportState
state_of none = fresh
state_of (some e) = e.state

-- `transportStates.get(sessionDir) || { consecutiveFailures: 0 }`
unfoldable pub current_state : String → List Entry → TransportState
current_state dir states = state_of (find_by entry_dir dir states)

abbrev pub is_later : Option ℕ → ℕ → Bool
is_later none now = false
is_later (some until) now = ltb now until

-- `cooldownUntilMs ? new Date(cooldownUntilMs).toISOString() : undefined`
unfoldable pub iso_time : Option ℕ → Transport (Option ℕ)
iso_time none = pure none
iso_time (some t) =
    choose (eqb t 0) (pure none)
      (choose (leb t 8640000000000000) (pure (some t)) (throw invalid_time))

abbrev pub is_cooling : Setting → TransportState → ℕ → Bool
is_cooling requested state now = not (is_sse requested) && is_later state.cooldown_until_ms now

unfoldable pub resolve_transport_selection :
    ProcessEnvironment → String → ℕ → Option Setting → Transport Selection
unfolding resolve_pi_transport resolve_positive_integer_env
    resolve_optional_non_negative_integer_env iso_time
resolve_transport_selection env dir now force_transport = do
  requested ← resolve_pi_transport env
  cooldown_ms ←
      resolve_positive_integer_env env "PI_EMPLOYEE_PI_TRANSPORT_FAILURE_COOLDOWN_MS" 300000
  max_failures ← resolve_positive_integer_env env "PI_EMPLOYEE_PI_TRANSPORT_MAX_FAILURES" 2
  timeout ←
      resolve_optional_non_negative_integer_env env "PI_EMPLOYEE_PI_WEBSOCKET_CONNECT_TIMEOUT_MS"
  state ← gets (current_state dir)
  cooldown_until ← iso_time state.cooldown_until_ms
  pure record {
    requested = requested;
    effective = or_else force_transport (if is_cooling requested state now then sse else requested);
    cooldown_active = is_cooling requested state now;
    cooldown_until = cooldown_until;
    consecutive_failures = state.consecutive_failures;
    max_failures = max_failures;
    cooldown_ms = cooldown_ms;
    websocket_connect_timeout_ms = timeout;
  }

unfoldable pub can_fallback_to_sse : Selection → Bool
can_fallback_to_sse selection = not (is_sse selection.effective) && not (is_sse selection.requested)

abbrev cleared : String → Option Entry → List Entry → List Entry
cleared dir none states = states
cleared dir (some e) states = upsert entry_dir (record { session_dir = dir; state = fresh }) states

unfoldable pub record_transport_success : String → Selection → List Entry → List Entry
record_transport_success dir selection states =
    if is_sse selection.effective then states else cleared dir (find_by entry_dir dir states) states

-- The state after one more failure of a transport other than the fallback.
abbrev pub failed : Selection → ℕ → TransportState → TransportState
failed selection now state =
    let failures = suc state.consecutive_failures in
    record {
      consecutive_failures = failures;
      cooldown_until_ms =
          if not (is_sse selection.requested) && leb selection.max_failures failures
          then some (now + selection.cooldown_ms)
          else state.cooldown_until_ms;
    }

abbrev pub state_after_failure : Selection → ℕ → TransportState → TransportState
state_after_failure selection now state =
    if is_sse selection.effective then state else failed selection now state

unfoldable pub record_transport_failure :
    String → Selection → ℕ → List Entry → TransportState × List Entry
unfolding current_state
record_transport_failure dir selection now states =
    let state = state_after_failure selection now (current_state dir states) in
    (state, upsert entry_dir (record { session_dir = dir; state = state }) states)
