-- ===== src/Runtime/Transport/Tests.antt =====
-- Tests of src/runtime/pi/persistent-pi-transport-state.ts.
use tiny_office.Prelude.{◌≡◌, refl, false, none, some, List, [], ◌∷◌, All, arith, if◌then◌else◌}
use tiny_office.Prelude.Exec.{ok, err, pure}
use tiny_office.Prelude.Exec.Ensures.{Returns}
use tiny_office.Runtime.Transport.{
  auto, websocket, ProcessEnvironment, not_integer, Selection, invalid_time, current_state,
  resolve_pi_transport, resolve_positive_integer_env, resolve_optional_non_negative_integer_env,
  resolve_transport_selection,
}
use tiny_office.Runtime.Transport.History.{
  Event, broke, states_after, recent_failures, state_for, pause_end, states_after-current,
}
use tiny_office.Runtime.Transport.Selections.{
  Configuration, IsConfigured, selection_for, is_date, resolve_transport_selection-history,
  resolve_transport_selection-resumes, HasEnded,
}
use tiny_office.Runtime.Transport.Bounds.{IsBounded, resolve_transport_selection-IsBounded}

abbrev plain : ProcessEnvironment
plain = record { variable = λ key. none; number = λ raw. not_integer }

abbrev usual : Configuration
usual = record { requested = auto; cooldown_ms = 300000; max_failures = 2; timeout = none }

usual-IsConfigured : IsConfigured plain usual
unfolding resolve_pi_transport resolve_positive_integer_env
    resolve_optional_non_negative_integer_env pure
usual-IsConfigured = record {
  transport = λ s. refl;
  cooldown = λ s. refl;
  limit = λ s. refl;
  waiting = λ s. refl;
}

abbrev chosen : Selection
chosen = selection_for usual 0 none []

-- Two failures in a row, and one in another session between them.
abbrev failures : List Event
failures = broke "a" chosen 20 ∷ broke "b" chosen 15 ∷ broke "a" chosen 10 ∷ []

paused : recent_failures "a" failures ≡ (chosen, 20) ∷ (chosen, 10) ∷ []
unfolding recent_failures
paused = refl

paused_until : pause_end ((chosen, 20) ∷ (chosen, 10) ∷ []) ≡ some 300020
paused_until = refl

states_after-current_example :
    current_state "a" (states_after failures) ≡ state_for (recent_failures "a" failures)
states_after-current_example = states_after-current "a" failures

resolve_transport_selection-history_example :
    resolve_transport_selection plain "a" 30 none (states_after failures) ≡ (
      if is_date (pause_end (recent_failures "a" failures))
          then ok (selection_for usual 30 none (recent_failures "a" failures))
          else err invalid_time,
      states_after failures,
    )
resolve_transport_selection-history_example =
    resolve_transport_selection-history plain usual "a" failures 30 none usual-IsConfigured

failures-HasEnded : All (HasEnded 300020) (recent_failures "a" failures)
unfolding recent_failures
failures-HasEnded = (ground arith, (ground arith, tt))

resolve_transport_selection-resumes_example :
    (selection : Selection) × (resolve_transport_selection plain "a" 300020 none
        (states_after failures)
      ≡ (ok selection, states_after failures))
    × (selection.effective ≡ auto)
    × (selection.cooldown_active ≡ false)
resolve_transport_selection-resumes_example =
    resolve_transport_selection-resumes plain usual "a" failures 300020 usual-IsConfigured
      failures-HasEnded (ground arith)

resolve_transport_selection-IsBounded_example :
    ((resolve_transport_selection plain "a" 30 (some websocket) []).1 ≡ [])
    × Returns IsBounded (resolve_transport_selection plain "a" 30 (some websocket) []).0
resolve_transport_selection-IsBounded_example =
    resolve_transport_selection-IsBounded plain "a" 30 (some websocket) []
