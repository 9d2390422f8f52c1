-- ===== src/Work/Service/Runs/Moves.antt =====
-- What `moveWorkRun` of src/work/work-service.ts does on each of its branches.
use mathlib.Core.Option.{get_or}
use tiny_office.Prelude.{
  ap, String, ◌≡◌, refl, ◌∙◌, Bool, true, false, Option, none, some, not, ◌||◌, ◌&&◌, is_some,
  upsert, if◌then◌else◌,
}
use tiny_office.Prelude.Text.{optional_text}
use tiny_office.Prelude.Exec.{Result, ok, err, require, guard, ◌>>=◌, ◌>>◌}
use tiny_office.Work.Domain.{
  RunStatus, queued, in_progress, blocked, done, failed, RunRecord, same_run_status,
}
use tiny_office.Work.Repository.{
  Repository, run_id, event_id, get_work_run, put_run, update_work_run,
}
use tiny_office.Work.Environment.{
  Environment, Error, is_required, run_not_found, bad_run_move, reason_required, evidence_required,
  require_text,
}
use tiny_office.Work.Service.Runs.Settling.{Holds, complete_move-Ends}
use tiny_office.Work.Service.{is_terminal_run_status, can_move_run, status_reason_field}
use tiny_office.Work.Service.Runs.{
  MoveWorkRunInput, moved_run, move_event, check_move, complete_move, move_work_run,
}

-- Why a move is refused before anything is written: the first rule that it breaks.
unfoldable pub move_refusal : MoveWorkRunInput → Option RunRecord → Option Error
move_refusal input none = some (run_not_found input.work_run_id)
move_refusal input (some run) =
    if not (can_move_run run.status input.status)
    then some (bad_run_move run.status input.status)
    else if status_reason_field input.status && not (is_some (optional_text input.reason))
    then some (reason_required input.status)
    else if same_run_status input.status done && not (is_some (optional_text input.evidence))
    then some evidence_required
    else none

-- What a chain of checks gives that ends in a refusal or in none.
abbrev checked : Option Error → Repository → Result Error Unit × Repository
checked none s = (ok tt, s)
checked (some e) s = (err e, s)

-- Three checks with the answers to their tests.
three_checks :
    (allowed needs_reason reason needs_evidence evidence : Bool) (e1 e2 e3 : Error) (s : Repository)
    → (guard allowed e1
          >> (guard (not needs_reason || reason) e2 >> guard (not needs_evidence || evidence) e3))
        s
      ≡ checked
          (if not allowed
            then some e1
            else if needs_reason && not reason
            then some e2
            else if needs_evidence && not evidence
            then some e3
            else none)
          s
unfolding ◌>>=◌
three_checks false _ _ _ _ e1 e2 e3 s = refl
three_checks true true false _ _ e1 e2 e3 s = refl
three_checks true true true true true e1 e2 e3 s = refl
three_checks true true true true false e1 e2 e3 s = refl
three_checks true true true false _ e1 e2 e3 s = refl
three_checks true false _ true true e1 e2 e3 s = refl
three_checks true false _ true false e1 e2 e3 s = refl
three_checks true false _ false _ e1 e2 e3 s = refl

check_move-checked :
    (input : MoveWorkRunInput) (run : RunRecord) (s : Repository)
    → check_move input run s ≡ checked (move_refusal input (some run)) s
unfolding check_move move_refusal
check_move-checked input run s =
    three_checks (can_move_run run.status input.status) (status_reason_field input.status)
      (is_some (optional_text input.reason)) (same_run_status input.status done)
      (is_some (optional_text input.evidence)) _ _ _ s

-- A move of the run that was looked up.
move_found-checked :
    (env : Environment) (input : MoveWorkRunInput) (s : Repository) (found : Option RunRecord)
    (e : Error)
    → move_refusal input found ≡ some e
    → (require found (run_not_found input.work_run_id) >>= λ run.
          check_move input run >> complete_move env input run)
        s
      ≡ (err e, s)
unfolding ◌>>=◌ move_refusal
move_found-checked env input s none e h = ap (λ o. (err (get_or o e), s)) h
move_found-checked env input s (some run) e h = rw (check_move-checked input run s, h) refl

-- A move that breaks a rule (the run is missing, the status may not follow the run's, or the reason
-- or the evidence that the status asks for is blank) throws the error of the first rule broken, and
-- changes nothing.
pub move_work_run-refused :
    (env : Environment) (input : MoveWorkRunInput) (s : Repository) (e : Error)
    → move_refusal input (get_work_run input.work_run_id s) ≡ some e
    → move_work_run env input s ≡ (err e, s)
unfolding move_work_run ◌>>=◌
move_work_run-refused env input s e h = move_found-checked env input s _ e h

-- No move leaves a final status.
no_move : (from to : RunStatus) → is_terminal_run_status from ≡ true → can_move_run from to ≡ false
no_move queued to e = cc
no_move in_progress to e = cc
no_move blocked to e = cc
no_move done to e = refl
no_move failed to e = refl
no_move RunStatus.canceled to e = refl

-- A run that is done, failed or canceled cannot be moved: every move of it throws and changes
-- nothing.
pub move_work_run-terminal :
    (env : Environment) (input : MoveWorkRunInput) (s : Repository) (run : RunRecord)
    → get_work_run input.work_run_id s ≡ some run
    → is_terminal_run_status run.status ≡ true
    → move_work_run env input s ≡ (err (bad_run_move run.status input.status), s)
unfolding move_refusal
move_work_run-terminal env input s run found ended =
    move_work_run-refused env input s (bad_run_move run.status input.status)
      (rw (found, no_move run.status input.status ended) refl)

-- A move that is not refused, by an actor who is named, returns the moved run. It stores that run in
-- place of the old one and one event with the actor's trimmed id, and no other run or event changes.
pub move_work_run-accepted :
    (env : Environment) (input : MoveWorkRunInput) (s : Repository) (run : RunRecord)
    (actor : String)
    → get_work_run input.work_run_id s ≡ some run
    → move_refusal input (some run) ≡ none
    → optional_text (some input.actor_member_id) ≡ some actor
    → (s' : Repository) × (move_work_run env input s ≡ (ok (moved_run env.now input run), s'))
      × (s'.runs ≡ upsert run_id (moved_run env.now input run) s.runs)
      × (s'.events ≡ upsert event_id (move_event env input run actor) s.events)
unfolding move_work_run Holds ◌>>=◌
move_work_run-accepted env input s run actor found fine named =
    rw (found, check_move-checked input run s, fine)
      (let e = complete_move-Ends env input run s actor named in
        (e.state, e.run ∙ ap (λ u. (ok u, e.state)) e.good, e.holds.0, e.holds.1))

-- A move that is not refused, by an actor whose id is blank, throws `is_required`, yet the moved run
-- has been stored: it has the new status, and there is no event of the move.
pub move_work_run-blank_actor :
    (env : Environment) (input : MoveWorkRunInput) (s : Repository) (run : RunRecord)
    → get_work_run input.work_run_id s ≡ some run
    → move_refusal input (some run) ≡ none
    → optional_text (some input.actor_member_id) ≡ none
    → move_work_run env input s ≡ (
      err (is_required "actorMemberId"),
      record s { runs = upsert run_id (moved_run env.now input run) s.runs },
    )
unfolding move_work_run complete_move update_work_run put_run require_text ◌>>=◌
move_work_run-blank_actor env input s run found fine blank =
    rw (found, check_move-checked input run s, fine, blank) refl
