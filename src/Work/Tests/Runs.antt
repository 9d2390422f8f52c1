-- ===== src/Work/Tests/Runs.antt =====
-- Tests of src/work/work-service.ts: moves of runs.
use tiny_office.Prelude.{◌≡◌, refl, none, some, [], ◌∷◌, find_by, upsert}
use tiny_office.Prelude.Text.{trim}
use tiny_office.Prelude.Exec.{ok, err}
use tiny_office.Work.Domain.{RunStatus, RunRecord}
use tiny_office.Work.Repository.{Repository, run_id, event_id}
use tiny_office.Work.Environment.{is_required, bad_run_move, evidence_required}
use tiny_office.Work.Service.Runs.{MoveWorkRunInput, moved_run, move_event, move_work_run}
use tiny_office.Work.Service.Runs.Moves.{
  move_refusal, move_work_run-accepted, move_work_run-refused, move_work_run-terminal,
  move_work_run-blank_actor,
}
use tiny_office.Work.Tests.{office, draft, desk, ann-named, blank-unnamed, draft-found}

abbrev finish : MoveWorkRunInput
finish = record {
  work_run_id = "draft";
  actor_member_id = "ann";
  status = RunStatus.done;
  summary = none;
  reason = none;
  evidence = some "Sent on Friday";
}

finish-fine : move_refusal finish (some draft) ≡ none
unfolding move_refusal trim
finish-fine = refl

move_work_run-accepted_example :
    (s' : Repository) × (move_work_run office finish desk ≡ (ok (moved_run 100 finish draft), s'))
    × (s'.runs ≡ upsert run_id (moved_run 100 finish draft) desk.runs)
    × (s'.events ≡ upsert event_id (move_event office finish draft "ann") desk.events)
move_work_run-accepted_example =
    move_work_run-accepted office finish desk draft "ann" draft-found finish-fine ann-named

abbrev nameless : MoveWorkRunInput
nameless = record finish { actor_member_id = " " }

move_work_run-blank_actor_example : move_work_run office nameless desk ≡ (
  err (is_required "actorMemberId"),
  record desk { runs = upsert run_id (moved_run 100 nameless draft) desk.runs },
)
unfolding move_refusal trim
move_work_run-blank_actor_example =
    move_work_run-blank_actor office nameless desk draft draft-found refl blank-unnamed

abbrev sent : RunRecord
sent = record draft {
  status = RunStatus.done;
  completed_at = some 60;
  result_summary = some "Sent";
}

abbrev tidy : Repository
tidy = record desk { runs = sent ∷ [] }

move_work_run-terminal_example :
    move_work_run office finish tidy ≡ (err (bad_run_move RunStatus.done RunStatus.done), tidy)
unfolding find_by
move_work_run-terminal_example = move_work_run-terminal office finish tidy sent refl refl

abbrev unproven : MoveWorkRunInput
unproven = record finish { evidence = none }

move_work_run-refused_example : move_work_run office unproven desk ≡ (err evidence_required, desk)
unfolding find_by move_refusal trim
move_work_run-refused_example = move_work_run-refused office unproven desk evidence_required refl
