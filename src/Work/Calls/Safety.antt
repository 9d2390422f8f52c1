-- ===== src/Work/Calls/Safety.antt =====
-- The stored work is well-formed after any sequence of calls.
use tiny_office.Prelude.{List, [], ◌∷◌}
use tiny_office.Work.Repository.{Repository, empty}
use tiny_office.Work.Environment.{Environment}
use tiny_office.Work.Service.Create.Safety.{create_work-Safe}
use tiny_office.Work.Service.Due.Safety.{create_due_work_run-Safe}
use tiny_office.Work.Service.Retry.Safety.{retry_work_run-Safe}
use tiny_office.Work.Service.Revise.Safety.{revise_work_task_objective-Safe}
use tiny_office.Work.Service.Schedules.Safety.{move_work_schedule-Safe}
use tiny_office.Work.Service.Tasks.Safety.{
  cancel_work_task-Safe, archive_work_task-Safe, restore_work_task-Safe,
}
use tiny_office.Work.Service.Runs.Safety.{move_work_run-Safe, record_work_run_event-Safe}
use tiny_office.Work.Invariant.{IsWellFormed}
use tiny_office.Work.Calls.{
  Call, create, start_due, retry, revise, move_schedule, cancel, archive, restore, move_run,
  record_event, perform, perform_all,
}

perform-IsWellFormed :
    (env : Environment) (call : Call) (s : Repository)
    → IsWellFormed s
    → IsWellFormed (perform env call s)
unfolding perform
perform-IsWellFormed env (create input) s h = ((create_work-Safe env input).at s h).0
perform-IsWellFormed env (start_due input) s h = ((create_due_work_run-Safe env input).at s h).0
perform-IsWellFormed env (retry input) s h = ((retry_work_run-Safe env input).at s h).0
perform-IsWellFormed env (revise input) s h = ((revise_work_task_objective-Safe env input).at s h).0
perform-IsWellFormed env (move_schedule input) s h = ((move_work_schedule-Safe env input).at s h).0
perform-IsWellFormed env (cancel input) s h = ((cancel_work_task-Safe env input).at s h).0
perform-IsWellFormed env (archive input) s h = ((archive_work_task-Safe env input).at s h).0
perform-IsWellFormed env (restore input) s h = ((restore_work_task-Safe env input).at s h).0
perform-IsWellFormed env (move_run input) s h = ((move_work_run-Safe env input).at s h).0
perform-IsWellFormed env (record_event input) s h =
    ((record_work_run_event-Safe env input).at s h).0

perform_all_from-IsWellFormed :
    (calls : List (Environment × Call)) (s : Repository)
    → IsWellFormed s
    → IsWellFormed (perform_all calls s)
unfolding perform_all
perform_all_from-IsWellFormed [] s h = h
perform_all_from-IsWellFormed ((env, call) ∷ calls) s h =
    perform_all_from-IsWellFormed calls (perform env call s) (perform-IsWellFormed env call s h)

-- After any sequence of calls from the empty store, whether they returned or threw, the stored work
-- is well-formed: ids are distinct in every list; a run has an end time exactly when its status is
-- final, a start time once it has been in progress, and the reason or result that its status asks
-- for; a schedule has an end time exactly when it is completed or canceled; a task that is not
-- active has an end time, and an archived one can be restored to a status that is not active.
pub perform_all-IsWellFormed :
    (calls : List (Environment × Call)) → IsWellFormed (perform_all calls empty)
perform_all-IsWellFormed calls = perform_all_from-IsWellFormed calls empty (record {
  tasks = tt;
  schedules = tt;
  runs = tt;
  task_ids = tt;
  revision_ids = tt;
  schedule_ids = tt;
  run_ids = tt;
  event_ids = tt;
})
