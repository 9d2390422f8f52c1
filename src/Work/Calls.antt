-- ===== src/Work/Calls.antt =====
-- The public operations of `WorkService` that change the stored work, as calls, and a sequence of
-- calls from the empty store.
pub mod Safety
pub mod History
use tiny_office.Prelude.{List, [], ◌∷◌}
use tiny_office.Work.Repository.{Repository}
use tiny_office.Work.Environment.{Environment}
use tiny_office.Work.Service.Create.{CreateWorkInput, create_work}
use tiny_office.Work.Service.Due.{CreateDueWorkRunInput, create_due_work_run}
use tiny_office.Work.Service.Retry.{RetryWorkRunInput, retry_work_run}
use tiny_office.Work.Service.Revise.{ReviseWorkTaskInput, revise_work_task_objective}
use tiny_office.Work.Service.Schedules.{MoveWorkScheduleInput, move_work_schedule}
use tiny_office.Work.Service.Tasks.{
  TaskLifecycleInput, cancel_work_task, archive_work_task, restore_work_task,
}
use tiny_office.Work.Service.Runs.{
  MoveWorkRunInput, move_work_run, RecordEventInput, record_work_run_event,
}

pub data Call : Type 0 where
  create : CreateWorkInput → Call
  start_due : CreateDueWorkRunInput → Call
  retry : RetryWorkRunInput → Call
  revise : ReviseWorkTaskInput → Call
  move_schedule : MoveWorkScheduleInput → Call
  cancel archive restore : TaskLifecycleInput → Call
  move_run : MoveWorkRunInput → Call
  record_event : RecordEventInput → Call

-- The stored work after a call, whether it returned or threw.
unfoldable pub perform : Environment → Call → Repository → Repository
perform env (create input) s = (create_work env input s).1
perform env (start_due input) s = (create_due_work_run env input s).1
perform env (retry input) s = (retry_work_run env input s).1
perform env (revise input) s = (revise_work_task_objective env input s).1
perform env (move_schedule input) s = (move_work_schedule env input s).1
perform env (cancel input) s = (cancel_work_task env input s).1
perform env (archive input) s = (archive_work_task env input s).1
perform env (restore input) s = (restore_work_task env input s).1
perform env (move_run input) s = (move_work_run env input s).1
perform env (record_event input) s = (record_work_run_event env input s).1

unfoldable pub perform_all : List (Environment × Call) → Repository → Repository
unfolding perform
perform_all [] s = s
perform_all ((env, call) ∷ calls) s = perform_all calls (perform env call s)
