-- ===== src/Work/Service/Schedules.antt =====
-- `moveWorkSchedule` of src/work/work-service.ts.
pub mod Safety
pub mod History
use tiny_office.Prelude.{
  String, Bool, true, false, Option, none, some, List, [], ◌∷◌, if◌then◌else◌,
}
use tiny_office.Prelude.Text.{optional_text}
use tiny_office.Prelude.Exec.{Exec, pure, throw, gets, require, guard, choose, ◌>>=◌, ◌>>◌}
use tiny_office.Work.Domain.{
  Timestamp, TaskStatus, ScheduleStatus, enabled, paused, TaskRecord, ScheduleRecord,
  same_schedule_status,
}
use tiny_office.Work.Repository.{
  get_work_task, get_work_schedule, update_work_task, update_work_schedule,
}
use tiny_office.Work.Environment.{Environment, Work, schedule_not_found, bad_schedule_move}
use tiny_office.Work.Service.{can_move_schedule}

-- The statuses that a caller may ask for.
pub data RequestedStatus : Type 0 where
  enable pause cancel : RequestedStatus

abbrev pub requested : RequestedStatus → ScheduleStatus
requested enable = enabled
requested pause = paused
requested cancel = ScheduleStatus.canceled

abbrev is_pause : RequestedStatus → Bool
is_pause pause = true
is_pause _ = false

abbrev is_cancel : RequestedStatus → Bool
is_cancel cancel = true
is_cancel _ = false

pub record MoveWorkScheduleInput : Type 0 where
  pub work_schedule_id : String
  pub actor_member_id : String
  pub status : RequestedStatus
  pub reason : Option String

unfoldable pub moved_schedule : Timestamp → MoveWorkScheduleInput → ScheduleRecord → ScheduleRecord
moved_schedule now input c =
    let reason = optional_text input.reason in
    record c {
      status = requested input.status;
      paused_reason = if is_pause input.status then reason else none;
      canceled_reason = if is_cancel input.status then reason else none;
      completed_at = if is_cancel input.status then some now else none;
      updated_at = now;
    }

unfoldable pub canceled_task : Timestamp → Option String → TaskRecord → TaskRecord
canceled_task now reason task = record task {
  status = TaskStatus.canceled;
  canceled_reason = reason;
  completed_at = some now;
  updated_at = now;
}

cancel_optional_task : Timestamp → Option String → Option TaskRecord → Work Unit
cancel_optional_task now reason none = pure tt
cancel_optional_task now reason (some task) = do
  updated ← update_work_task (canceled_task now reason task)
  pure tt

cancel_task_of : Timestamp → Option String → String → Work Unit
unfolding cancel_optional_task
cancel_task_of now reason work_task_id = do
  task ← gets (get_work_task work_task_id)
  cancel_optional_task now reason task

change_schedule : Environment → MoveWorkScheduleInput → ScheduleRecord → Work ScheduleRecord
unfolding cancel_task_of moved_schedule
change_schedule env input c = do
  guard (can_move_schedule c.status (requested input.status))
      (bad_schedule_move c.status (requested input.status))
  updated ← update_work_schedule (moved_schedule env.now input c)
  choose (is_cancel input.status)
      (cancel_task_of env.now (optional_text input.reason) c.work_task_id) (pure tt)
  pure updated

-- `moveWorkSchedule`
unfoldable pub move_work_schedule : Environment → MoveWorkScheduleInput → Work ScheduleRecord
unfolding change_schedule
move_work_schedule env input = do
  found ← gets (get_work_schedule input.work_schedule_id)
  c ← require found (schedule_not_found input.work_schedule_id)
  choose (same_schedule_status c.status (requested input.status)) (pure c)
      (change_schedule env input c)
