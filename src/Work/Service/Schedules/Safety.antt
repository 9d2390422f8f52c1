-- ===== src/Work/Service/Schedules/Safety.antt =====
-- Pausing, enabling and canceling a schedule keep the stored work well-formed.
use tiny_office.Prelude.{String, Option, none, some, arith}
use tiny_office.Prelude.Exec.Ensures.{Ensures-pure, Ensures-choose, Ensures-bind}
use tiny_office.Work.Domain.{Timestamp, TaskRecord, ScheduleRecord}
use tiny_office.Work.Environment.{Environment}
use tiny_office.Work.Invariant.{IsScheduleValid, IsTaskValid, Safe}
use tiny_office.Work.Invariant.Writes.{
  get_work_task-Safe, get_work_schedule-Safe, update_work_task-Safe, update_work_schedule-Safe,
}
use tiny_office.Work.Invariant.Checks.{require-Safe, guard-Safe}
use tiny_office.Work.Service.Schedules.{
  MoveWorkScheduleInput, moved_schedule, canceled_task, cancel_optional_task, change_schedule,
  move_work_schedule,
}

moved_schedule-IsScheduleValid :
    (now : Timestamp) (input : MoveWorkScheduleInput) (c : ScheduleRecord)
    → IsScheduleValid (moved_schedule now input c)
unfolding moved_schedule
moved_schedule-IsScheduleValid now input c = ground arith

pub canceled_task-IsTaskValid :
    (now : Timestamp) (reason : Option String) (t : TaskRecord)
    → IsTaskValid (canceled_task now reason t)
unfolding canceled_task
canceled_task-IsTaskValid now reason t = ground arith

cancel_optional_task-Safe :
    (now : Timestamp) (reason : Option String) (t : Option TaskRecord)
    → Safe (cancel_optional_task now reason t) (λ _. Unit)
unfolding cancel_optional_task
cancel_optional_task-Safe now reason none = Ensures-pure _ tt
cancel_optional_task-Safe now reason (some t) =
    Ensures-bind _ _ (update_work_task-Safe _ (canceled_task-IsTaskValid now reason t))
      λ _ _. Ensures-pure _ tt

change_schedule-Safe :
    (env : Environment) (input : MoveWorkScheduleInput) (c : ScheduleRecord)
    → Safe (change_schedule env input c) (λ _. Unit)
unfolding change_schedule
change_schedule-Safe env input c = Ensures-bind _ _ (guard-Safe _ _) λ _ _.
    Ensures-bind _ _ (update_work_schedule-Safe _ (moved_schedule-IsScheduleValid env.now input c))
      λ _ _.
        Ensures-bind _ _
          (Ensures-choose _ _ _
            (λ _.
              Ensures-bind _ _ (get_work_task-Safe _) λ t _. cancel_optional_task-Safe env.now _ t)
            (λ _. Ensures-pure _ tt))
          λ _ _. Ensures-pure _ tt

pub move_work_schedule-Safe :
    (env : Environment) (input : MoveWorkScheduleInput)
    → Safe (move_work_schedule env input) (λ _. Unit)
unfolding move_work_schedule
move_work_schedule-Safe env input = Ensures-bind _ _ (get_work_schedule-Safe _) λ found f.
    Ensures-bind _ _ (require-Safe IsScheduleValid found _ f)
      λ c _. Ensures-choose _ _ _ (λ _. Ensures-pure _ tt) (λ _. change_schedule-Safe env input c)
