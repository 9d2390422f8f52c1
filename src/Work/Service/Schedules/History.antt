-- ===== src/Work/Service/Schedules/History.antt =====
-- Moves of schedules keep the history of each stored run.
use tiny_office.Prelude.{String, Option, none, some}
use tiny_office.Prelude.Exec.Ensures.{Ensures-choose}
use tiny_office.Work.Domain.{Timestamp, TaskRecord, RunRecord}
use tiny_office.Work.Environment.{Environment}
use tiny_office.Work.History.{
  Keeps, then_do, require-Keeps, guard-Keeps, gets-Keeps, pure-Keeps, update_work_task-Keeps,
  update_work_schedule-Keeps,
}
use tiny_office.Work.Service.Schedules.{
  MoveWorkScheduleInput, cancel_optional_task, cancel_task_of, change_schedule, move_work_schedule,
}

module _ (k : String) (r : RunRecord) where
  cancel_optional_task-Keeps :
      (now : Timestamp) (reason : Option String) (task : Option TaskRecord)
      → Keeps k r (cancel_optional_task now reason task)
  unfolding cancel_optional_task
  cancel_optional_task-Keeps now reason none = pure-Keeps k r tt
  cancel_optional_task-Keeps now reason (some task) =
      then_do k r _ _ (update_work_task-Keeps k r _) λ _. pure-Keeps k r tt

  pub move_work_schedule-Keeps :
      (env : Environment) (input : MoveWorkScheduleInput) → Keeps k r (move_work_schedule env input)
  unfolding move_work_schedule change_schedule cancel_task_of
  move_work_schedule-Keeps env input = then_do k r _ _ (gets-Keeps k r _) λ found.
      then_do k r _ _ (require-Keeps k r found _) λ c.
        Ensures-choose _ _ _ (λ _. pure-Keeps k r c)
          λ _. then_do k r _ _ (guard-Keeps k r _ _) λ _.
            then_do k r _ _ (update_work_schedule-Keeps k r _) λ updated.
              then_do k r _ _
                (Ensures-choose _ _ _
                  (λ _.
                    then_do k r _ _ (gets-Keeps k r _) λ task. cancel_optional_task-Keeps _ _ task)
                  (λ _. pure-Keeps k r tt))
                λ _. pure-Keeps k r updated
