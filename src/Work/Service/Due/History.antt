-- ===== src/Work/Service/Due/History.antt =====
-- Due runs keep the history of each stored run.
use tiny_office.Prelude.{String, ◌≢◌, Option, none, some}
use tiny_office.Prelude.Exec.Ensures.{Ensures-choose}
use tiny_office.Work.Domain.{Timestamp, Interval, TaskRecord, ScheduleRecord, RunRecord}
use tiny_office.Work.Environment.{Environment}
use tiny_office.Work.History.{
  Keeps, then_do, require-Keeps, guard-Keeps, gets-Keeps, pure-Keeps, notify-Keeps,
  update_work_schedule-Keeps, append_work_run_event-Keeps, create_work_run-Keeps,
  require_text-Keeps, require_active_runtime_member-Keeps,
}
use tiny_office.Work.Service.{
  rule_interval, plus_interval, iso_of, next_after, next_run_at_for_schedule,
}
use tiny_office.Work.Service.Due.{
  CreateDueWorkRunInput, require_due, due_run, create_run_for, reuse_or_create, create_due_work_run,
}

module _ (k : String) (r : RunRecord) where
  iso_of-Keeps : (t : Timestamp) → Keeps k r (iso_of t)
  unfolding iso_of
  iso_of-Keeps t = then_do k r _ _ (guard-Keeps k r _ _) λ _. pure-Keeps k r _

  next_after-Keeps :
      (env : Environment) (o : Option Interval) (due_at : Timestamp)
      → Keeps k r (next_after env o due_at)
  unfolding next_after
  next_after-Keeps env none due_at = pure-Keeps k r _
  next_after-Keeps env (some i) due_at =
      Ensures-choose _ _ _ (λ _. pure-Keeps k r _)
        λ _. then_do k r _ _ (iso_of-Keeps (plus_interval env due_at i)) λ _. pure-Keeps k r _

  next_run_at_for_schedule-Keeps :
      (env : Environment) (c : ScheduleRecord) (due_at : Timestamp)
      → Keeps k r (next_run_at_for_schedule env c due_at)
  unfolding next_run_at_for_schedule
  next_run_at_for_schedule-Keeps env c due_at =
      Ensures-choose _ _ _ (λ _. next_after-Keeps env (rule_interval c.schedule_rule) due_at)
        (λ _. pure-Keeps k r _)

  reuse_or_create-Keeps :
      (env : Environment) (input : CreateDueWorkRunInput) (task : TaskRecord) (c : ScheduleRecord)
      (due_at : Timestamp) (existing : Option RunRecord)
      → env.create_id 0 "work-run" ≢ k
      → Keeps k r (reuse_or_create env input task c due_at existing)
  unfolding reuse_or_create create_run_for due_run
  reuse_or_create-Keeps env input task c due_at (some run) fresh = pure-Keeps k r _
  reuse_or_create-Keeps env input task c due_at none fresh =
      then_do k r _ _ (create_work_run-Keeps k r _ fresh) λ run.
        then_do k r _ _ (require_text-Keeps k r _ _) λ actor.
          then_do k r _ _ (append_work_run_event-Keeps k r _) λ event.
            then_do k r _ _ (gets-Keeps k r _) λ incremented.
              then_do k r _ _ (next_run_at_for_schedule-Keeps env c due_at) λ next.
                then_do k r _ _ (update_work_schedule-Keeps k r _)
                  λ updated. then_do k r _ _ (notify-Keeps k r _) λ _. pure-Keeps k r _

  pub create_due_work_run-Keeps :
      (env : Environment) (input : CreateDueWorkRunInput)
      → env.create_id 0 "work-run" ≢ k
      → Keeps k r (create_due_work_run env input)
  unfolding create_due_work_run require_due
  create_due_work_run-Keeps env input fresh = then_do k r _ _ (gets-Keeps k r _) λ found.
      then_do k r _ _ (require-Keeps k r found _) λ c. then_do k r _ _ (guard-Keeps k r _ _) λ _.
        then_do k r _ _
          (then_do k r _ _ (require-Keeps k r c.next_run_at _)
            λ next. then_do k r _ _ (guard-Keeps k r _ _) λ _. pure-Keeps k r next)
          λ due_at. then_do k r _ _ (gets-Keeps k r _) λ found_task.
            then_do k r _ _ (require-Keeps k r found_task _) λ task.
              then_do k r _ _ (require_active_runtime_member-Keeps k r env _) λ member.
                then_do k r _ _ (gets-Keeps k r _)
                  λ runs. reuse_or_create-Keeps env input task c due_at _ fresh
