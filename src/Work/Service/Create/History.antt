-- ===== src/Work/Service/Create/History.antt =====
-- New work keep the history of each stored run.
use tiny_office.Prelude.{String, ◌≢◌, Option, none, some}
use tiny_office.Prelude.Exec.Ensures.{Ensures-choose}
use tiny_office.Work.Domain.{Timestamp, TriggerKind, TaskRecord, ScheduleRecord, RunRecord}
use tiny_office.Work.Environment.{Environment}
use tiny_office.Work.History.{
  Keeps, then_do, guard-Keeps, gets-Keeps, pure-Keeps, notify-Keeps, create_work_task-Keeps,
  create_work_schedule-Keeps, append_work_run_event-Keeps, create_work_run-Keeps,
  require_text-Keeps, require_iso_timestamp-Keeps, require_active_runtime_member-Keeps,
}
use tiny_office.Work.Service.Create.{
  TriggerInput, CreateWorkInput, validate_kind, validate_trigger_kind, validate_work_trigger,
  scheduled_time, immediate_run, create_optional_schedule, create_immediate_run,
  create_optional_run, notify_optional_run, stored_schedule, create_work,
}

module _ (k : String) (r : RunRecord) where
  validate_kind-Keeps :
      (env : Environment) (trigger : TriggerInput) (kind : TriggerKind)
      → Keeps k r (validate_kind env trigger kind)
  unfolding validate_kind
  validate_kind-Keeps env trigger TriggerKind.immediate = pure-Keeps k r tt
  validate_kind-Keeps env trigger TriggerKind.scheduled_once =
      then_do k r _ _ (require_iso_timestamp-Keeps k r env _ _) λ _. pure-Keeps k r tt
  validate_kind-Keeps env trigger TriggerKind.recurring =
      then_do k r _ _ (require_iso_timestamp-Keeps k r env _ _) λ _. guard-Keeps k r _ _

  scheduled_time-Keeps :
      (env : Environment) (trigger : TriggerInput) → Keeps k r (scheduled_time env trigger)
  unfolding scheduled_time
  scheduled_time-Keeps env trigger =
      Ensures-choose _ _ _
        (λ _.
          then_do k r _ _ (require_iso_timestamp-Keeps k r env _ _) λ t. pure-Keeps k r (some t))
        (λ _. pure-Keeps k r none)

  create_optional_schedule-Keeps :
      (env : Environment) (input : CreateWorkInput) (at : Option Timestamp) (task : TaskRecord)
      → Keeps k r (create_optional_schedule env input at task)
  unfolding create_optional_schedule
  create_optional_schedule-Keeps env input at task =
      Ensures-choose _ _ _
        (λ _. then_do k r _ _ (create_work_schedule-Keeps k r _) λ c. pure-Keeps k r (some c))
        (λ _. pure-Keeps k r none)

  create_optional_run-Keeps :
      (env : Environment) (input : CreateWorkInput) (task : TaskRecord)
      → env.create_id 1 "work-run" ≢ k
      → Keeps k r (create_optional_run env input task)
  unfolding create_optional_run create_immediate_run immediate_run
  create_optional_run-Keeps env input task fresh =
      Ensures-choose _ _ _
        (λ _.
          then_do k r _ _ (create_work_run-Keeps k r _ fresh) λ run.
            then_do k r _ _ (append_work_run_event-Keeps k r _) λ _. pure-Keeps k r (some run))
        (λ _. pure-Keeps k r none)

  notify_optional_run-Keeps : (run : Option RunRecord) → Keeps k r (notify_optional_run run)
  unfolding notify_optional_run
  notify_optional_run-Keeps none = pure-Keeps k r tt
  notify_optional_run-Keeps (some run) = notify-Keeps k r _

  stored_schedule-Keeps : (c : Option ScheduleRecord) → Keeps k r (stored_schedule c)
  stored_schedule-Keeps none = pure-Keeps k r none
  stored_schedule-Keeps (some c) = gets-Keeps k r _

  pub create_work-Keeps :
      (env : Environment) (input : CreateWorkInput)
      → env.create_id 1 "work-run" ≢ k
      → Keeps k r (create_work env input)
  unfolding create_work validate_work_trigger validate_trigger_kind
  create_work-Keeps env input fresh =
      then_do k r _ _
        (then_do k r _ _ (validate_kind-Keeps env input.trigger input.trigger.kind)
          λ _. guard-Keeps k r _ _)
        λ _. then_do k r _ _ (scheduled_time-Keeps env input.trigger) λ at.
          then_do k r _ _ (guard-Keeps k r _ _) λ _.
            then_do k r _ _ (require_active_runtime_member-Keeps k r env _) λ owner.
              then_do k r _ _ (require_text-Keeps k r _ _) λ title.
                then_do k r _ _ (require_text-Keeps k r _ _) λ created_by.
                  then_do k r _ _ (require_text-Keeps k r _ _) λ source_id.
                    then_do k r _ _ (require_text-Keeps k r _ _) λ criteria.
                      then_do k r _ _ (create_work_task-Keeps k r _) λ task.
                        then_do k r _ _ (create_optional_schedule-Keeps env input at task) λ c.
                          then_do k r _ _ (create_optional_run-Keeps env input task fresh) λ run.
                            then_do k r _ _ (notify-Keeps k r _) λ _.
                              then_do k r _ _ (notify_optional_run-Keeps run) λ _.
                                then_do k r _ _ (gets-Keeps k r _) λ stored.
                                  then_do k r _ _ (stored_schedule-Keeps c)
                                    λ stored_c. pure-Keeps k r _
