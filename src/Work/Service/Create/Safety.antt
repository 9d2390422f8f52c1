-- ===== src/Work/Service/Create/Safety.antt =====
-- Creating work keeps the stored work well-formed.
use tiny_office.Prelude.{String, refl, Option, none, some, arith}
use tiny_office.Prelude.Exec.Ensures.{
  Ensures-pure, Ensures-gets, Ensures-choose, Ensures-bind, Ensures-map,
}
use tiny_office.Work.Domain.{
  TriggerKind, immediate, scheduled_once, recurring, Timestamp, TaskRecord, ScheduleRecord,
  RunRecord,
}
use tiny_office.Work.Environment.{Environment}
use tiny_office.Work.Invariant.{IsRunValid, IsScheduleValid, IsTaskValid, Safe}
use tiny_office.Work.Invariant.Writes.{
  append_work_run_event-Safe, notify-Safe, create_work_run-Safe, create_work_task-Safe,
  create_work_schedule-Safe,
}
use tiny_office.Work.Invariant.Checks.{
  guard-Safe, require_text-Safe, require_iso_timestamp-Safe, require_active_runtime_member-Safe,
}
use tiny_office.Work.Service.Create.{
  TriggerInput, CreateWorkInput, validate_kind, validate_trigger_kind, scheduled_time, new_task,
  new_schedule, immediate_run, create_optional_schedule, create_immediate_run, create_optional_run,
  notify_optional_run, stored_schedule, create_work,
}

new_task-IsTaskValid :
    (env : Environment) (input : CreateWorkInput) (o t b s a : String)
    → IsTaskValid (new_task env input o t b s a)
unfolding new_task
new_task-IsTaskValid env input o t b s a = ground arith

new_schedule-IsScheduleValid :
    (env : Environment) (input : CreateWorkInput) (at : Option Timestamp) (t : TaskRecord)
    → IsScheduleValid (new_schedule env input at t)
unfolding new_schedule
new_schedule-IsScheduleValid env input at t = record { ended = refl }

immediate_run-IsRunValid : (env : Environment) (t : TaskRecord) → IsRunValid (immediate_run env t)
unfolding immediate_run
immediate_run-IsRunValid env t = ground arith

validate_kind-Safe :
    (env : Environment) (trigger : TriggerInput) (kind : TriggerKind)
    → Safe (validate_kind env trigger kind) (λ _. Unit)
unfolding validate_kind
validate_kind-Safe env trigger immediate = Ensures-pure _ tt
validate_kind-Safe env trigger scheduled_once =
    Ensures-bind _ _ (require_iso_timestamp-Safe env _ _) λ _ _. Ensures-pure _ tt
validate_kind-Safe env trigger recurring =
    Ensures-bind _ _ (require_iso_timestamp-Safe env _ _)
      λ _ _. Ensures-map _ (guard-Safe _ _) λ _ _. tt

validate_trigger_kind-Safe :
    (env : Environment) (trigger : TriggerInput)
    → Safe (validate_trigger_kind env trigger) (λ _. Unit)
unfolding validate_trigger_kind
validate_trigger_kind-Safe env trigger = validate_kind-Safe env trigger trigger.kind

create_optional_schedule-Safe :
    (env : Environment) (input : CreateWorkInput) (at : Option Timestamp) (t : TaskRecord)
    → Safe (create_optional_schedule env input at t) (λ _. Unit)
unfolding create_optional_schedule
create_optional_schedule-Safe env input at t =
    Ensures-choose _ _ _
      (λ _.
        Ensures-bind _ _ (create_work_schedule-Safe _ (new_schedule-IsScheduleValid env input at t))
          λ _ _. Ensures-pure _ tt)
      (λ _. Ensures-pure _ tt)

create_immediate_run-Safe :
    (env : Environment) (t : TaskRecord) → Safe (create_immediate_run env t) (λ _. Unit)
unfolding create_immediate_run
create_immediate_run-Safe env t =
    Ensures-bind _ _ (create_work_run-Safe _ (immediate_run-IsRunValid env t))
      λ _ _. Ensures-bind _ _ (append_work_run_event-Safe _) λ _ _. Ensures-pure _ tt

create_optional_run-Safe :
    (env : Environment) (input : CreateWorkInput) (t : TaskRecord)
    → Safe (create_optional_run env input t) (λ _. Unit)
unfolding create_optional_run
create_optional_run-Safe env input t =
    Ensures-choose _ _ _ (λ _. create_immediate_run-Safe env t) (λ _. Ensures-pure _ tt)

notify_optional_run-Safe : (o : Option RunRecord) → Safe (notify_optional_run o) (λ _. Unit)
unfolding notify_optional_run
notify_optional_run-Safe none = Ensures-pure _ tt
notify_optional_run-Safe (some r) = notify-Safe _

stored_schedule-Safe : (o : Option ScheduleRecord) → Safe (stored_schedule o) (λ _. Unit)
stored_schedule-Safe none = Ensures-pure _ tt
stored_schedule-Safe (some c) = Ensures-gets _ (λ _ _. tt)

scheduled_time-Safe :
    (env : Environment) (trigger : TriggerInput) → Safe (scheduled_time env trigger) (λ _. Unit)
unfolding scheduled_time
scheduled_time-Safe env trigger =
    Ensures-choose _ _ _
      (λ _. Ensures-bind _ _ (require_iso_timestamp-Safe env _ _) λ _ _. Ensures-pure _ tt)
      (λ _. Ensures-pure _ tt)

pub create_work-Safe :
    (env : Environment) (input : CreateWorkInput) → Safe (create_work env input) (λ _. Unit)
unfolding create_work
create_work-Safe env input =
    Ensures-bind _ _
      (Ensures-bind _ _ (validate_trigger_kind-Safe env input.trigger) λ _ _. guard-Safe _ _)
      λ _ _. Ensures-bind _ _ (scheduled_time-Safe env input.trigger) λ at _.
        Ensures-bind _ _ (guard-Safe _ _) λ _ _.
          Ensures-bind _ _ (require_active_runtime_member-Safe env _) λ o _.
            Ensures-bind _ _ (require_text-Safe _ _) λ t _.
              Ensures-bind _ _ (require_text-Safe _ _) λ b _.
                Ensures-bind _ _ (require_text-Safe _ _) λ s _.
                  Ensures-bind _ _ (require_text-Safe _ _) λ a _.
                    Ensures-bind _ _
                      (create_work_task-Safe _ (new_task-IsTaskValid env input o t b s a))
                      λ task _.
                        Ensures-bind _ _ (create_optional_schedule-Safe env input at task) λ c _.
                          Ensures-bind _ _ (create_optional_run-Safe env input task) λ r _.
                            Ensures-bind _ _ (notify-Safe _) λ _ _.
                              Ensures-bind _ _ (notify_optional_run-Safe r) λ _ _.
                                Ensures-bind {Q = λ _. Unit} _ _ (Ensures-gets _ λ _ _. tt) λ _ _.
                                  Ensures-bind _ _ (stored_schedule-Safe c) λ _ _. Ensures-pure _ tt
