-- ===== src/Work/Service/Due/Safety.antt =====
-- Starting a due run keeps the stored work well-formed.
use tiny_office.Prelude.{Option, none, some, arith, or_else}
use tiny_office.Prelude.Exec.Ensures.{
  Ensures-pure, Ensures-choose, Ensures-gets, Ensures-require, Ensures-bind,
}
use tiny_office.Work.Domain.{Timestamp, Interval, TaskRecord, ScheduleRecord, RunRecord}
use tiny_office.Work.Environment.{Environment}
use tiny_office.Work.Invariant.{IsRunValid, IsScheduleValid, IsTaskValid, Safe, Each}
use tiny_office.Work.Invariant.Writes.{
  get_work_task-Safe, get_work_schedule-Safe, update_work_schedule-Safe, append_work_run_event-Safe,
  notify-Safe, create_work_run-Safe,
}
use tiny_office.Work.Invariant.Checks.{
  require-Safe, guard-Safe, require_text-Safe, require_active_runtime_member-Safe,
}
use tiny_office.Work.Service.{
  rule_interval, plus_interval, iso_of, next_after, next_run_at_for_schedule,
}
use tiny_office.Work.Service.Due.{
  CreateDueWorkRunInput, require_due, due_run, advanced_schedule, create_run_for, reuse_or_create,
  create_due_work_run,
}

due_run-IsRunValid :
    (env : Environment) (t : TaskRecord) (c : ScheduleRecord) (due_at : Timestamp)
    → IsRunValid (due_run env t c due_at)
unfolding due_run
due_run-IsRunValid env t c due_at = ground arith

advanced_schedule-IsScheduleValid :
    (now : Timestamp) (c d : ScheduleRecord) (next : Option Timestamp)
    → IsScheduleValid d
    → IsScheduleValid (advanced_schedule now c d next)
unfolding advanced_schedule
advanced_schedule-IsScheduleValid now c d next v = ground arith

require_due-Safe : (now : Timestamp) (c : ScheduleRecord) → Safe (require_due now c) (λ _. Unit)
unfolding require_due
require_due-Safe now c =
    Ensures-bind {Q = λ _. Unit} _ _ (Ensures-require _ _ (λ _ _. tt))
      λ _ _. Ensures-bind _ _ (guard-Safe _ _) λ _ _. Ensures-pure _ tt

iso_of-Safe : (t : Timestamp) → Safe (iso_of t) (λ _. Unit)
unfolding iso_of
iso_of-Safe t = Ensures-bind _ _ (guard-Safe _ _) λ _ _. Ensures-pure _ tt

next_after-Safe :
    (env : Environment) (o : Option Interval) (due_at : Timestamp)
    → Safe (next_after env o due_at) (λ _. Unit)
unfolding next_after
next_after-Safe env none due_at = Ensures-pure _ tt
next_after-Safe env (some i) due_at =
    Ensures-choose _ _ _ (λ _. Ensures-pure _ tt)
      λ _. Ensures-bind _ _ (iso_of-Safe (plus_interval env due_at i)) λ _ _. Ensures-pure _ tt

next_run_at_for_schedule-Safe :
    (env : Environment) (c : ScheduleRecord) (due_at : Timestamp)
    → Safe (next_run_at_for_schedule env c due_at) (λ _. Unit)
unfolding next_run_at_for_schedule
next_run_at_for_schedule-Safe env c due_at =
    Ensures-choose _ _ _ (λ _. next_after-Safe env (rule_interval c.schedule_rule) due_at)
      (λ _. Ensures-pure _ tt)

or_else-valid :
    (o : Option ScheduleRecord) (c : ScheduleRecord)
    → Each IsScheduleValid o
    → IsScheduleValid c
    → IsScheduleValid (or_else o c)
or_else-valid none c h v = v
or_else-valid (some d) c h v = h

create_run_for-Safe :
    (env : Environment) (input : CreateDueWorkRunInput) (t : TaskRecord) (c : ScheduleRecord)
    (due_at : Timestamp)
    → IsScheduleValid c
    → Safe (create_run_for env input t c due_at) (λ _. Unit)
unfolding create_run_for
create_run_for-Safe env input t c due_at v =
    Ensures-bind _ _ (create_work_run-Safe _ (due_run-IsRunValid env t c due_at)) λ run _.
      Ensures-bind _ _ (require_text-Safe _ _) λ _ _.
        Ensures-bind _ _ (append_work_run_event-Safe _) λ _ _.
          Ensures-bind _ _ (get_work_schedule-Safe _) λ d h.
            Ensures-bind _ _ (next_run_at_for_schedule-Safe env c due_at) λ next _.
              Ensures-bind _ _
                (update_work_schedule-Safe _
                  (advanced_schedule-IsScheduleValid env.now c _ next (or_else-valid d c h v)))
                λ _ _. Ensures-bind _ _ (notify-Safe _) λ _ _. Ensures-pure _ tt

reuse_or_create-Safe :
    (env : Environment) (input : CreateDueWorkRunInput) (t : TaskRecord) (c : ScheduleRecord)
    (due_at : Timestamp) (o : Option RunRecord)
    → IsScheduleValid c
    → Safe (reuse_or_create env input t c due_at o) (λ _. Unit)
unfolding reuse_or_create
reuse_or_create-Safe env input t c due_at (some r) v = Ensures-pure _ tt
reuse_or_create-Safe env input t c due_at none v = create_run_for-Safe env input t c due_at v

pub create_due_work_run-Safe :
    (env : Environment) (input : CreateDueWorkRunInput)
    → Safe (create_due_work_run env input) (λ _. Unit)
unfolding create_due_work_run
create_due_work_run-Safe env input = Ensures-bind _ _ (get_work_schedule-Safe _) λ found f.
    Ensures-bind _ _ (require-Safe IsScheduleValid found _ f) λ c v.
      Ensures-bind _ _ (guard-Safe _ _) λ _ _.
        Ensures-bind _ _ (require_due-Safe env.now c) λ due_at _.
          Ensures-bind _ _ (get_work_task-Safe _) λ found_task g.
            Ensures-bind _ _ (require-Safe IsTaskValid found_task _ g) λ t _.
              Ensures-bind _ _ (require_active_runtime_member-Safe env _) λ _ _.
                Ensures-bind {Q = λ _. Unit} _ _ (Ensures-gets _ λ _ _. tt)
                  λ runs _. reuse_or_create-Safe env input t c due_at _ v
