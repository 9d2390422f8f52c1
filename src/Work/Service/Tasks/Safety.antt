-- ===== src/Work/Service/Tasks/Safety.antt =====
-- Canceling, archiving and restoring a task keep the stored work well-formed.
use tiny_office.Prelude.{ℕ, suc, String, ◌≡◌, refl, true, Option, List, [], ◌∷◌, arith}
use tiny_office.Prelude.Json.{get_field-set_field, string}
use tiny_office.Prelude.Exec.Ensures.{Ensures-pure, Ensures-gets, Ensures-choose, Ensures-bind}
use tiny_office.Work.Domain.{
  Timestamp, TaskStatus, active, archived, TaskRecord, ScheduleRecord, RunRecord, same_task_status,
}
use tiny_office.Work.Environment.{Environment}
use tiny_office.Work.Service.{
  previous_status, is_inactive_task_status, previous_archived_task_status, task_status_text,
}
use tiny_office.Work.Invariant.{IsRunValid, IsScheduleValid, IsTaskValid, Safe}
use tiny_office.Work.Invariant.Writes.{
  get_work_task-Safe, update_work_run-Safe, update_work_task-Safe, update_work_schedule-Safe,
  append_work_run_event-Safe, notify-Safe,
}
use tiny_office.Work.Invariant.Checks.{require-Safe, guard-Safe, require_text-Safe}
use tiny_office.Work.Service.Revise.{task_detail}
use tiny_office.Work.Service.Schedules.Safety.{canceled_task-IsTaskValid}
use tiny_office.Work.Service.Tasks.{
  TaskLifecycleInput, canceled_schedule, cancel_schedules, canceled_run, cancel_run, cancel_runs,
  notify_runs, cancel_work_task, archived_from, archive_inactive, archive_work_task, restored_task,
  restore_work_task,
}

canceled_schedule-IsScheduleValid :
    (now : Timestamp) (reason : String) (c : ScheduleRecord)
    → IsScheduleValid (canceled_schedule now reason c)
unfolding canceled_schedule
canceled_schedule-IsScheduleValid now reason c = ground arith

canceled_run-IsRunValid :
    (now : Timestamp) (reason : String) (r : RunRecord) → IsRunValid (canceled_run now reason r)
unfolding canceled_run
canceled_run-IsRunValid now reason r = ground arith

cancel_schedules-Safe :
    (now : Timestamp) (reason : String) (cs : List ScheduleRecord)
    → Safe (cancel_schedules now reason cs) (λ _. Unit)
unfolding cancel_schedules
cancel_schedules-Safe now reason [] = Ensures-pure _ tt
cancel_schedules-Safe now reason (c ∷ cs) =
    let rest = cancel_schedules-Safe now reason cs in
    Ensures-choose _ _ _
      (λ _.
        Ensures-bind _ _
          (update_work_schedule-Safe _ (canceled_schedule-IsScheduleValid now reason c))
          λ _ _. rest)
      (λ _. rest)

cancel_run-Safe :
    (env : Environment) (actor reason : String) (task : TaskRecord) (n : ℕ) (r : RunRecord)
    → Safe (cancel_run env actor reason task n r) (λ _. Unit)
unfolding cancel_run
cancel_run-Safe env actor reason task n r =
    Ensures-bind _ _ (update_work_run-Safe _ (canceled_run-IsRunValid env.now reason r))
      λ _ _. Ensures-bind _ _ (append_work_run_event-Safe _) λ _ _. Ensures-pure _ tt

cancel_runs-Safe :
    (env : Environment) (actor reason : String) (task : TaskRecord) (n : ℕ) (rs : List RunRecord)
    → Safe (cancel_runs env actor reason task n rs) (λ _. Unit)
unfolding cancel_runs
cancel_runs-Safe env actor reason task n [] = Ensures-pure _ tt
cancel_runs-Safe env actor reason task n (r ∷ rs) =
    Ensures-choose _ _ _ (λ _. cancel_runs-Safe env actor reason task n rs)
      (λ _.
        Ensures-bind _ _ (cancel_run-Safe env actor reason task n r)
          λ _ _. cancel_runs-Safe env actor reason task (suc n) rs)

notify_runs-Safe : (rs : List RunRecord) → Safe (notify_runs rs) (λ _. Unit)
unfolding notify_runs
notify_runs-Safe [] = Ensures-pure _ tt
notify_runs-Safe (r ∷ rs) = Ensures-bind _ _ (notify-Safe _) λ _ _. notify_runs-Safe rs

pub task_detail-Safe : (env : Environment) (t : TaskRecord) → Safe (task_detail env t) (λ _. Unit)
unfolding task_detail
task_detail-Safe env t = Ensures-gets _ λ _ _. tt

pub cancel_work_task-Safe :
    (env : Environment) (input : TaskLifecycleInput) → Safe (cancel_work_task env input) (λ _. Unit)
unfolding cancel_work_task
cancel_work_task-Safe env input = Ensures-bind _ _ (require_text-Safe _ _) λ reason _.
    Ensures-bind _ _ (require_text-Safe _ _) λ actor _.
      Ensures-bind _ _ (get_work_task-Safe _) λ found f.
        Ensures-bind _ _ (require-Safe IsTaskValid found _ f) λ task _.
          Ensures-bind _ _ (guard-Safe _ _) λ _ _.
            Ensures-bind {Q = λ _. Unit} _ _ (Ensures-gets _ λ _ _. tt) λ schedules _.
              Ensures-bind {Q = λ _. Unit} _ _ (Ensures-gets _ λ _ _. tt) λ runs _.
                Ensures-bind _ _ (update_work_task-Safe _ (canceled_task-IsTaskValid _ _ task))
                  λ _ _. Ensures-bind _ _ (cancel_schedules-Safe _ _ _) λ _ _.
                    Ensures-bind _ _ (cancel_runs-Safe _ _ _ _ _ _) λ _ _.
                      Ensures-bind _ _ (notify-Safe _) λ _ _.
                        Ensures-bind {Q = λ _. Unit} _ _ (Ensures-gets _ λ _ _. tt) λ changed _.
                          Ensures-bind _ _ (notify_runs-Safe changed) λ _ _. task_detail-Safe env _

previous_status-text :
    (s : TaskStatus)
    → is_inactive_task_status s ≡ true
    → previous_status (string (task_status_text s)) ≡ s
unfolding previous_status
previous_status-text TaskStatus.completed h = refl
previous_status-text TaskStatus.canceled h = refl
previous_status-text active h = cc
previous_status-text archived h = cc

-- Archiving keeps the status that the task had, and restoring reads it back.
pub previous_archived_task_status-archived_from :
    (now : Timestamp) (actor : String) (reason : Option String) (t : TaskRecord)
    → is_inactive_task_status t.status ≡ true
    → previous_archived_task_status (archived_from now actor reason t) ≡ t.status
unfolding archived_from previous_archived_task_status
previous_archived_task_status-archived_from now actor reason t inactive =
    simp get_field-set_field (previous_status-text t.status inactive)

archived_from-IsTaskValid :
    (now : Timestamp) (actor : String) (reason : Option String) (t : TaskRecord)
    → is_inactive_task_status t.status ≡ true
    → IsTaskValid t
    → IsTaskValid (archived_from now actor reason t)
archived_from-IsTaskValid now actor reason t inactive v = record {
  ended = λ _. unfold archived_from in v.ended (λ e. ground arith);
  restorable =
      λ _. rw (previous_archived_task_status-archived_from now actor reason t inactive) inactive;
}

archive_inactive-Safe :
    (env : Environment) (actor : String) (reason : Option String) (t : TaskRecord)
    → IsTaskValid t
    → Safe (archive_inactive env actor reason t) (λ _. Unit)
unfolding archive_inactive
archive_inactive-Safe env actor reason t v = Ensures-bind _ _ (guard-Safe _ _) λ _ i.
    Ensures-bind _ _
      (update_work_task-Safe _ (archived_from-IsTaskValid env.now actor reason t i v))
      λ _ _. Ensures-bind _ _ (notify-Safe _) λ _ _. task_detail-Safe env _

pub archive_work_task-Safe :
    (env : Environment) (input : TaskLifecycleInput)
    → Safe (archive_work_task env input) (λ _. Unit)
unfolding archive_work_task
archive_work_task-Safe env input = Ensures-bind _ _ (require_text-Safe _ _) λ actor _.
    Ensures-bind _ _ (get_work_task-Safe _) λ found f.
      Ensures-bind _ _ (require-Safe IsTaskValid found _ f) λ task v.
        Ensures-choose _ _ _ (λ _. task_detail-Safe env _)
          (λ _. archive_inactive-Safe env actor _ task v)

restored_task-IsTaskValid :
    (now : Timestamp) (t : TaskRecord)
    → same_task_status t.status archived ≡ true
    → IsTaskValid t
    → IsTaskValid (restored_task now t)
unfolding restored_task
restored_task-IsTaskValid now t e v = ground arith

pub restore_work_task-Safe :
    (env : Environment) (input : TaskLifecycleInput)
    → Safe (restore_work_task env input) (λ _. Unit)
unfolding restore_work_task
restore_work_task-Safe env input = Ensures-bind _ _ (require_text-Safe _ _) λ actor _.
    Ensures-bind _ _ (get_work_task-Safe _) λ found f.
      Ensures-bind _ _ (require-Safe IsTaskValid found _ f) λ task v.
        Ensures-choose _ _ _
          (λ e.
            Ensures-bind _ _ (update_work_task-Safe _ (restored_task-IsTaskValid env.now task e v))
              λ _ _. Ensures-bind _ _ (notify-Safe _) λ _ _. task_detail-Safe env _)
          (λ _. task_detail-Safe env _)
