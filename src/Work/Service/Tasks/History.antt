-- ===== src/Work/Service/Tasks/History.antt =====
-- The operations on tasks keep the history of each stored run.
use tiny_office.Prelude.{ℕ, suc, String, ◌≡◌, refl, true, false, List, [], ◌∷◌, All}
use tiny_office.Prelude.Exec.Ensures.{Ensures-choose, Ensures-bind}
use tiny_office.Work.Domain.{Timestamp, RunStatus, TaskRecord, ScheduleRecord, RunRecord}
use tiny_office.Work.Environment.{Environment}
use tiny_office.Work.Service.{can_move_run, is_terminal_run_status}
use tiny_office.Work.History.{
  IsLater-changed, step, IsRun, Keeps, then_do, require-Keeps, guard-Keeps, gets-Keeps, pure-Keeps,
  notify-Keeps, update_work_task-Keeps, update_work_schedule-Keeps, append_work_run_event-Keeps,
  update_work_run-Keeps, list_work_runs-Keeps, require_text-Keeps,
}
use tiny_office.Work.Service.Tasks.{
  TaskLifecycleInput, cancel_schedules, canceled_run, cancel_run, cancel_runs, notify_runs,
  cancel_work_task, archive_inactive, archive_work_task, restore_archived, restore_work_task,
}
use tiny_office.Work.Service.Revise.{task_detail}

may_cancel_run :
    (st : RunStatus) → is_terminal_run_status st ≡ false → can_move_run st RunStatus.canceled ≡ true
may_cancel_run RunStatus.queued e = refl
may_cancel_run RunStatus.in_progress e = refl
may_cancel_run RunStatus.blocked e = refl
may_cancel_run RunStatus.done e = cc
may_cancel_run RunStatus.failed e = cc
may_cancel_run RunStatus.canceled e = cc

module _ (k : String) (r : RunRecord) where
  task_detail-Keeps : (env : Environment) (task : TaskRecord) → Keeps k r (task_detail env task)
  unfolding task_detail
  task_detail-Keeps env task = gets-Keeps k r _

  cancel_schedules-Keeps :
      (now : Timestamp) (reason : String) (cs : List ScheduleRecord)
      → Keeps k r (cancel_schedules now reason cs)
  unfolding cancel_schedules
  cancel_schedules-Keeps now reason [] = pure-Keeps k r tt
  cancel_schedules-Keeps now reason (c ∷ cs) =
      Ensures-choose _ _ _
        (λ _.
          then_do k r _ _ (update_work_schedule-Keeps k r _)
            λ _. cancel_schedules-Keeps now reason cs)
        (λ _. cancel_schedules-Keeps now reason cs)

  -- An open run may be canceled.
  canceled_run-IsRun :
      (now : Timestamp) (reason : String) (a : RunRecord)
      → is_terminal_run_status a.status ≡ false
      → IsRun k r a
      → IsRun k r (canceled_run now reason a)
  unfolding canceled_run
  canceled_run-IsRun now reason a open' h m =
      IsLater-changed r a (canceled_run now reason a) (h m) open'
        (step (h m).reached (may_cancel_run a.status open')) refl refl refl refl

  cancel_runs-Keeps :
      (env : Environment) (actor reason : String) (task : TaskRecord) (drawn : ℕ)
      (runs : List RunRecord)
      → All (IsRun k r) runs
      → Keeps k r (cancel_runs env actor reason task drawn runs)
  unfolding cancel_runs cancel_run
  cancel_runs-Keeps env actor reason task drawn [] h = pure-Keeps k r tt
  cancel_runs-Keeps env actor reason task drawn (a ∷ runs) (q, h) =
      Ensures-choose _ _ _ (λ _. cancel_runs-Keeps env actor reason task drawn runs h)
        λ open'.
          then_do k r _ _
            (then_do k r _ _
              (update_work_run-Keeps k r _ (canceled_run-IsRun env.now reason a open' q))
              λ _. then_do k r _ _ (append_work_run_event-Keeps k r _) λ _. pure-Keeps k r tt)
            λ _. cancel_runs-Keeps env actor reason task (suc drawn) runs h

  notify_runs-Keeps : (runs : List RunRecord) → Keeps k r (notify_runs runs)
  unfolding notify_runs
  notify_runs-Keeps [] = pure-Keeps k r tt
  notify_runs-Keeps (a ∷ runs) = then_do k r _ _ (notify-Keeps k r _) λ _. notify_runs-Keeps runs

  pub cancel_work_task-Keeps :
      (env : Environment) (input : TaskLifecycleInput) → Keeps k r (cancel_work_task env input)
  unfolding cancel_work_task
  cancel_work_task-Keeps env input = then_do k r _ _ (require_text-Keeps k r _ _) λ reason.
      then_do k r _ _ (require_text-Keeps k r _ _) λ actor.
        then_do k r _ _ (gets-Keeps k r _) λ found.
          then_do k r _ _ (require-Keeps k r found _) λ task.
            then_do k r _ _ (guard-Keeps k r _ _) λ _.
              then_do k r _ _ (gets-Keeps k r _) λ schedules.
                Ensures-bind _ _ (list_work_runs-Keeps k r _ _ _ _) λ runs h.
                  then_do k r _ _ (update_work_task-Keeps k r _) λ updated.
                    then_do k r _ _ (cancel_schedules-Keeps env.now reason schedules) λ _.
                      then_do k r _ _ (cancel_runs-Keeps env actor reason task 0 runs h) λ _.
                        then_do k r _ _ (notify-Keeps k r _) λ _.
                          then_do k r _ _ (gets-Keeps k r _) λ changed.
                            then_do k r _ _ (notify_runs-Keeps changed)
                              λ _. task_detail-Keeps env updated

  pub archive_work_task-Keeps :
      (env : Environment) (input : TaskLifecycleInput) → Keeps k r (archive_work_task env input)
  unfolding archive_work_task archive_inactive
  archive_work_task-Keeps env input = then_do k r _ _ (require_text-Keeps k r _ _) λ actor.
      then_do k r _ _ (gets-Keeps k r _) λ found.
        then_do k r _ _ (require-Keeps k r found _) λ task.
          Ensures-choose _ _ _ (λ _. task_detail-Keeps env task)
            λ _. then_do k r _ _ (guard-Keeps k r _ _) λ _.
              then_do k r _ _ (update_work_task-Keeps k r _)
                λ updated. then_do k r _ _ (notify-Keeps k r _) λ _. task_detail-Keeps env updated

  pub restore_work_task-Keeps :
      (env : Environment) (input : TaskLifecycleInput) → Keeps k r (restore_work_task env input)
  unfolding restore_work_task restore_archived
  restore_work_task-Keeps env input = then_do k r _ _ (require_text-Keeps k r _ _) λ actor.
      then_do k r _ _ (gets-Keeps k r _) λ found.
        then_do k r _ _ (require-Keeps k r found _) λ task.
          Ensures-choose _ _ _
            (λ _.
              then_do k r _ _ (update_work_task-Keeps k r _)
                λ updated. then_do k r _ _ (notify-Keeps k r _) λ _. task_detail-Keeps env updated)
            (λ _. task_detail-Keeps env task)
