-- ===== src/Work/Service/Retry/History.antt =====
-- Retries keep the history of each stored run.
use tiny_office.Prelude.{String, ◌≢◌, Option, none, some, find}
use tiny_office.Prelude.Exec.Ensures.{Ensures-throw}
use tiny_office.Work.Domain.{RunRecord}
use tiny_office.Work.Environment.{Environment}
use tiny_office.Work.History.{
  Keeps, then_do, require-Keeps, guard-Keeps, gets-Keeps, pure-Keeps, notify-Keeps,
  update_work_task-Keeps, append_work_run_event-Keeps, create_work_run-Keeps, require_text-Keeps,
  require_active_runtime_member-Keeps,
}
use tiny_office.Work.Service.Retry.{
  RetryWorkRunInput, is_open, reject_open_run, retried_run, retry_work_run,
}

module _ (k : String) (r : RunRecord) where
  reject_open_run-Keeps : (o : Option RunRecord) → Keeps k r (reject_open_run o)
  unfolding reject_open_run
  reject_open_run-Keeps none = pure-Keeps k r tt
  reject_open_run-Keeps (some run) = Ensures-throw _

  pub retry_work_run-Keeps :
      (env : Environment) (input : RetryWorkRunInput)
      → env.create_id 0 "work-run" ≢ k
      → Keeps k r (retry_work_run env input)
  unfolding retry_work_run retried_run
  retry_work_run-Keeps env input fresh = then_do k r _ _ (require_text-Keeps k r _ _) λ actor.
      then_do k r _ _ (gets-Keeps k r _) λ found.
        then_do k r _ _ (require-Keeps k r found _) λ previous.
          then_do k r _ _ (guard-Keeps k r _ _) λ _.
            then_do k r _ _ (gets-Keeps k r _) λ found_task.
              then_do k r _ _ (require-Keeps k r found_task _) λ task.
                then_do k r _ _ (guard-Keeps k r _ _) λ _.
                  then_do k r _ _ (gets-Keeps k r _) λ runs.
                    then_do k r _ _ (reject_open_run-Keeps (find is_open runs)) λ _.
                      then_do k r _ _ (require_active_runtime_member-Keeps k r env _) λ assignee.
                        then_do k r _ _ (create_work_run-Keeps k r _ fresh) λ retried.
                          then_do k r _ _ (append_work_run_event-Keeps k r _) λ noted.
                            then_do k r _ _ (append_work_run_event-Keeps k r _) λ created.
                              then_do k r _ _ (update_work_task-Keeps k r _) λ updated.
                                then_do k r _ _ (notify-Keeps k r _) λ _.
                                  then_do k r _ _ (notify-Keeps k r _) λ _. pure-Keeps k r retried
