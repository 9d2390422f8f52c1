-- ===== src/Work/Service/Retry/Safety.antt =====
-- Retrying a run keeps the stored work well-formed.
use tiny_office.Prelude.{String, Option, none, some, arith}
use tiny_office.Prelude.Exec.Ensures.{Ensures-pure, Ensures-throw, Ensures-gets, Ensures-bind}
use tiny_office.Work.Domain.{TaskRecord, RunRecord}
use tiny_office.Work.Environment.{Environment}
use tiny_office.Work.Invariant.{IsRunValid, IsTaskValid, Safe}
use tiny_office.Work.Invariant.Writes.{
  get_work_run-Safe, get_work_task-Safe, update_work_task-Safe, append_work_run_event-Safe,
  notify-Safe, create_work_run-Safe,
}
use tiny_office.Work.Invariant.Checks.{
  require-Safe, guard-Safe, require_text-Safe, require_active_runtime_member-Safe,
}
use tiny_office.Work.Invariant.Writes.{touched_task-IsTaskValid}
use tiny_office.Work.Service.Retry.{RetryWorkRunInput, reject_open_run, retried_run, retry_work_run}

retried_run-IsRunValid :
    (env : Environment) (t : TaskRecord) (r : RunRecord) (a : String)
    → IsRunValid (retried_run env t r a)
unfolding retried_run
retried_run-IsRunValid env t r a = ground arith

reject_open_run-Safe : (o : Option RunRecord) → Safe (reject_open_run o) (λ _. Unit)
unfolding reject_open_run
reject_open_run-Safe none = Ensures-pure _ tt
reject_open_run-Safe (some r) = Ensures-throw _

pub retry_work_run-Safe :
    (env : Environment) (input : RetryWorkRunInput) → Safe (retry_work_run env input) (λ _. Unit)
unfolding retry_work_run
retry_work_run-Safe env input = Ensures-bind _ _ (require_text-Safe _ _) λ actor _.
    Ensures-bind _ _ (get_work_run-Safe _) λ found f.
      Ensures-bind _ _ (require-Safe IsRunValid found _ f) λ previous _.
        Ensures-bind _ _ (guard-Safe _ _) λ _ _.
          Ensures-bind _ _ (get_work_task-Safe _) λ found_task g.
            Ensures-bind _ _ (require-Safe IsTaskValid found_task _ g) λ t v.
              Ensures-bind _ _ (guard-Safe _ _) λ _ _.
                Ensures-bind {Q = λ _. Unit} _ _ (Ensures-gets _ λ _ _. tt) λ runs _.
                  Ensures-bind _ _ (reject_open_run-Safe _) λ _ _.
                    Ensures-bind _ _ (require_active_runtime_member-Safe env _) λ a _.
                      Ensures-bind _ _
                        (create_work_run-Safe _ (retried_run-IsRunValid env t previous a))
                        λ _ _. Ensures-bind _ _ (append_work_run_event-Safe _) λ _ _.
                          Ensures-bind _ _ (append_work_run_event-Safe _) λ _ _.
                            Ensures-bind _ _
                              (update_work_task-Safe _ (touched_task-IsTaskValid env.now t v))
                              λ _ _.
                                Ensures-bind _ _ (notify-Safe _)
                                  λ _ _. Ensures-bind _ _ (notify-Safe _) λ _ _. Ensures-pure _ tt
