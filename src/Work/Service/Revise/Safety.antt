-- ===== src/Work/Service/Revise/Safety.antt =====
-- Revising a task keeps the stored work well-formed.
use tiny_office.Prelude.{ℕ, String, Option, none, some, ◌+◌}
use tiny_office.Prelude.Exec.Ensures.{Ensures-pure, Ensures-choose, Ensures-bind}
use tiny_office.Work.Domain.{Timestamp, TaskRecord, RunRecord, RevisionRecord}
use tiny_office.Work.Repository.{revise_work_task, put_optional_run}
use tiny_office.Work.Environment.{Environment}
use tiny_office.Work.Service.{previous_archived_task_status}
use tiny_office.Work.Invariant.{IsRunValid, IsTaskValid, Safe, Each}
use tiny_office.Work.Invariant.Writes.{
  get_work_run-Safe, get_work_task-Safe, append_work_run_event-Safe, notify-Safe, put_task-Safe,
  put_run-Safe, put_revision-Safe,
}
use tiny_office.Work.Invariant.Checks.{require-Safe, guard-Safe, require_text-Safe}
use tiny_office.Work.Service.Tasks.Safety.{task_detail-Safe}
use tiny_office.Work.Service.Revise.{
  ReviseWorkTaskInput, source_run, revised_text, revised_description, revised_task, revised_run,
  note_revision, notify_revised_run, revise_work_task_objective,
}

source_run-Safe : (t : TaskRecord) (id : Option String) → Safe (source_run t id) (Each IsRunValid)
unfolding source_run
source_run-Safe t none = Ensures-pure _ tt
source_run-Safe t (some id) =
    Ensures-choose _ _ _ (λ _. Ensures-pure _ tt)
      (λ _. Ensures-bind _ _ (get_work_run-Safe _) λ found f.
        Ensures-bind _ _ (require-Safe IsRunValid found _ f) λ run v.
          Ensures-bind {Q = IsRunValid} _ _
            (Ensures-bind _ _ (guard-Safe _ _)
              λ _ _. Ensures-bind _ _ (guard-Safe _ _) λ _ _. Ensures-pure _ v)
            λ checked w. Ensures-pure _ w)

revised_text-Safe :
    (o : Option String) (old field : String) → Safe (revised_text o old field) (λ _. Unit)
unfolding revised_text
revised_text-Safe none old field = Ensures-pure _ tt
revised_text-Safe (some s) old field = require_text-Safe _ _

revised_description-Safe : (o old : Option String) → Safe (revised_description o old) (λ _. Unit)
unfolding revised_description
revised_description-Safe none old = Ensures-pure _ tt
revised_description-Safe (some s) old =
    Ensures-bind _ _ (require_text-Safe _ _) λ _ _. Ensures-pure _ tt

revised_task-IsTaskValid :
    (now : Timestamp) (t : TaskRecord) (title : String) (description : Option String)
    (criteria : String)
    → IsTaskValid t
    → IsTaskValid (revised_task now t title description criteria)
unfolding revised_task previous_archived_task_status
revised_task-IsTaskValid now t title description criteria v = record {
  ended = v.ended;
  restorable = v.restorable;
}

put_optional_run-Safe :
    (o : Option RunRecord) → Each IsRunValid o → Safe (put_optional_run o) (λ _. Unit)
unfolding put_optional_run
put_optional_run-Safe none v = Ensures-pure _ tt
put_optional_run-Safe (some r) v = put_run-Safe r v

Each-revised :
    (now : Timestamp) (n : ℕ) (o : Option RunRecord)
    → Each IsRunValid o
    → Each IsRunValid (package.mathlib.Core.Option.map (revised_run now n) o)
Each-revised now n none v = tt
Each-revised now n (some r) v = record {
  started = v.started;
  ended = v.ended;
  blocked_why = v.blocked_why;
  failed_why = v.failed_why;
  canceled_why = v.canceled_why;
  done_how = v.done_how;
}

revise_work_task-Safe :
    (t : TaskRecord) (r : RevisionRecord) (o : Option RunRecord)
    → IsTaskValid t
    → Each IsRunValid o
    → Safe (revise_work_task t r o) (λ _. Unit)
unfolding revise_work_task
revise_work_task-Safe t r o v w =
    Ensures-bind _ _ (put_task-Safe t v)
      λ _ _. Ensures-bind _ _ (put_revision-Safe r) λ _ _. put_optional_run-Safe o w

note_revision-Safe :
    (env : Environment) (actor reason : String) (t : TaskRecord) (o : Option RunRecord)
    → Safe (note_revision env actor reason t o) (λ _. Unit)
unfolding note_revision
note_revision-Safe env actor reason t none = Ensures-pure _ tt
note_revision-Safe env actor reason t (some r) =
    Ensures-bind _ _ (append_work_run_event-Safe _) λ _ _. Ensures-pure _ tt

notify_revised_run-Safe : (o : Option RunRecord) → Safe (notify_revised_run o) (λ _. Unit)
unfolding notify_revised_run
notify_revised_run-Safe none = Ensures-pure _ tt
notify_revised_run-Safe (some r) = notify-Safe _

pub revise_work_task_objective-Safe :
    (env : Environment) (input : ReviseWorkTaskInput)
    → Safe (revise_work_task_objective env input) (λ _. Unit)
unfolding revise_work_task_objective
revise_work_task_objective-Safe env input = Ensures-bind _ _ (require_text-Safe _ _) λ actor _.
    Ensures-bind _ _ (require_text-Safe _ _) λ reason _.
      Ensures-bind _ _ (get_work_task-Safe _) λ found f.
        Ensures-bind _ _ (require-Safe IsTaskValid found _ f) λ t v.
          Ensures-bind _ _ (guard-Safe _ _) λ _ _.
            Ensures-bind _ _ (source_run-Safe t input.source_work_run_id) λ source w.
              Ensures-bind _ _ (revised_text-Safe input.title t.title _) λ title _.
                Ensures-bind _ _ (revised_description-Safe input.description t.description)
                  λ description _.
                    Ensures-bind _ _
                      (revised_text-Safe input.acceptance_criteria t.acceptance_criteria _)
                      λ criteria _. Ensures-bind _ _ (guard-Safe _ _) λ _ _.
                        Ensures-bind _ _
                          (revise_work_task-Safe _ _ _
                            (revised_task-IsTaskValid env.now t title description criteria v)
                            (Each-revised env.now (t.revision + 1) source w))
                          λ _ _.
                            Ensures-bind _ _
                              (note_revision-Safe env actor reason
                                (revised_task env.now t title description criteria) _)
                              λ _ _. Ensures-bind _ _ (notify-Safe _) λ _ _.
                                Ensures-bind _ _ (notify_revised_run-Safe _)
                                  λ _ _. task_detail-Safe env _
