-- ===== src/Work/Service/Revise/History.antt =====
-- Revisions keep the history of each stored run.
use tiny_office.Prelude.{ℕ, ◌+◌, String, ◌≡◌, refl, ap, Bool, true, false, Option, none, some, not}
use tiny_office.Prelude.Exec.Ensures.{
  Ensures, Ensures-pure, Ensures-require, Ensures-choose, Ensures-guard, Ensures-bind,
}
use tiny_office.Work.Domain.{Timestamp, TaskRecord, RunRecord}
use tiny_office.Work.Environment.{Environment}
use tiny_office.Work.Service.{is_terminal_run_status}
use tiny_office.Work.History.{
  IsLater-changed, IsRun, Remembers, Keeps, then_do, require-Keeps, guard-Keeps, gets-Keeps,
  pure-Keeps, notify-Keeps, append_work_run_event-Keeps, revise_work_task-Keeps, get_work_run-Keeps,
  require_text-Keeps,
}
use tiny_office.Work.Service.Revise.{
  ReviseWorkTaskInput, task_detail, check_source_run, find_source_run, source_run, revised_text,
  revised_description, revised_task, revised_run, note_revision, notify_revised_run,
  revise_work_task_objective,
}
use mathlib.Core.Option.{get_or}
use tiny_office.Prelude.{subst}

unnegated : (b : Bool) → not b ≡ true → b ≡ false
unnegated true e = cc
unnegated false e = refl

found_alike : (P : RunRecord → Type 0) (a b : RunRecord) → P a → some a ≡ some b → P b
found_alike P a b p e = subst P (ap (λ o. get_or o a) e) p

module _ (k : String) (r : RunRecord) where
  -- The run that a revision comes from: it is open.
  abbrev Source : Option RunRecord → Type 0
  Source o = (a : RunRecord) → o ≡ some a → IsRun k r a × (is_terminal_run_status a.status ≡ false)

  source_run-Keeps :
      (task : TaskRecord) (id : Option String) → Ensures (Remembers k r) (source_run task id) Source
  unfolding source_run find_source_run check_source_run
  source_run-Keeps task none = Ensures-pure none (λ a e. cc)
  source_run-Keeps task (some id) =
      Ensures-choose _ _ _ (λ _. Ensures-pure none (λ a e. cc))
        λ _. Ensures-bind _ _ (get_work_run-Keeps k r id) λ found h.
          Ensures-bind _ _ (Ensures-require found _ h) λ run is_run.
            Ensures-bind _ _
              (Ensures-bind {Q = λ _. Unit}
                {R = λ checked. IsRun k r checked × (is_terminal_run_status checked.status ≡ false)}
                _ _ (guard-Keeps k r _ _)
                λ _ _. Ensures-bind _ _ (Ensures-guard _ _) λ _ open'.
                  Ensures-pure run (is_run, unnegated (is_terminal_run_status run.status) open'))
              λ checked both. Ensures-pure (some checked) (λ a e.
                found_alike (λ x. IsRun k r x × (is_terminal_run_status x.status ≡ false)) checked a
                  both e)

  revised_text-Keeps :
      (new : Option String) (old field : String) → Keeps k r (revised_text new old field)
  unfolding revised_text
  revised_text-Keeps none old field = pure-Keeps k r old
  revised_text-Keeps (some new) old field = require_text-Keeps k r _ _

  revised_description-Keeps : (new old : Option String) → Keeps k r (revised_description new old)
  unfolding revised_description
  revised_description-Keeps none old = pure-Keeps k r old
  revised_description-Keeps (some new) old =
      then_do k r _ _ (require_text-Keeps k r _ _) λ d. pure-Keeps k r (some d)

  revised_run-IsRun :
      (now : Timestamp) (revision : ℕ) (o : Option RunRecord) (b : RunRecord)
      → Source o
      → package.mathlib.Core.Option.map (revised_run now revision) o ≡ some b
      → IsRun k r b
  revised_run-IsRun now revision none b h e = cc
  revised_run-IsRun now revision (some a) b h e = subst (IsRun k r) (ap (λ o. get_or o b) e) (λ m.
      IsLater-changed r a (revised_run now revision a) ((h a refl).0 m) (h a refl).1
        ((h a refl).0 m).reached refl refl refl refl)

  note_revision-Keeps :
      (env : Environment) (actor reason : String) (task : TaskRecord) (o : Option RunRecord)
      → Keeps k r (note_revision env actor reason task o)
  unfolding note_revision
  note_revision-Keeps env actor reason task none = pure-Keeps k r tt
  note_revision-Keeps env actor reason task (some run) =
      then_do k r _ _ (append_work_run_event-Keeps k r _) λ _. pure-Keeps k r tt

  notify_revised_run-Keeps : (o : Option RunRecord) → Keeps k r (notify_revised_run o)
  unfolding notify_revised_run
  notify_revised_run-Keeps none = pure-Keeps k r tt
  notify_revised_run-Keeps (some run) = notify-Keeps k r _

  pub revise_work_task_objective-Keeps :
      (env : Environment) (input : ReviseWorkTaskInput)
      → Keeps k r (revise_work_task_objective env input)
  unfolding revise_work_task_objective task_detail
  revise_work_task_objective-Keeps env input = then_do k r _ _ (require_text-Keeps k r _ _) λ actor.
      then_do k r _ _ (require_text-Keeps k r _ _) λ reason.
        then_do k r _ _ (gets-Keeps k r _) λ found.
          then_do k r _ _ (require-Keeps k r found _) λ task.
            then_do k r _ _ (guard-Keeps k r _ _) λ _.
              Ensures-bind _ _ (source_run-Keeps task input.source_work_run_id) λ source h.
                then_do k r _ _ (revised_text-Keeps _ _ _) λ title.
                  then_do k r _ _ (revised_description-Keeps _ _) λ description.
                    then_do k r _ _ (revised_text-Keeps _ _ _) λ criteria.
                      then_do k r _ _ (guard-Keeps k r _ _) λ _.
                        then_do k r _ _
                          (revise_work_task-Keeps k r
                            (revised_task env.now task title description criteria) _ _
                            (λ b. revised_run-IsRun env.now (task.revision + 1) source b h))
                          λ _.
                            then_do k r _ _
                              (note_revision-Keeps env actor reason
                                (revised_task env.now task title description criteria)
                                (package.mathlib.Core.Option.map
                                  (revised_run env.now (task.revision + 1)) source))
                              λ _. then_do k r _ _ (notify-Keeps k r _) λ _.
                                then_do k r _ _ (notify_revised_run-Keeps _) λ _. gets-Keeps k r _
