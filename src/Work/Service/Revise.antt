-- ===== src/Work/Service/Revise.antt =====
-- `reviseWorkTask` of src/work/work-service.ts.
pub mod Safety
pub mod History
use tiny_office.Prelude.{
  ℕ, ◌+◌, String, Bool, true, false, Option, none, some, List, [], ◌∷◌, ◌&&◌, not, ◌==◌,
  if◌then◌else◌,
}
use tiny_office.Prelude.Text.{join, decimal}
use tiny_office.Prelude.Json.{string, number}
use tiny_office.Prelude.Exec.{Exec, pure, throw, gets, require, guard, choose, ◌>>=◌, ◌>>◌}
use tiny_office.Work.Domain.{
  Timestamp, TaskStatus, active, TaskRecord, RevisionRecord, RunRecord, TaskDetail,
  same_task_status,
}
use tiny_office.Work.Repository.{
  Repository, run_changed, task_changed, get_work_task, get_work_run, list_work_runs,
  list_work_schedules, list_work_task_revisions, append_work_run_event, revise_work_task, notify,
}
use tiny_office.Work.Environment.{
  Environment, Work, task_not_found, task_not_active, source_run_not_found, foreign_source_run,
  terminal_source_run, unchanged_revision, require_text,
}
use tiny_office.Work.Service.{is_terminal_run_status}

pub record ReviseWorkTaskInput : Type 0 where
  pub work_task_id : String
  pub actor_member_id : String
  pub reason : String
  pub title : Option String
  pub description : Option String
  pub acceptance_criteria : Option String
  pub source_work_run_id : Option String

-- What the operations on a task return.
unfoldable pub task_detail : Environment → TaskRecord → Work TaskDetail
task_detail env task = gets (λ s. record {
  task = task;
  revisions = list_work_task_revisions task.id s;
  schedules = list_work_schedules env.order (some task.id) none s;
  runs = list_work_runs env.order (some task.id) none none s;
})

-- The run that the revision comes from: of this task, and not yet ended.
check_source_run : TaskRecord → RunRecord → Work RunRecord
check_source_run task run = do
  guard (run.work_task_id == task.id) (foreign_source_run run.id)
  guard (not (is_terminal_run_status run.status)) (terminal_source_run run.id)
  pure run

find_source_run : TaskRecord → String → Work (Option RunRecord)
unfolding check_source_run
find_source_run task id = do
  found ← gets (get_work_run id)
  run ← require found (source_run_not_found id)
  checked ← check_source_run task run
  pure (some checked)

-- An empty id is falsy.
source_run : TaskRecord → Option String → Work (Option RunRecord)
unfolding find_source_run
source_run task none = pure none
source_run task (some id) = choose (id == "") (pure none) (find_source_run task id)

-- `value === undefined ? old : requireText(value)`
revised_text : Option String → String → String → Work String
revised_text none old field = pure old
revised_text (some new) old field = require_text (some new) field

revised_description : Option String → Option String → Work (Option String)
revised_description none old = pure old
revised_description (some new) old = require_text (some new) "description" >>= λ d. pure (some d)

abbrev same_text : Option String → Option String → Bool
same_text none none = true
same_text (some a) (some b) = a == b
same_text _ _ = false

unfoldable pub revised_task : Timestamp → TaskRecord → String → Option String → String → TaskRecord
revised_task now task title description criteria = record task {
  title = title;
  description = description;
  acceptance_criteria = criteria;
  revision = task.revision + 1;
  updated_at = now;
}

abbrev pub revised_run : Timestamp → ℕ → RunRecord → RunRecord
revised_run now revision run = record run { task_revision = revision; updated_at = now }

new_revision : Environment → TaskRecord → String → String → Option RunRecord → RevisionRecord
new_revision env updated actor reason run = record {
  id = env.create_id 0 "work-task-revision";
  work_task_id = updated.id;
  revision = updated.revision;
  title = updated.title;
  description = updated.description;
  acceptance_criteria = updated.acceptance_criteria;
  changed_by_member_id = actor;
  reason = reason;
  source_work_run_id = package.mathlib.Core.Option.map (λ (r : RunRecord). r.id) run;
  created_at = env.now;
}

note_revision : Environment → String → String → TaskRecord → Option RunRecord → Work Unit
note_revision env actor reason task none = pure tt
note_revision env actor reason task (some run) = do
  event ← append_work_run_event (record {
    id = env.create_id 1 "work-run-event";
    work_run_id = run.id;
    timestamp = env.now;
    actor_member_id = actor;
    event_type = "task_revised";
    summary = join ("WorkTask objective revised to revision " ∷ decimal task.revision ∷ "." ∷ []);
    metadata =
        ("workTaskId", string task.id)
        ∷ ("taskRevision", number task.revision)
        ∷ ("reason", string reason)
        ∷ [];
  })
  pure tt

notify_revised_run : Option RunRecord → Work Unit
notify_revised_run none = pure tt
notify_revised_run (some run) = notify (run_changed run)

-- `reviseWorkTask`.
unfoldable pub revise_work_task_objective : Environment → ReviseWorkTaskInput → Work TaskDetail
unfolding source_run revised_text revised_description new_revision note_revision notify_revised_run
    task_detail
revise_work_task_objective env input = do
  actor ← require_text (some input.actor_member_id) "actorMemberId"
  reason ← require_text (some input.reason) "reason"
  found ← gets (get_work_task input.work_task_id)
  task ← require found (task_not_found input.work_task_id)
  guard (same_task_status task.status active) (task_not_active task.status)
  source ← source_run task input.source_work_run_id
  title ← revised_text input.title task.title "title"
  description ← revised_description input.description task.description
  criteria ← revised_text input.acceptance_criteria task.acceptance_criteria "acceptanceCriteria"
  guard
      (not (
        title == task.title
        && same_text description task.description
        && criteria == task.acceptance_criteria))
      unchanged_revision
  let updated = revised_task env.now task title description criteria
  let run = package.mathlib.Core.Option.map (revised_run env.now (task.revision + 1)) source
  revise_work_task updated (new_revision env updated actor reason source) run
  note_revision env actor reason updated run
  notify (task_changed updated)
  notify_revised_run run
  task_detail env updated
