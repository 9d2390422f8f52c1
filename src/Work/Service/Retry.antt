-- ===== src/Work/Service/Retry.antt =====
-- `retryWorkRun` of src/work/work-service.ts.
pub mod Safety
pub mod History
use tiny_office.Prelude.{
  ℕ, String, Bool, true, false, Option, none, some, List, [], ◌∷◌, is_some, or_else, find,
}
use tiny_office.Prelude.Text.{join, optional_text}
use tiny_office.Prelude.Json.{string}
use tiny_office.Prelude.Exec.{Exec, pure, throw, gets, require, guard, ◌>>=◌, ◌>>◌}
use tiny_office.Work.Domain.{
  Timestamp, TaskStatus, active, RunStatus, queued, in_progress, blocked, failed, TriggeredBy,
  TaskRecord, RunRecord, same_task_status, same_run_status,
}
use tiny_office.Work.Repository.{
  run_changed, task_changed, get_work_task, get_work_run, list_work_runs, create_work_run,
  append_work_run_event, update_work_task, notify,
}
use tiny_office.Work.Environment.{
  Environment, Work, run_not_found, task_not_found, not_failed, task_not_active, active_run_exists,
  require_text, require_active_runtime_member,
}

pub record RetryWorkRunInput : Type 0 where
  pub work_run_id : String
  pub actor_member_id : String
  pub assignee_member_id : Option String

abbrev pub is_open : RunRecord → Bool
is_open run = elim run.status [ queued ↦ true | in_progress ↦ true | blocked ↦ true | _ ↦ false ]

-- `if (activeRun) throw`
reject_open_run : Option RunRecord → Work Unit
reject_open_run none = pure tt
reject_open_run (some run) = throw (active_run_exists run.id)

retried_run : Environment → TaskRecord → RunRecord → String → RunRecord
retried_run env task previous assignee = record {
  id = env.create_id 0 "work-run";
  work_task_id = task.id;
  status = queued;
  assignee_member_id = assignee;
  task_revision = task.revision;
  triggered_by = TriggeredBy.retry;
  scheduled_for = previous.scheduled_for;
  started_at = none;
  completed_at = none;
  blocked_reason = none;
  failed_reason = none;
  canceled_reason = none;
  result_summary = none;
  created_at = env.now;
  updated_at = env.now;
}

-- `retryWorkRun`
unfoldable pub retry_work_run : Environment → RetryWorkRunInput → Work RunRecord
unfolding reject_open_run retried_run
retry_work_run env input = do
  actor ← require_text (some input.actor_member_id) "actorMemberId"
  found ← gets (get_work_run input.work_run_id)
  previous ← require found (run_not_found input.work_run_id)
  guard (same_run_status previous.status failed) (not_failed previous.status)
  found_task ← gets (get_work_task previous.work_task_id)
  task ← require found_task (task_not_found previous.work_task_id)
  guard (same_task_status task.status active) (task_not_active task.status)
  runs ← gets (list_work_runs env.order (some task.id) none none)
  reject_open_run (find is_open runs)
  assignee ←
      require_active_runtime_member env
        (or_else (optional_text input.assignee_member_id) previous.assignee_member_id)
  retried ← create_work_run (retried_run env task previous assignee)
  noted ← append_work_run_event (record {
    id = env.create_id 1 "work-run-event";
    work_run_id = previous.id;
    timestamp = env.now;
    actor_member_id = actor;
    event_type = "retry_created";
    summary = join ("Created retry WorkRun " ∷ retried.id ∷ "." ∷ []);
    metadata = ("retryWorkRunId", string retried.id) ∷ [];
  })
  created ← append_work_run_event (record {
    id = env.create_id 2 "work-run-event";
    work_run_id = retried.id;
    timestamp = env.now;
    actor_member_id = actor;
    event_type = "created";
    summary = join ("Created as a retry of failed WorkRun " ∷ previous.id ∷ "." ∷ []);
    metadata = ("retryOfWorkRunId", string previous.id) ∷ ("workTaskId", string task.id) ∷ [];
  })
  updated ← update_work_task (record task { updated_at = env.now })
  notify (task_changed updated)
  notify (run_changed retried)
  pure retried
