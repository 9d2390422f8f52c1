-- ===== src/Work/Service/Tasks.antt =====
-- `cancelWorkTask`, `archiveWorkTask` and `restoreWorkTask` of src/work/work-service.ts.
pub mod Safety
pub mod History
pub mod Cancel
pub mod Archive
use tiny_office.Prelude.{
  ℕ, suc, String, Bool, true, false, Option, none, some, List, [], ◌∷◌, not, ◌||◌, if◌then◌else◌,
}
use tiny_office.Prelude.Text.{optional_text, join}
use tiny_office.Prelude.Json.{set_field, string, number, optional_json}
use tiny_office.Prelude.Exec.{Exec, pure, throw, gets, require, guard, choose, ◌>>=◌, ◌>>◌}
use tiny_office.Work.Domain.{
  Timestamp, TaskStatus, archived, RunStatus, ScheduleStatus, enabled, paused, TaskRecord,
  ScheduleRecord, RunRecord, TaskDetail, same_task_status,
}
use tiny_office.Work.Repository.{
  task_changed, run_changed, get_work_task, list_work_runs, list_work_schedules, update_work_task,
  update_work_schedule, update_work_run, append_work_run_event, notify,
}
use tiny_office.Work.Environment.{
  Environment, Work, task_not_found, archived_task, not_archivable, require_text,
}
use tiny_office.Work.Service.{
  is_terminal_run_status, is_inactive_task_status, task_status_text, previous_archived_task_status,
}
use tiny_office.Work.Service.Revise.{task_detail}
use tiny_office.Work.Service.Schedules.{canceled_task}

pub record TaskLifecycleInput : Type 0 where
  pub work_task_id : String
  pub actor_member_id : String
  pub reason : Option String

abbrev pub is_live_schedule : ScheduleStatus → Bool
is_live_schedule enabled = true
is_live_schedule paused = true
is_live_schedule _ = false

unfoldable pub canceled_schedule : Timestamp → String → ScheduleRecord → ScheduleRecord
canceled_schedule now reason c = record c {
  status = ScheduleStatus.canceled;
  canceled_reason = some reason;
  next_run_at = none;
  completed_at = some now;
  updated_at = now;
}

-- The loop over the task's schedules.
unfoldable pub cancel_schedules : Timestamp → String → List ScheduleRecord → Work Unit
cancel_schedules now reason [] = pure tt
cancel_schedules now reason (c ∷ cs) =
    let rest = cancel_schedules now reason cs in
    choose (is_live_schedule c.status)
      (update_work_schedule (canceled_schedule now reason c) >>= λ _. rest) rest

unfoldable pub canceled_run : Timestamp → String → RunRecord → RunRecord
canceled_run now reason run = record run {
  status = RunStatus.canceled;
  completed_at = some now;
  canceled_reason = some reason;
  updated_at = now;
}

cancel_run : Environment → String → String → TaskRecord → ℕ → RunRecord → Work Unit
cancel_run env actor reason task drawn run = do
  updated ← update_work_run (canceled_run env.now reason run)
  event ← append_work_run_event (record {
    id = env.create_id drawn "work-run-event";
    work_run_id = run.id;
    timestamp = env.now;
    actor_member_id = actor;
    event_type = "canceled";
    summary = join ("Canceled WorkRun because WorkTask " ∷ task.id ∷ " was canceled." ∷ []);
    metadata = ("workTaskId", string task.id) ∷ ("reason", string reason) ∷ [];
  })
  pure tt

-- The loop over the task's runs; `drawn` ids have been drawn before.
unfoldable pub cancel_runs :
    Environment → String → String → TaskRecord → ℕ → List RunRecord → Work Unit
unfolding cancel_run
cancel_runs env actor reason task drawn [] = pure tt
cancel_runs env actor reason task drawn (run ∷ runs) =
    let skip = cancel_runs env actor reason task drawn runs in
    let rest = cancel_runs env actor reason task (suc drawn) runs in
    choose (is_terminal_run_status run.status) skip
      (cancel_run env actor reason task drawn run >>= λ _. rest)

notify_runs : List RunRecord → Work Unit
notify_runs [] = pure tt
notify_runs (run ∷ runs) = do notify (run_changed run); notify_runs runs

-- `cancelWorkTask`
unfoldable pub cancel_work_task : Environment → TaskLifecycleInput → Work TaskDetail
unfolding notify_runs
cancel_work_task env input = do
  reason ← require_text input.reason "reason"
  actor ← require_text (some input.actor_member_id) "actorMemberId"
  found ← gets (get_work_task input.work_task_id)
  task ← require found (task_not_found input.work_task_id)
  guard (not (same_task_status task.status archived)) archived_task
  schedules ← gets (list_work_schedules env.order (some task.id) none)
  runs ← gets (list_work_runs env.order (some task.id) none none)
  updated ← update_work_task (canceled_task env.now (some reason) task)
  cancel_schedules env.now reason schedules
  cancel_runs env actor reason task 0 runs
  notify (task_changed updated)
  changed ← gets (list_work_runs env.order (some task.id) none none)
  notify_runs changed
  task_detail env updated

-- The task with its former status kept in the metadata.
unfoldable pub archived_from : Timestamp → String → Option String → TaskRecord → TaskRecord
archived_from now actor reason task = record task {
  status = archived;
  metadata = set_field "archivedAt" (number now) (
      set_field "archivedReason" (optional_json reason) (
        set_field "archivedByMemberId" (string actor)
          (set_field "archivedFromStatus" (string (task_status_text task.status)) task.metadata)));
  updated_at = now;
}

archive_inactive : Environment → String → Option String → TaskRecord → Work TaskDetail
unfolding archived_from
archive_inactive env actor reason task = do
  guard (is_inactive_task_status task.status) (not_archivable task.status)
  updated ← update_work_task (archived_from env.now actor reason task)
  notify (task_changed updated)
  task_detail env updated

-- `archiveWorkTask`
unfoldable pub archive_work_task : Environment → TaskLifecycleInput → Work TaskDetail
unfolding archive_inactive
archive_work_task env input = do
  actor ← require_text (some input.actor_member_id) "actorMemberId"
  found ← gets (get_work_task input.work_task_id)
  task ← require found (task_not_found input.work_task_id)
  choose (same_task_status task.status archived) (task_detail env task)
      (archive_inactive env actor (optional_text input.reason) task)

unfoldable pub restored_task : Timestamp → TaskRecord → TaskRecord
restored_task now task = record task {
  status = previous_archived_task_status task;
  updated_at = now;
}

restore_archived : Environment → TaskRecord → Work TaskDetail
unfolding restored_task
restore_archived env task = do
  updated ← update_work_task (restored_task env.now task)
  notify (task_changed updated)
  task_detail env updated

-- `restoreWorkTask`
unfoldable pub restore_work_task : Environment → TaskLifecycleInput → Work TaskDetail
unfolding restore_archived
restore_work_task env input = do
  actor ← require_text (some input.actor_member_id) "actorMemberId"
  found ← gets (get_work_task input.work_task_id)
  task ← require found (task_not_found input.work_task_id)
  choose (same_task_status task.status archived) (restore_archived env task) (task_detail env task)
