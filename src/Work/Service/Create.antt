-- ===== src/Work/Service/Create.antt =====
-- `createWork` of src/work/work-service.ts.
pub mod Safety
pub mod History
use tiny_office.Prelude.{
  ℕ, String, Bool, true, false, Option, none, some, List, [], ◌∷◌, ◌||◌, not, eqb, is_some,
  if◌then◌else◌,
}
use tiny_office.Prelude.Text.{optional_text, join}
use tiny_office.Prelude.Json.{Metadata, string}
use tiny_office.Prelude.Exec.{Exec, pure, throw, gets, require, guard, choose, ◌>>=◌, ◌>>◌}
use tiny_office.Work.Domain.{
  Timestamp, Interval, is_zero_interval, TriggerKind, immediate, scheduled_once, recurring,
  SourceKind, TaskStatus, RunStatus, ScheduleStatus, TriggeredBy, TaskRecord, ScheduleRecord,
  RunRecord, ScheduleRule, is_once, is_recurring, is_immediate,
}
use tiny_office.Work.Repository.{
  Notice, task_changed, run_changed, get_work_task, get_work_schedule, schedule_id,
  create_work_task, create_work_schedule, create_work_run, append_work_run_event, notify,
}
use tiny_office.Work.Environment.{
  Environment, Work, is_required, interval_required, bad_max_runs, max_runs_without_schedule,
  task_not_found, require_text, require_iso_timestamp, require_active_runtime_member,
}
use tiny_office.Work.Service.{should_create_schedule}

pub record TriggerInput : Type 0 where
  pub kind : TriggerKind
  pub scheduled_for : Option String
  pub timezone : Option String
  pub interval_ms : Option Interval
  pub cron : Option String
  pub rrule : Option String

pub record CreateWorkInput : Type 0 where
  pub title : String
  pub description : Option String
  pub created_by_member_id : String
  pub owner_member_id : String
  pub source_kind : SourceKind
  pub source_id : String
  pub source_channel_topic_id : Option String
  pub requester_id : Option String
  pub acceptance_criteria : String
  pub trigger : TriggerInput
  pub max_runs : Option ℕ
  pub metadata : Metadata

pub record CreateWorkResult : Type 0 where
  pub task : Option TaskRecord
  pub schedule : Option ScheduleRecord
  pub run : Option RunRecord

abbrev is_positive : Option ℕ → Bool
is_positive none = false
is_positive (some n) = not (eqb n 0)

abbrev scheduled_for_field : String
scheduled_for_field = "trigger.scheduledFor"

abbrev is_positive_interval : Option Interval → Bool
is_positive_interval none = false
is_positive_interval (some i) = not (is_zero_interval i)

-- `validateWorkTrigger`. An interval is a finite number that is not negative and `maxRuns` is a natural
-- number, so the tests for a finite and for a whole number always pass.
validate_kind : Environment → TriggerInput → TriggerKind → Work Unit
validate_kind env trigger immediate = pure tt
validate_kind env trigger scheduled_once =
    require_iso_timestamp env trigger.scheduled_for scheduled_for_field >>= λ _. pure tt
validate_kind env trigger recurring =
    require_iso_timestamp env trigger.scheduled_for scheduled_for_field >>= λ _.
    guard (is_positive_interval trigger.interval_ms) interval_required

validate_trigger_kind : Environment → TriggerInput → Work Unit
unfolding validate_kind
validate_trigger_kind env trigger = validate_kind env trigger trigger.kind

unfoldable pub validate_work_trigger : Environment → CreateWorkInput → Work Unit
unfolding validate_trigger_kind
validate_work_trigger env input = do
  validate_trigger_kind env input.trigger
  guard (if is_some input.max_runs then is_positive input.max_runs else true) bad_max_runs

scheduled_time : Environment → TriggerInput → Work (Option Timestamp)
scheduled_time env trigger =
    choose (should_create_schedule trigger.kind)
      (require_iso_timestamp env trigger.scheduled_for scheduled_for_field >>= λ t. pure (some t))
      (pure none)

-- An interval of 0 is falsy and is left out.
abbrev nonzero : Option Interval → Option Interval
nonzero none = none
nonzero (some i) = if is_zero_interval i then none else some i

abbrev schedule_rule : TriggerInput → Option Timestamp → ScheduleRule
schedule_rule trigger scheduled_for = record {
  scheduled_for = scheduled_for;
  interval_ms = nonzero trigger.interval_ms;
  cron = optional_text trigger.cron;
  rrule = optional_text trigger.rrule;
}

-- The records that the call creates; the checked texts come first.
new_task :
    Environment
    → CreateWorkInput
    → (owner title created_by source_id acceptance_criteria : String) → TaskRecord
new_task env input owner title created_by source_id acceptance_criteria = record {
  id = env.create_id 0 "work-task";
  title = title;
  description = optional_text input.description;
  status = TaskStatus.active;
  created_by_member_id = created_by;
  owner_member_id = owner;
  source_kind = input.source_kind;
  source_id = source_id;
  source_channel_topic_id = optional_text input.source_channel_topic_id;
  requester_id = optional_text input.requester_id;
  acceptance_criteria = acceptance_criteria;
  revision = 1;
  canceled_reason = none;
  metadata = input.metadata;
  created_at = env.now;
  updated_at = env.now;
  completed_at = none;
}

new_schedule : Environment → CreateWorkInput → Option Timestamp → TaskRecord → ScheduleRecord
new_schedule env input scheduled_for task = record {
  id = env.create_id 1 "work-schedule";
  work_task_id = task.id;
  status = ScheduleStatus.enabled;
  kind = input.trigger.kind;
  timezone = optional_text input.trigger.timezone;
  schedule_rule = some (schedule_rule input.trigger scheduled_for);
  next_run_at = scheduled_for;
  last_run_at = none;
  run_count = 0;
  max_runs = input.max_runs;
  paused_reason = none;
  canceled_reason = none;
  created_at = env.now;
  updated_at = env.now;
  completed_at = none;
}

immediate_run : Environment → TaskRecord → RunRecord
immediate_run env task = record {
  id = env.create_id 1 "work-run";
  work_task_id = task.id;
  status = RunStatus.queued;
  assignee_member_id = task.owner_member_id;
  task_revision = task.revision;
  triggered_by = TriggeredBy.immediate;
  scheduled_for = some env.now;
  started_at = none;
  completed_at = none;
  blocked_reason = none;
  failed_reason = none;
  canceled_reason = none;
  result_summary = none;
  created_at = env.now;
  updated_at = env.now;
}

create_optional_schedule :
    Environment → CreateWorkInput → Option Timestamp → TaskRecord → Work (Option ScheduleRecord)
unfolding new_schedule
create_optional_schedule env input scheduled_for task =
    choose (should_create_schedule input.trigger.kind)
      (create_work_schedule (new_schedule env input scheduled_for task) >>= λ c. pure (some c))
      (pure none)

create_immediate_run : Environment → TaskRecord → Work (Option RunRecord)
unfolding immediate_run
create_immediate_run env task = do
  run ← create_work_run (immediate_run env task)
  event ← append_work_run_event (record {
    id = env.create_id 2 "work-run-event";
    work_run_id = run.id;
    timestamp = env.now;
    actor_member_id = task.created_by_member_id;
    event_type = "created";
    summary = join ("Created WorkRun for " ∷ task.owner_member_id ∷ "." ∷ []);
    metadata = ("workTaskId", string task.id) ∷ ("scheduleKind", string "immediate") ∷ [];
  })
  pure (some run)

create_optional_run : Environment → CreateWorkInput → TaskRecord → Work (Option RunRecord)
unfolding create_immediate_run
create_optional_run env input task =
    choose (is_immediate input.trigger.kind) (create_immediate_run env task) (pure none)

notify_optional_run : Option RunRecord → Work Unit
notify_optional_run none = pure tt
notify_optional_run (some run) = notify (run_changed run)

abbrev stored_schedule : Option ScheduleRecord → Work (Option ScheduleRecord)
stored_schedule none = pure none
stored_schedule (some c) = gets (get_work_schedule c.id)

-- `createWork`. `getWorkTask(task.id) as WorkTaskRecord` reads the task that was just written.
unfoldable pub create_work : Environment → CreateWorkInput → Work CreateWorkResult
unfolding validate_work_trigger scheduled_time new_task create_optional_schedule create_optional_run
    notify_optional_run
create_work env input = do
  validate_work_trigger env input
  scheduled_for ← scheduled_time env input.trigger
  guard (should_create_schedule input.trigger.kind || not (is_some input.max_runs))
      max_runs_without_schedule
  owner ← require_active_runtime_member env input.owner_member_id
  title ← require_text (some input.title) "title"
  created_by ← require_text (some input.created_by_member_id) "createdByMemberId"
  source_id ← require_text (some input.source_id) "sourceId"
  criteria ← require_text (some input.acceptance_criteria) "acceptanceCriteria"
  task ← create_work_task (new_task env input owner title created_by source_id criteria)
  schedule ← create_optional_schedule env input scheduled_for task
  run ← create_optional_run env input task
  notify (task_changed task)
  notify_optional_run run
  stored ← gets (get_work_task task.id)
  stored_c ← stored_schedule schedule
  pure (record { task = stored; schedule = stored_c; run = run })
