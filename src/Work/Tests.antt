-- ===== src/Work/Tests.antt =====
-- The records of a small office, on which the theorems are applied in the children.
pub mod Tasks
pub mod Runs
pub mod Due
pub mod Leases
pub mod Calls
pub mod Dispatch
use tiny_office.Prelude.{
  ℕ, String, Ordering, ◌≡◌, ◌≢◌, refl, Bool, true, false, Option, none, some, List, [], ◌∷◌,
  HasDistinctIds, find, find_by, All, upsert,
}
use tiny_office.Prelude.Text.{optional_text, trim}
use tiny_office.Prelude.Exec.{Result, ok, err}
use tiny_office.Work.Domain.{
  TaskStatus, RunStatus, ScheduleStatus, TriggerKind, SourceKind, TriggeredBy, TaskRecord,
  ScheduleRecord, RunRecord, TaskDetail,
}
use tiny_office.Work.Repository.{
  Repository, empty, run_id, event_id, task_id, schedule_id, get_work_task, get_work_run,
  get_work_schedule,
}
use tiny_office.Work.Environment.{
  Environment, Employee, is_required, bad_run_move, evidence_required,
}
use tiny_office.Work.Service.Runs.{MoveWorkRunInput, moved_run, move_event, move_work_run}
use tiny_office.Work.Service.Runs.Moves.{
  move_refusal, move_work_run-accepted, move_work_run-refused, move_work_run-terminal,
  move_work_run-blank_actor,
}
use tiny_office.Work.Service.Tasks.{
  TaskLifecycleInput, cancel_work_task, archive_work_task, restore_work_task,
}
use tiny_office.Work.Service.Tasks.Cancel.{IsClosedOff, cancel_work_task-closes}
use tiny_office.Work.Service.Tasks.Archive.{restore-archive}
use tiny_office.Work.Service.Schedules.{canceled_task}

abbrev office : Environment
office = record {
  now = 100;
  create_id = λ n prefix. prefix;
  employees = record { employee_id = "ann"; enabled = true } ∷ [];
  order = λ a b. Ordering.eq;
  parse_date = λ text. some 50;
  rounds_up = λ time interval. false;
}

abbrev report : TaskRecord
report = record {
  id = "report";
  title = "Weekly report";
  description = none;
  status = TaskStatus.active;
  created_by_member_id = "ann";
  owner_member_id = "ann";
  source_kind = SourceKind.manual;
  source_id = "desk";
  source_channel_topic_id = none;
  requester_id = none;
  acceptance_criteria = "It is sent.";
  revision = 1;
  canceled_reason = none;
  metadata = [];
  created_at = 10;
  updated_at = 10;
  completed_at = none;
}

abbrev draft : RunRecord
draft = record {
  id = "draft";
  work_task_id = "report";
  status = RunStatus.in_progress;
  assignee_member_id = "ann";
  task_revision = 1;
  triggered_by = TriggeredBy.recurrence;
  scheduled_for = some 20;
  started_at = some 21;
  completed_at = none;
  blocked_reason = none;
  failed_reason = none;
  canceled_reason = none;
  result_summary = none;
  created_at = 20;
  updated_at = 21;
}

abbrev weekly : ScheduleRecord
weekly = record {
  id = "weekly";
  work_task_id = "report";
  status = ScheduleStatus.enabled;
  kind = TriggerKind.recurring;
  timezone = none;
  schedule_rule = some (record {
    scheduled_for = some 20;
    interval_ms = some (record { whole = 70; fraction = 0 });
    cron = none;
    rrule = none;
  });
  next_run_at = some 90;
  last_run_at = some 20;
  run_count = 1;
  max_runs = none;
  paused_reason = none;
  canceled_reason = none;
  created_at = 10;
  updated_at = 20;
  completed_at = none;
}

abbrev desk : Repository
desk = record empty { tasks = report ∷ []; schedules = weekly ∷ []; runs = draft ∷ [] }

ann-named : optional_text (some "ann") ≡ some "ann"
unfolding trim
ann-named = refl

blank-unnamed : optional_text (some " ") ≡ none
unfolding trim
blank-unnamed = refl

report-found : get_work_task "report" desk ≡ some report
unfolding find_by
report-found = refl

draft-found : get_work_run "draft" desk ≡ some draft
unfolding find_by
draft-found = refl
