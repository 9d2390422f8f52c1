-- ===== src/Work/Service/Due.antt =====
-- `listDueWorkSchedules` and `createDueWorkRun` of src/work/work-service.ts.
pub mod Safety
pub mod History
pub mod Intervals
pub mod Reuse
pub mod Outcomes
use tiny_office.Prelude.{
  ℕ, String, Bool, true, false, Option, none, some, List, [], ◌∷◌, ◌&&◌, ◌||◌, not, eqb, leb, ltb,
  is_some, is_number, or_else, compare, then_by, find, filter, sort, take, if◌then◌else◌, Ordering,
}
use tiny_office.Prelude.Text.{join}
use tiny_office.Prelude.Json.{string, number}
use tiny_office.Prelude.Exec.{Exec, pure, throw, gets, require, guard, ◌>>=◌, ◌>>◌}
use tiny_office.Work.Domain.{
  Timestamp, text_order, TriggerKind, TaskStatus, RunStatus, ScheduleStatus, enabled, TriggeredBy,
  schedule, recurrence, TaskRecord, ScheduleRecord, RunRecord, RunEventRecord, is_once,
  is_recurring, same_schedule_status,
}
use tiny_office.Work.Repository.{
  Repository, run_changed, get_work_task, get_work_schedule, list_work_runs, list_work_schedules,
  create_work_run, append_work_run_event, update_work_schedule, notify,
}
use tiny_office.Work.Environment.{
  Environment, Work, schedule_not_found, schedule_not_enabled, not_due, task_not_found,
  require_text, require_active_runtime_member,
}
use tiny_office.Work.Service.{next_run_at_for_schedule}

-- `listDueWorkSchedules`. Without a limit the first 50 are returned.
abbrev is_due_at : Timestamp → ScheduleRecord → Bool
is_due_at due_at c = elim c.next_run_at [
  | none ↦ false
  | some t ↦ leb (text_order t) (text_order due_at)
]

abbrev by_next_run : (String → String → Ordering) → ScheduleRecord → ScheduleRecord → Ordering
by_next_run order left right =
    then_by
      (compare (text_order (or_else left.next_run_at 0)) (text_order (or_else right.next_run_at 0)))
      (order left.id right.id)

unfoldable pub list_due_work_schedules :
    Environment → Option Timestamp → Option ℕ → Repository → List ScheduleRecord
list_due_work_schedules env due_at limit s = take (or_else limit 50) (
    sort (by_next_run env.order) (
      filter (is_due_at (or_else due_at env.now))
        (list_work_schedules env.order none (some enabled) s)))

pub record CreateDueWorkRunInput : Type 0 where
  pub work_schedule_id : String
  pub actor_member_id : String

pub record CreateDueWorkRunResult : Type 0 where
  pub task : TaskRecord
  pub schedule : ScheduleRecord
  pub run : RunRecord
  pub created : Bool

abbrev pub is_scheduled : TriggeredBy → Bool
is_scheduled schedule = true
is_scheduled recurrence = true
is_scheduled _ = false

-- The run that an earlier tick created for this due time.
abbrev pub is_run_for : Timestamp → RunRecord → Bool
is_run_for due_at run = is_number run.scheduled_for due_at && is_scheduled run.triggered_by

-- `!schedule.nextRunAt || schedule.nextRunAt > timestamp` throws
require_due : Timestamp → ScheduleRecord → Work Timestamp
require_due now c = do
  next ← require c.next_run_at not_due
  guard (leb (text_order next) (text_order now)) not_due
  pure next

unfoldable pub due_run : Environment → TaskRecord → ScheduleRecord → Timestamp → RunRecord
due_run env task c due_at = record {
  id = env.create_id 0 "work-run";
  work_task_id = task.id;
  status = RunStatus.queued;
  assignee_member_id = task.owner_member_id;
  task_revision = task.revision;
  triggered_by = if is_recurring c.kind then recurrence else schedule;
  scheduled_for = some due_at;
  started_at = none;
  completed_at = none;
  blocked_reason = none;
  failed_reason = none;
  canceled_reason = none;
  result_summary = none;
  created_at = env.now;
  updated_at = env.now;
}

abbrev kind_text : TriggerKind → String
kind_text TriggerKind.immediate = "immediate"
kind_text TriggerKind.scheduled_once = "scheduled_once"
kind_text TriggerKind.recurring = "recurring"

abbrev max_runs_reached : ScheduleRecord → Bool
max_runs_reached c = elim c.max_runs [ none ↦ false | some m ↦ leb m c.run_count ]

-- The schedule after a run was created: `incremented` is the stored record, counted up, and `next` the
-- time after the due time.
unfoldable pub advanced_schedule :
    Timestamp → ScheduleRecord → ScheduleRecord → Option Timestamp → ScheduleRecord
advanced_schedule now c incremented next =
    let ends = is_once c.kind || max_runs_reached incremented in
    record incremented {
      status = if ends then ScheduleStatus.completed else incremented.status;
      next_run_at = if ends then none else next;
      completed_at = if ends then some now else incremented.completed_at;
      updated_at = now;
    }

unfoldable pub due_event :
    Environment → TaskRecord → ScheduleRecord → Timestamp → String → String → RunEventRecord
due_event env task c due_at run_id actor = record {
  id = env.create_id 1 "work-run-event";
  work_run_id = run_id;
  timestamp = env.now;
  actor_member_id = actor;
  event_type = "created";
  summary = join ("Created WorkRun from due WorkSchedule " ∷ c.id ∷ "." ∷ []);
  metadata =
      ("workTaskId", string task.id)
      ∷ ("workScheduleId", string c.id)
      ∷ ("dueAt", number due_at)
      ∷ ("scheduleKind", string (kind_text c.kind))
      ∷ [];
}

create_run_for :
    Environment
    → CreateDueWorkRunInput
    → TaskRecord
    → ScheduleRecord
    → Timestamp
    → Work CreateDueWorkRunResult
create_run_for env input task c due_at = do
  run ← create_work_run (due_run env task c due_at)
  actor ← require_text (some input.actor_member_id) "actorMemberId"
  event ← append_work_run_event (due_event env task c due_at run.id actor)
  incremented ← gets (get_work_schedule c.id)
  next ← next_run_at_for_schedule env c due_at
  updated ← update_work_schedule (advanced_schedule env.now c (or_else incremented c) next)
  notify (run_changed run)
  pure (record { task = task; schedule = updated; run = run; created = true })

reuse_or_create :
    Environment
    → CreateDueWorkRunInput
    → TaskRecord
    → ScheduleRecord
    → Timestamp
    → Option RunRecord
    → Work CreateDueWorkRunResult
unfolding create_run_for
reuse_or_create env input task c due_at (some existing) =
    pure (record { task = task; schedule = c; run = existing; created = false })
reuse_or_create env input task c due_at none = create_run_for env input task c due_at

-- `createDueWorkRun`
unfoldable pub create_due_work_run :
    Environment → CreateDueWorkRunInput → Work CreateDueWorkRunResult
unfolding require_due reuse_or_create
create_due_work_run env input = do
  found ← gets (get_work_schedule input.work_schedule_id)
  c ← require found (schedule_not_found input.work_schedule_id)
  guard (same_schedule_status c.status enabled) (schedule_not_enabled c.status)
  due_at ← require_due env.now c
  found_task ← gets (get_work_task c.work_task_id)
  task ← require found_task (task_not_found c.work_task_id)
  member ← require_active_runtime_member env task.owner_member_id
  runs ← gets (list_work_runs env.order (some task.id) none none)
  reuse_or_create env input task c due_at (find (is_run_for due_at) runs)
