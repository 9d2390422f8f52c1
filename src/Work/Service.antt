-- ===== src/Work/Service.antt =====
-- src/work/work-service.ts: the tables and tests on statuses that the operations share. Each child
-- has the operations on one kind of record.
pub mod Create
pub mod Due
pub mod Retry
pub mod Revise
pub mod Schedules
pub mod Tasks
pub mod Runs
use tiny_office.Prelude.{
  ◌+◌, leb, String, Bool, true, false, Option, none, some, List, [], ◌∷◌, ◌&&◌, ◌||◌, not, ◌==◌,
  eqb, any, is_some, if◌then◌else◌,
}
use tiny_office.Prelude.Json.{Json, Metadata, get_field, string}
use tiny_office.Prelude.Text.{join}
use tiny_office.Prelude.Exec.{pure, guard, choose, ◌>>=◌, ◌>>◌}
use tiny_office.Work.Environment.{Environment, Work, invalid_date}
use tiny_office.Work.Domain.{
  Timestamp, Interval, last_date, is_zero_interval, TaskStatus, active, archived, RunStatus, queued,
  in_progress, blocked, done, failed, ScheduleStatus, enabled, paused, TriggerKind, scheduled_once,
  recurring, ScheduleRule, TaskRecord, ScheduleRecord, RunRecord, same_run_status,
  same_schedule_status, is_once, is_recurring,
}

-- `allowedRunTransitions`
abbrev pub allowed_run_transitions : RunStatus → List RunStatus
allowed_run_transitions queued = in_progress ∷ RunStatus.canceled ∷ []
allowed_run_transitions in_progress = blocked ∷ done ∷ failed ∷ RunStatus.canceled ∷ []
allowed_run_transitions blocked = blocked ∷ in_progress ∷ done ∷ failed ∷ RunStatus.canceled ∷ []
allowed_run_transitions done = []
allowed_run_transitions failed = []
allowed_run_transitions RunStatus.canceled = []

-- `allowedScheduleTransitions`
abbrev pub allowed_schedule_transitions : ScheduleStatus → List ScheduleStatus
allowed_schedule_transitions enabled =
    paused ∷ ScheduleStatus.canceled ∷ ScheduleStatus.completed ∷ []
allowed_schedule_transitions paused =
    enabled ∷ ScheduleStatus.canceled ∷ ScheduleStatus.completed ∷ []
allowed_schedule_transitions ScheduleStatus.completed = []
allowed_schedule_transitions ScheduleStatus.canceled = []

-- `list.includes(item)`
abbrev pub includes : {A : Type 0} → (A → A → Bool) → List A → A → Bool
includes same [] a = false
includes same (x ∷ xs) a = same x a || includes same xs a

abbrev pub can_move_run : RunStatus → RunStatus → Bool
can_move_run from to = includes same_run_status (allowed_run_transitions from) to

abbrev pub can_move_schedule : ScheduleStatus → ScheduleStatus → Bool
can_move_schedule from to = includes same_schedule_status (allowed_schedule_transitions from) to

abbrev pub run_status_text : RunStatus → String
run_status_text queued = "queued"
run_status_text in_progress = "in_progress"
run_status_text blocked = "blocked"
run_status_text done = "done"
run_status_text failed = "failed"
run_status_text RunStatus.canceled = "canceled"

-- `eventTypeForStatus`
abbrev pub event_type_for_status : RunStatus → String
event_type_for_status in_progress = "started"
event_type_for_status done = "completed"
event_type_for_status status = run_status_text status

-- `statusReasonField`
abbrev pub status_reason_field : RunStatus → Bool
status_reason_field blocked = true
status_reason_field failed = true
status_reason_field RunStatus.canceled = true
status_reason_field _ = false

abbrev pub is_terminal_run_status : RunStatus → Bool
is_terminal_run_status done = true
is_terminal_run_status failed = true
is_terminal_run_status RunStatus.canceled = true
is_terminal_run_status _ = false

abbrev pub is_inactive_task_status : TaskStatus → Bool
is_inactive_task_status TaskStatus.completed = true
is_inactive_task_status TaskStatus.canceled = true
is_inactive_task_status _ = false

abbrev pub task_status_text : TaskStatus → String
task_status_text active = "active"
task_status_text TaskStatus.completed = "completed"
task_status_text TaskStatus.canceled = "canceled"
task_status_text archived = "archived"

-- `metadataText(...)` and the comparisons of `previousArchivedTaskStatus`
previous_status : Json → TaskStatus
previous_status (string s) =
    if s == "active"
    then active
    else if s == "completed"
    then TaskStatus.completed
    else TaskStatus.canceled
previous_status _ = TaskStatus.canceled

unfoldable pub previous_archived_task_status : TaskRecord → TaskStatus
unfolding previous_status
previous_archived_task_status task = previous_status (get_field "archivedFromStatus" task.metadata)

abbrev pub should_create_schedule : TriggerKind → Bool
should_create_schedule scheduled_once = true
should_create_schedule recurring = true
should_create_schedule _ = false

unfoldable pub is_one_shot_work : TaskRecord → Option ScheduleRecord → List RunRecord → Bool
is_one_shot_work task none runs = any (λ r. eqb r.created_at task.created_at) runs
is_one_shot_work task (some schedule) runs = is_once schedule.kind

abbrev pub task_status_for_terminal_run : RunStatus → TaskStatus
task_status_for_terminal_run done = TaskStatus.completed
task_status_for_terminal_run RunStatus.canceled = TaskStatus.canceled
task_status_for_terminal_run _ = active

abbrev pub rule_interval : Option ScheduleRule → Option Interval
rule_interval none = none
rule_interval (some rule) = rule.interval_ms

-- The sum of doubles, its fraction cut off, as `Date` reads it.
unfoldable pub plus_interval : Environment → Timestamp → Interval → Timestamp
plus_interval env due_at i =
    due_at + i.whole + (if not (eqb i.fraction 0) && env.rounds_up due_at i then 1 else 0)

-- `new Date(time).toISOString()`, a RangeError past the last date
unfoldable pub iso_of : Timestamp → Work Timestamp
iso_of t = do guard (leb t last_date) invalid_date; pure t

unfoldable pub next_after : Environment → Option Interval → Timestamp → Work (Option Timestamp)
unfolding plus_interval iso_of
next_after env none due_at = pure none
next_after env (some i) due_at =
    choose (is_zero_interval i) (pure none)
      (iso_of (plus_interval env due_at i) >>= λ t. pure (some t))

-- `nextRunAtForSchedule`
unfoldable pub next_run_at_for_schedule :
    Environment → ScheduleRecord → Timestamp → Work (Option Timestamp)
unfolding next_after
next_run_at_for_schedule env schedule due_at =
    choose (is_recurring schedule.kind)
      (next_after env (rule_interval schedule.schedule_rule) due_at) (pure none)
