-- ===== src/Work/Domain.antt =====
-- src/work/domain.ts: the records of durable work. A timestamp stands for the text that
-- `toISOString` gives for it: milliseconds from 1970. The texts of times before the year 10000
-- compare as their instants do, and `text_order` orders all of them.
use tiny_office.Prelude.{
  ℕ, ◌+◌, ◌-◌, String, Bool, true, false, Option, List, eqb, leb, ◌&&◌, if◌then◌else◌,
}
use tiny_office.Prelude.Json.{Metadata}

abbrev pub Timestamp : Type 0
Timestamp = ℕ

-- The last time that a `Date` has, and the first with a year of more than four digits.
abbrev pub last_date : Timestamp
last_date = 8640000000000000

abbrev year_10000 : Timestamp
year_10000 = 253402300800000

-- The place of a time among the texts: from the year 10000 they begin with a plus sign, which is
-- before the digits, both by code unit and by `localeCompare`.
unfoldable pub text_order : Timestamp → ℕ
text_order t = if leb year_10000 t then t - year_10000 else t + last_date

-- A finite number of milliseconds that is not negative, as the doubles have them: the whole
-- milliseconds, and the rest as a number of 2 ^ -1074 of a millisecond.
pub record Interval : Type 0 where
  pub whole : ℕ
  pub fraction : ℕ

abbrev pub is_zero_interval : Interval → Bool
is_zero_interval i = eqb i.whole 0 && eqb i.fraction 0

pub data TaskStatus : Type 0 where
  active completed canceled archived : TaskStatus

pub data RunStatus : Type 0 where
  queued in_progress blocked done failed canceled : RunStatus

pub data ScheduleStatus : Type 0 where
  enabled paused canceled completed : ScheduleStatus

pub data TriggerKind : Type 0 where
  immediate scheduled_once recurring : TriggerKind

pub data SourceKind : Type 0 where
  chat_request intake_event manual : SourceKind

pub data TriggeredBy : Type 0 where
  immediate schedule recurrence migration retry : TriggeredBy

pub record ScheduleRule : Type 0 where
  pub scheduled_for : Option Timestamp
  pub interval_ms : Option Interval
  pub cron : Option String
  pub rrule : Option String

pub record TaskRecord : Type 0 where
  pub id : String
  pub title : String
  pub description : Option String
  pub status : TaskStatus
  pub created_by_member_id : String
  pub owner_member_id : String
  pub source_kind : SourceKind
  pub source_id : String
  pub source_channel_topic_id : Option String
  pub requester_id : Option String
  pub acceptance_criteria : String
  pub revision : ℕ
  pub canceled_reason : Option String
  pub metadata : Metadata
  pub created_at : Timestamp
  pub updated_at : Timestamp
  pub completed_at : Option Timestamp

pub record RevisionRecord : Type 0 where
  pub id : String
  pub work_task_id : String
  pub revision : ℕ
  pub title : String
  pub description : Option String
  pub acceptance_criteria : String
  pub changed_by_member_id : String
  pub reason : String
  pub source_work_run_id : Option String
  pub created_at : Timestamp

pub record ScheduleRecord : Type 0 where
  pub id : String
  pub work_task_id : String
  pub status : ScheduleStatus
  pub kind : TriggerKind
  pub timezone : Option String
  pub schedule_rule : Option ScheduleRule
  pub next_run_at : Option Timestamp
  pub last_run_at : Option Timestamp
  pub run_count : ℕ
  pub max_runs : Option ℕ
  pub paused_reason : Option String
  pub canceled_reason : Option String
  pub created_at : Timestamp
  pub updated_at : Timestamp
  pub completed_at : Option Timestamp

pub record RunRecord : Type 0 where
  pub id : String
  pub work_task_id : String
  pub status : RunStatus
  pub assignee_member_id : String
  pub task_revision : ℕ
  pub triggered_by : TriggeredBy
  pub scheduled_for : Option Timestamp
  pub started_at : Option Timestamp
  pub completed_at : Option Timestamp
  pub blocked_reason : Option String
  pub failed_reason : Option String
  pub canceled_reason : Option String
  pub result_summary : Option String
  pub created_at : Timestamp
  pub updated_at : Timestamp

pub record RunEventRecord : Type 0 where
  pub id : String
  pub work_run_id : String
  pub timestamp : Timestamp
  pub actor_member_id : String
  pub event_type : String
  pub summary : String
  pub metadata : Metadata

pub record TaskDetail : Type 0 where
  pub task : TaskRecord
  pub revisions : List RevisionRecord
  pub schedules : List ScheduleRecord
  pub runs : List RunRecord

pub record RunDetail : Type 0 where
  pub run : RunRecord
  pub events : List RunEventRecord

-- The numbers of the statuses, and `===` on them.
abbrev pub task_status_number : TaskStatus → ℕ
task_status_number active = 0
task_status_number TaskStatus.completed = 1
task_status_number TaskStatus.canceled = 2
task_status_number archived = 3

abbrev pub run_status_number : RunStatus → ℕ
run_status_number queued = 0
run_status_number in_progress = 1
run_status_number blocked = 2
run_status_number done = 3
run_status_number failed = 4
run_status_number RunStatus.canceled = 5

abbrev pub schedule_status_number : ScheduleStatus → ℕ
schedule_status_number enabled = 0
schedule_status_number paused = 1
schedule_status_number ScheduleStatus.canceled = 2
schedule_status_number ScheduleStatus.completed = 3

abbrev pub same_task_status : TaskStatus → TaskStatus → Bool
same_task_status a b = eqb (task_status_number a) (task_status_number b)

abbrev pub same_run_status : RunStatus → RunStatus → Bool
same_run_status a b = eqb (run_status_number a) (run_status_number b)

abbrev pub same_schedule_status : ScheduleStatus → ScheduleStatus → Bool
same_schedule_status a b = eqb (schedule_status_number a) (schedule_status_number b)

abbrev pub is_once : TriggerKind → Bool
is_once scheduled_once = true
is_once _ = false

abbrev pub is_recurring : TriggerKind → Bool
is_recurring recurring = true
is_recurring _ = false

abbrev pub is_immediate : TriggerKind → Bool
is_immediate TriggerKind.immediate = true
is_immediate _ = false
