-- ===== src/Work/Service/Runs.antt =====
-- `moveWorkRun` and `recordWorkRunEvent` of src/work/work-service.ts.
pub mod Safety
pub mod History
pub mod Settling
pub mod Moves
use tiny_office.Prelude.{
  ℕ, max, String, Bool, true, false, Option, none, some, List, [], ◌∷◌, not, ◌&&◌, ◌||◌, leb,
  is_some, or_else, first_some, head?, length, if◌then◌else◌,
}
use tiny_office.Prelude.Text.{optional_text, join}
use tiny_office.Prelude.Json.{Metadata, string, optional_json}
use tiny_office.Prelude.Exec.{Exec, pure, throw, gets, require, guard, choose, ◌>>=◌, ◌>>◌}
use tiny_office.Work.Domain.{
  Timestamp, TaskStatus, RunStatus, in_progress, blocked, done, failed, ScheduleStatus, TaskRecord,
  ScheduleRecord, RunRecord, RunEventRecord, same_run_status,
}
use tiny_office.Work.Repository.{
  Notice, task_changed, run_changed, run_terminal, get_work_task, get_work_run, list_work_runs,
  list_work_schedules, update_work_task, update_work_schedule, update_work_run,
  append_work_run_event, notify,
}
use tiny_office.Work.Environment.{
  Environment, Work, run_not_found, bad_run_move, reason_required, evidence_required, require_text,
}
use tiny_office.Work.Service.{
  can_move_run, run_status_text, event_type_for_status, status_reason_field, is_terminal_run_status,
  is_inactive_task_status, is_one_shot_work, task_status_for_terminal_run,
}

pub record MoveWorkRunInput : Type 0 where
  pub work_run_id : String
  pub actor_member_id : String
  pub status : RunStatus
  pub summary : Option String
  pub reason : Option String
  pub evidence : Option String

abbrev is_in_progress : RunStatus → Bool
is_in_progress s = same_run_status s in_progress

-- The run's record after the move.
unfoldable pub moved_run : Timestamp → MoveWorkRunInput → RunRecord → RunRecord
moved_run now input run =
    let reason = optional_text input.reason in
    record run {
      status = input.status;
      started_at =
          if is_in_progress input.status && not (is_some run.started_at)
          then some now
          else run.started_at;
      completed_at = if is_terminal_run_status input.status then some now else run.completed_at;
      blocked_reason = if same_run_status input.status blocked then reason else run.blocked_reason;
      failed_reason = if same_run_status input.status failed then reason else run.failed_reason;
      canceled_reason =
          if same_run_status input.status RunStatus.canceled then reason else run.canceled_reason;
      result_summary =
          if same_run_status input.status done
          then first_some (optional_text input.summary) (optional_text input.evidence)
          else run.result_summary;
      updated_at = now;
    }

unfoldable pub move_event : Environment → MoveWorkRunInput → RunRecord → String → RunEventRecord
move_event env input run actor = record {
  id = env.create_id 0 "work-run-event";
  work_run_id = run.id;
  timestamp = env.now;
  actor_member_id = actor;
  event_type = event_type_for_status input.status;
  summary = or_else (optional_text input.summary) (
      join (
        "Moved WorkRun from "
        ∷ run_status_text run.status
        ∷ " to "
        ∷ run_status_text input.status
        ∷ "."
        ∷ []));
  metadata =
      ("fromStatus", string (run_status_text run.status))
      ∷ ("toStatus", string (run_status_text input.status))
      ∷ ("reason", optional_json (optional_text input.reason))
      ∷ ("evidence", optional_json (optional_text input.evidence))
      ∷ [];
}

-- Which word the reason of a closed task begins with.
abbrev attempt_word : Bool → String
attempt_word one_shot = if one_shot then "One-shot" else "Final"

terminal_reason : RunStatus → Bool → Option String → Option String
terminal_reason failed one_shot reason = some (
    join (
      attempt_word one_shot
      ∷ " WorkRun failed: "
      ∷ or_else reason "No failure reason was provided."
      ∷ []))
terminal_reason RunStatus.canceled one_shot reason =
    first_some reason (some (join (attempt_word one_shot ∷ " WorkRun was canceled." ∷ [])))
terminal_reason _ one_shot reason = none

-- The task that its last run closes.
unfoldable pub closed_task : Timestamp → RunStatus → Bool → Option String → TaskRecord → TaskRecord
unfolding terminal_reason
closed_task now status one_shot reason task =
    let closed = task_status_for_terminal_run status in
    record task {
      status = closed;
      canceled_reason = elim closed [
        | TaskStatus.canceled ↦ terminal_reason status one_shot reason
        | _ ↦ none
      ];
      completed_at = if is_inactive_task_status closed then some now else task.completed_at;
      updated_at = now;
    }

-- `baseSchedule`: the schedule with its runs counted again.
unfoldable pub counted_schedule : Timestamp → ℕ → ScheduleRecord → ScheduleRecord
counted_schedule now runs c = record c {
  run_count = max c.run_count runs;
  last_run_at = some now;
  updated_at = now;
}

unfoldable pub closed_schedule : Timestamp → ScheduleRecord → ScheduleRecord
closed_schedule now base = record base {
  status = ScheduleStatus.completed;
  next_run_at = none;
  paused_reason = none;
  canceled_reason = none;
  completed_at = first_some base.completed_at (some now);
}

abbrev runs_used_up : Option ScheduleRecord → Bool
runs_used_up none = false
runs_used_up (some base) = elim base.max_runs [ none ↦ false | some m ↦ leb m base.run_count ]

put_optional_schedule : (ScheduleRecord → ScheduleRecord) → Option ScheduleRecord → Work Unit
put_optional_schedule f none = pure tt
put_optional_schedule f (some c) = update_work_schedule (f c) >>= λ _. pure tt

-- The task and its schedule after a run of it has ended.
settle_task :
    Environment
    → MoveWorkRunInput
    → TaskRecord
    → Option ScheduleRecord
    → List RunRecord
    → Work (Option TaskRecord)
unfolding closed_task counted_schedule closed_schedule put_optional_schedule
settle_task env input task c runs =
    let base = package.mathlib.Core.Option.map (counted_schedule env.now (length runs)) c in
    let one_shot = is_one_shot_work task c runs in
    let reason = optional_text input.reason in
    choose (one_shot || runs_used_up base)
      (do
        changed ← update_work_task (closed_task env.now input.status one_shot reason task)
        put_optional_schedule (closed_schedule env.now) base
        pure (some changed))
      (do
        changed ← update_work_task (record task { updated_at = env.now })
        put_optional_schedule (λ c'. c') base
        pure (some changed))

settle_optional_task :
    Environment
    → MoveWorkRunInput
    → Option TaskRecord
    → Option ScheduleRecord
    → Work (Option TaskRecord)
unfolding settle_task
settle_optional_task env input none c = pure none
settle_optional_task env input (some task) c =
    choose (is_terminal_run_status input.status)
      (gets (list_work_runs env.order (some task.id) none none) >>= settle_task env input task c)
      (pure none)

notify_terminal : RunRecord → Work Unit
notify_terminal run =
    choose (is_terminal_run_status run.status) (notify (run_terminal run)) (pure tt)

notify_optional_task : Option TaskRecord → Work Unit
notify_optional_task none = pure tt
notify_optional_task (some task) = notify (task_changed task)

-- What a move asks for, before anything is written.
check_move : MoveWorkRunInput → RunRecord → Work Unit
check_move input run = do
  guard (can_move_run run.status input.status) (bad_run_move run.status input.status)
  guard (not (status_reason_field input.status) || is_some (optional_text input.reason))
      (reason_required input.status)
  guard (not (same_run_status input.status done) || is_some (optional_text input.evidence))
      evidence_required

-- The part of `moveWorkRun` that writes. The actor is checked only after the run has been written.
unfoldable pub complete_move : Environment → MoveWorkRunInput → RunRecord → Work RunRecord
unfolding move_event settle_optional_task notify_terminal notify_optional_task
complete_move env input run = do
  updated ← update_work_run (moved_run env.now input run)
  actor ← require_text (some input.actor_member_id) "actorMemberId"
  event ← append_work_run_event (move_event env input run actor)
  task ← gets (get_work_task run.work_task_id)
  schedules ← gets (list_work_schedules env.order (some run.work_task_id) none)
  changed ← settle_optional_task env input task (head? schedules)
  notify_terminal updated
  notify (run_changed updated)
  notify_optional_task changed
  pure updated

-- `moveWorkRun`
unfoldable pub move_work_run : Environment → MoveWorkRunInput → Work RunRecord
unfolding check_move complete_move
move_work_run env input = do
  found ← gets (get_work_run input.work_run_id)
  run ← require found (run_not_found input.work_run_id)
  check_move input run
  complete_move env input run

pub record RecordEventInput : Type 0 where
  pub work_run_id : String
  pub actor_member_id : String
  pub event_type : String
  pub summary : String
  pub metadata : Metadata

-- `recordWorkRunEvent`
unfoldable pub record_work_run_event : Environment → RecordEventInput → Work RunEventRecord
record_work_run_event env input = do
  found ← gets (get_work_run input.work_run_id)
  run ← require found (run_not_found input.work_run_id)
  actor ← require_text (some input.actor_member_id) "actorMemberId"
  event_type ← require_text (some input.event_type) "eventType"
  summary ← require_text (some input.summary) "summary"
  append_work_run_event (record {
    id = env.create_id 0 "work-run-event";
    work_run_id = run.id;
    timestamp = env.now;
    actor_member_id = actor;
    event_type = event_type;
    summary = summary;
    metadata = input.metadata;
  })
