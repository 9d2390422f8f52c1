-- ===== src/Work/Invariant.antt =====
-- What holds of the stored work between two calls.
pub mod Writes
pub mod Checks
use tiny_office.Prelude.{
  ℕ, ◌+◌, String, ◌≡◌, refl, Bool, true, false, Option, none, some, List, [], ◌∷◌, ◌++◌, ◌||◌,
  arith, Bool-cases, inl, inr, is_some, or_nonzero, All, All-append, All-filter, All-find_by,
  All-upsert, All-sort, HasDistinctIds, upsert-HasDistinctIds, update_first, head?, if◌then◌else◌,
  ◌==◌, ◌≢◌,
}
use tiny_office.Prelude.Exec.{Exec, pure, gets, modify, ◌>>=◌, ◌>>◌}
use tiny_office.Prelude.Exec.Ensures.{
  Ensures, Ensures-pure, Ensures-gets, Ensures-modify, Ensures-bind,
}
use tiny_office.Work.Domain.{
  Timestamp, TaskStatus, active, archived, RunStatus, queued, in_progress, blocked, done, failed,
  ScheduleStatus, TaskRecord, RevisionRecord, ScheduleRecord, RunRecord, RunEventRecord,
}
use tiny_office.Work.Repository.{
  Repository, Notice, task_id, revision_id, schedule_id, run_id, event_id, get_work_task,
  get_work_schedule, get_work_run, list_work_schedules, list_work_runs, put_task, put_revision,
  put_schedule, put_run, put_event, notify, create_work_task, create_work_schedule, create_work_run,
  update_work_task, update_work_schedule, update_work_run, append_work_run_event,
  increment_schedule_run_count, initial_revision,
}
use tiny_office.Work.Environment.{Work}
use tiny_office.Work.Service.{
  is_terminal_run_status, is_inactive_task_status, previous_archived_task_status,
}

abbrev pub is_started : RunStatus → Bool
is_started in_progress = true
is_started blocked = true
is_started done = true
is_started failed = true
is_started _ = false

abbrev pub is_ended_schedule : ScheduleStatus → Bool
is_ended_schedule ScheduleStatus.completed = true
is_ended_schedule ScheduleStatus.canceled = true
is_ended_schedule _ = false

pub record IsRunValid (r : RunRecord) : Type 0 where
  pub started : is_started r.status ≡ true → is_some r.started_at ≡ true
  pub ended : is_some r.completed_at ≡ is_terminal_run_status r.status
  pub blocked_why : r.status ≡ blocked → is_some r.blocked_reason ≡ true
  pub failed_why : r.status ≡ failed → is_some r.failed_reason ≡ true
  pub canceled_why : r.status ≡ RunStatus.canceled → is_some r.canceled_reason ≡ true
  pub done_how : r.status ≡ done → is_some r.result_summary ≡ true

pub record IsScheduleValid (c : ScheduleRecord) : Type 0 where
  pub ended : is_some c.completed_at ≡ is_ended_schedule c.status

pub record IsTaskValid (t : TaskRecord) : Type 0 where
  pub ended : t.status ≢ active → is_some t.completed_at ≡ true
  pub restorable :
      t.status ≡ archived → is_inactive_task_status (previous_archived_task_status t) ≡ true

pub record IsWellFormed (s : Repository) : Type 0 where
  pub tasks : All IsTaskValid s.tasks
  pub schedules : All IsScheduleValid s.schedules
  pub runs : All IsRunValid s.runs
  pub task_ids : HasDistinctIds task_id s.tasks
  pub revision_ids : HasDistinctIds revision_id s.revisions
  pub schedule_ids : HasDistinctIds schedule_id s.schedules
  pub run_ids : HasDistinctIds run_id s.runs
  pub event_ids : HasDistinctIds event_id s.events

-- What an action ensures of the work that it finds and leaves well-formed.
abbrev pub Safe : {A : Type 0} → Work A → (A → Type 0) → Type 0
Safe m Q = Ensures IsWellFormed m Q

-- What holds of a value that may be missing.
abbrev pub Each : {A : Type 0} → (A → Type 0) → Option A → Type 0
Each P none = Unit
Each P (some a) = P a

pub Each-of_find :
    {A : Type 0} (P : A → Type 0) (o : Option A) → ((a : A) → o ≡ some a → P a) → Each P o
Each-of_find P none h = tt
Each-of_find P (some a) h = h a refl

pub Each-head : {A : Type 0} (P : A → Type 0) (xs : List A) → All P xs → Each P (head? xs)
Each-head P [] h = tt
Each-head P (x ∷ xs) h = h.0
