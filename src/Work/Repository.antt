-- ===== src/Work/Repository.antt =====
-- src/work/postgres-work-repository.ts: the tasks, revisions, schedules, runs and events of one
-- company, as the lists that the repository keeps in memory and writes through to the database.
-- The calls of the service's observers are kept beside them, in order.
use tiny_office.Prelude.{
  ℕ, ◌+◌, String, Ordering, compare, Bool, true, Option, none, some, List, [], ◌∷◌, ◌++◌,
  or_nonzero, find_by, filter, upsert, update_first, sort, then_by, ◌==◌,
}
use tiny_office.Prelude.Text.{join, nonempty}
use tiny_office.Prelude.Exec.{Exec, pure, gets, modify, ◌>>=◌, ◌>>◌}
use tiny_office.Work.Domain.{
  Timestamp, TaskStatus, RunStatus, ScheduleStatus, TaskRecord, RevisionRecord, ScheduleRecord,
  RunRecord, RunEventRecord, same_task_status, same_run_status, same_schedule_status,
}

-- What the service tells its observers.
pub data Notice : Type 0 where
  task_changed : TaskRecord → Notice
  run_changed : RunRecord → Notice
  run_terminal : RunRecord → Notice

pub record Repository : Type 0 where
  pub tasks : List TaskRecord
  pub revisions : List RevisionRecord
  pub schedules : List ScheduleRecord
  pub runs : List RunRecord
  pub events : List RunEventRecord
  pub notices : List Notice

abbrev pub empty : Repository
empty = record { tasks = []; revisions = []; schedules = []; runs = []; events = []; notices = [] }

abbrev pub task_id : TaskRecord → String
task_id t = t.id

abbrev pub revision_id : RevisionRecord → String
revision_id r = r.id

abbrev pub schedule_id : ScheduleRecord → String
schedule_id s = s.id

abbrev pub run_id : RunRecord → String
run_id r = r.id

abbrev pub event_id : RunEventRecord → String
event_id e = e.id

abbrev pub get_work_task : String → Repository → Option TaskRecord
get_work_task id s = find_by task_id id s.tasks

abbrev pub get_work_schedule : String → Repository → Option ScheduleRecord
get_work_schedule id s = find_by schedule_id id s.schedules

abbrev pub get_work_run : String → Repository → Option RunRecord
get_work_run id s = find_by run_id id s.runs

abbrev initial_reason : String
initial_reason = "Initial Task objective confirmed."

-- The revision that `createWorkTask` writes beside the task.
abbrev pub initial_revision : TaskRecord → RevisionRecord
initial_revision t = record {
  id = join ("work-task-revision-initial-" ∷ t.id ∷ []);
  work_task_id = t.id;
  revision = t.revision;
  title = t.title;
  description = t.description;
  acceptance_criteria = t.acceptance_criteria;
  changed_by_member_id = t.created_by_member_id;
  reason = initial_reason;
  source_work_run_id = none;
  created_at = t.created_at;
}

-- `!filter || item passes it`
abbrev pub matches {ℓ} : {A : Type ℓ} → (A → Bool) → Option A → Bool
matches test none = true
matches test (some a) = test a

-- An empty text is no filter.
abbrev pub truthy : Option String → Option String
truthy none = none
truthy (some t) = nonempty t

abbrev task_revision_or_one : Option TaskRecord → ℕ
task_revision_or_one none = 1
task_revision_or_one (some task) = or_nonzero task.revision 1

-- A run as it is stored: with its own revision, or its task's.
abbrev pub normalized_run : Option TaskRecord → RunRecord → RunRecord
normalized_run task input = record input {
  task_revision = or_nonzero input.task_revision (task_revision_or_one task);
}

abbrev pub counted_up : Timestamp → ScheduleRecord → ScheduleRecord
counted_up timestamp c = record c {
  run_count = c.run_count + 1;
  last_run_at = some timestamp;
  updated_at = timestamp;
}

-- Writes. Each also queues the statement that makes the same change in the database.
module _ {E : Type 0} where
  unfoldable pub put_task : TaskRecord → Exec E Repository Unit
  put_task t = modify (λ s. record s { tasks = upsert task_id t s.tasks })

  unfoldable pub put_revision : RevisionRecord → Exec E Repository Unit
  put_revision r = modify (λ s. record s { revisions = upsert revision_id r s.revisions })

  unfoldable pub put_schedule : ScheduleRecord → Exec E Repository Unit
  put_schedule c = modify (λ s. record s { schedules = upsert schedule_id c s.schedules })

  unfoldable pub put_run : RunRecord → Exec E Repository Unit
  put_run r = modify (λ s. record s { runs = upsert run_id r s.runs })

  unfoldable pub put_event : RunEventRecord → Exec E Repository Unit
  put_event e = modify (λ s. record s { events = upsert event_id e s.events })

  unfoldable pub notify : Notice → Exec E Repository Unit
  notify n = modify (λ s. record s { notices = s.notices ++ n ∷ [] })

  unfoldable pub create_work_task : TaskRecord → Exec E Repository TaskRecord
  unfolding put_task put_revision
  create_work_task input = do
    let normalized : TaskRecord = record input { revision = or_nonzero input.revision 1 }
    put_task normalized
    put_revision (initial_revision normalized)
    pure normalized

  unfoldable pub create_work_schedule : ScheduleRecord → Exec E Repository ScheduleRecord
  unfolding put_schedule
  create_work_schedule input = do put_schedule input; pure input

  unfoldable pub update_work_task : TaskRecord → Exec E Repository TaskRecord
  unfolding put_task
  update_work_task input = do put_task input; pure input

  unfoldable pub update_work_schedule : ScheduleRecord → Exec E Repository ScheduleRecord
  unfolding put_schedule
  update_work_schedule input = do put_schedule input; pure input

  unfoldable pub update_work_run : RunRecord → Exec E Repository RunRecord
  unfolding put_run
  update_work_run input = do put_run input; pure input

  unfoldable pub put_optional_run : Option RunRecord → Exec E Repository Unit
  unfolding put_run
  put_optional_run none = pure tt
  put_optional_run (some r) = put_run r

  unfoldable pub revise_work_task :
      TaskRecord → RevisionRecord → Option RunRecord → Exec E Repository Unit
  unfolding put_task put_revision put_optional_run
  revise_work_task task revision run = do put_task task; put_revision revision; put_optional_run run

  -- The record found is the list's own object, so the change is made in place. The database's update
  -- counts every schedule of the task; createWork makes one at most.
  unfoldable pub increment_schedule_run_count : String → Timestamp → Exec E Repository Unit
  increment_schedule_run_count work_task_id timestamp = modify (λ s. record s {
    schedules =
        update_first (λ c. c.work_task_id == work_task_id) (counted_up timestamp) s.schedules;
  })

  unfoldable pub create_work_run : RunRecord → Exec E Repository RunRecord
  unfolding put_run increment_schedule_run_count
  create_work_run input = do
    task ← gets (get_work_task input.work_task_id)
    put_run (normalized_run task input)
    increment_schedule_run_count input.work_task_id input.created_at
    pure (normalized_run task input)

  unfoldable pub append_work_run_event : RunEventRecord → Exec E Repository RunEventRecord
  unfolding put_event
  append_work_run_event input = do put_event input; pure input

-- Listings. `order` is `localeCompare` on ids; later timestamps come first where the order is
-- descending.
module _ (order : String → String → Ordering) where
  abbrev by_run_created : RunRecord → RunRecord → Ordering
  by_run_created left right =
      then_by (compare left.created_at right.created_at) (order left.id right.id)

  abbrev by_event_timestamp : RunEventRecord → RunEventRecord → Ordering
  by_event_timestamp left right =
      then_by (compare left.timestamp right.timestamp) (order left.id right.id)

  abbrev by_task_updated : TaskRecord → TaskRecord → Ordering
  by_task_updated left right =
      then_by (compare right.updated_at left.updated_at)
        (then_by (compare right.created_at left.created_at) (order left.id right.id))

  abbrev by_schedule_updated : ScheduleRecord → ScheduleRecord → Ordering
  by_schedule_updated left right =
      then_by (compare right.updated_at left.updated_at)
        (then_by (compare right.created_at left.created_at) (order left.id right.id))

  unfoldable pub list_work_tasks : Option String → Option TaskStatus → Repository → List TaskRecord
  list_work_tasks owner status s = sort by_task_updated (
      filter (λ t. matches (same_task_status t.status) status)
        (filter (λ t. matches (λ o. t.owner_member_id == o) (truthy owner)) s.tasks))

  unfoldable pub list_work_schedules :
      Option String → Option ScheduleStatus → Repository → List ScheduleRecord
  list_work_schedules work_task_id status s = sort by_schedule_updated (
      filter (λ c. matches (same_schedule_status c.status) status)
        (filter (λ c. matches (λ t. c.work_task_id == t) (truthy work_task_id)) s.schedules))

  unfoldable pub list_work_runs :
      Option String → Option String → Option RunStatus → Repository → List RunRecord
  list_work_runs work_task_id assignee status s = sort by_run_created (
      filter (λ r. matches (same_run_status r.status) status)
        (filter (λ r. matches (λ a. r.assignee_member_id == a) (truthy assignee))
          (filter (λ r. matches (λ t. r.work_task_id == t) (truthy work_task_id)) s.runs)))

  unfoldable pub list_work_run_events : String → Repository → List RunEventRecord
  list_work_run_events work_run_id s =
      sort by_event_timestamp (filter (λ e. e.work_run_id == work_run_id) s.events)

unfoldable pub list_work_task_revisions : String → Repository → List RevisionRecord
list_work_task_revisions work_task_id s =
    sort (λ left right. compare left.revision right.revision)
      (filter (λ r. r.work_task_id == work_task_id) s.revisions)
