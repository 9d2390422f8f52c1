-- ===== src/Work/Invariant/Writes.antt =====
-- The repository's reads give valid records, and its writes keep the stored work well-formed when
-- the record that they write is valid.
use tiny_office.Prelude.{
  Option, Ordering, All-sort, All-filter, ℕ, ◌+◌, String, ◌≡◌, refl, Bool, some, List, [], ◌∷◌,
  Bool-cases, inl, inr, or_nonzero, All, All-find_by, All-upsert, HasDistinctIds,
  upsert-HasDistinctIds, update_first, ◌==◌, ◌≢◌,
}
use tiny_office.Prelude.Exec.{gets}
use tiny_office.Prelude.Exec.Ensures.{Ensures-pure, Ensures-gets, Ensures-modify, Ensures-bind}
use tiny_office.Work.Domain.{
  ScheduleStatus, RunStatus, Timestamp, TaskRecord, RevisionRecord, ScheduleRecord, RunRecord,
  RunEventRecord,
}
use tiny_office.Work.Repository.{
  Repository, list_work_schedules, list_work_runs, Notice, task_id, revision_id, schedule_id,
  run_id, event_id, get_work_task, get_work_schedule, get_work_run, put_task, put_revision,
  put_schedule, put_run, put_event, notify, create_work_task, create_work_schedule, create_work_run,
  update_work_task, update_work_schedule, update_work_run, append_work_run_event,
  increment_schedule_run_count, initial_revision,
}
use tiny_office.Work.Service.{previous_archived_task_status}
use tiny_office.Work.Invariant.{IsRunValid, IsScheduleValid, IsTaskValid, Safe, Each, Each-of_find}

pub get_work_task-Safe : (id : String) → Safe (gets (get_work_task id)) (Each IsTaskValid)
get_work_task-Safe id =
    Ensures-gets _
      λ s h. Each-of_find IsTaskValid _ λ a e. All-find_by task_id IsTaskValid id _ a h.tasks e

pub get_work_schedule-Safe :
    (id : String) → Safe (gets (get_work_schedule id)) (Each IsScheduleValid)
get_work_schedule-Safe id = Ensures-gets _ λ s h.
    Each-of_find IsScheduleValid _
      λ a e. All-find_by schedule_id IsScheduleValid id _ a h.schedules e

pub get_work_run-Safe : (id : String) → Safe (gets (get_work_run id)) (Each IsRunValid)
get_work_run-Safe id =
    Ensures-gets _
      λ s h. Each-of_find IsRunValid _ λ a e. All-find_by run_id IsRunValid id _ a h.runs e

pub put_task-Safe : (t : TaskRecord) → IsTaskValid t → Safe (put_task t) (λ _. Unit)
unfolding put_task
put_task-Safe t v = Ensures-modify _ λ s h. record {
  tasks = All-upsert task_id IsTaskValid t s.tasks h.tasks v;
  schedules = h.schedules;
  runs = h.runs;
  task_ids = upsert-HasDistinctIds task_id t s.tasks h.task_ids;
  revision_ids = h.revision_ids;
  schedule_ids = h.schedule_ids;
  run_ids = h.run_ids;
  event_ids = h.event_ids;
}

pub put_revision-Safe : (r : RevisionRecord) → Safe (put_revision r) (λ _. Unit)
unfolding put_revision
put_revision-Safe r = Ensures-modify _ λ s h. record {
  tasks = h.tasks;
  schedules = h.schedules;
  runs = h.runs;
  task_ids = h.task_ids;
  revision_ids = upsert-HasDistinctIds revision_id r s.revisions h.revision_ids;
  schedule_ids = h.schedule_ids;
  run_ids = h.run_ids;
  event_ids = h.event_ids;
}

pub put_schedule-Safe : (c : ScheduleRecord) → IsScheduleValid c → Safe (put_schedule c) (λ _. Unit)
unfolding put_schedule
put_schedule-Safe c v = Ensures-modify _ λ s h. record {
  tasks = h.tasks;
  schedules = All-upsert schedule_id IsScheduleValid c s.schedules h.schedules v;
  runs = h.runs;
  task_ids = h.task_ids;
  revision_ids = h.revision_ids;
  schedule_ids = upsert-HasDistinctIds schedule_id c s.schedules h.schedule_ids;
  run_ids = h.run_ids;
  event_ids = h.event_ids;
}

pub put_run-Safe : (r : RunRecord) → IsRunValid r → Safe (put_run r) (λ _. Unit)
unfolding put_run
put_run-Safe r v = Ensures-modify _ λ s h. record {
  tasks = h.tasks;
  schedules = h.schedules;
  runs = All-upsert run_id IsRunValid r s.runs h.runs v;
  task_ids = h.task_ids;
  revision_ids = h.revision_ids;
  schedule_ids = h.schedule_ids;
  run_ids = upsert-HasDistinctIds run_id r s.runs h.run_ids;
  event_ids = h.event_ids;
}

pub put_event-Safe : (e : RunEventRecord) → Safe (put_event e) (λ _. Unit)
unfolding put_event
put_event-Safe e = Ensures-modify _ λ s h. record {
  tasks = h.tasks;
  schedules = h.schedules;
  runs = h.runs;
  task_ids = h.task_ids;
  revision_ids = h.revision_ids;
  schedule_ids = h.schedule_ids;
  run_ids = h.run_ids;
  event_ids = upsert-HasDistinctIds event_id e s.events h.event_ids;
}

pub notify-Safe : (n : Notice) → Safe (notify n) (λ _. Unit)
unfolding notify
notify-Safe n = Ensures-modify _ λ s h. record {
  tasks = h.tasks;
  schedules = h.schedules;
  runs = h.runs;
  task_ids = h.task_ids;
  revision_ids = h.revision_ids;
  schedule_ids = h.schedule_ids;
  run_ids = h.run_ids;
  event_ids = h.event_ids;
}

-- The count changes neither ids nor what makes a schedule valid.
module _ (test : ScheduleRecord → Bool) (now : Timestamp) where
  abbrev count_run : ScheduleRecord → ScheduleRecord
  count_run c = record c { run_count = c.run_count + 1; last_run_at = some now; updated_at = now }

  All-count_run :
      (P : ScheduleRecord → Type 0)
      → ((c : ScheduleRecord) → P c → P (count_run c))
      → (cs : List ScheduleRecord) → All P cs
      → All P (update_first test count_run cs)
  unfolding update_first
  All-count_run P k [] h = tt
  All-count_run P k (c ∷ cs) (p, h) = elim (Bool-cases (test c)) [
    | inl t ↦ rw t (k c p, h)
    | inr f ↦ rw f (p, All-count_run P k cs h)
  ]

  count_run-HasDistinctIds :
      (cs : List ScheduleRecord)
      → HasDistinctIds schedule_id cs
      → HasDistinctIds schedule_id (update_first test count_run cs)
  unfolding update_first
  count_run-HasDistinctIds [] h = tt
  count_run-HasDistinctIds (c ∷ cs) (p, h) = elim (Bool-cases (test c)) [
    | inl t ↦ rw t (p, h)
    | inr f ↦ rw f (
      All-count_run (λ d. schedule_id d ≢ schedule_id c) (λ d q. q) cs p,
      count_run-HasDistinctIds cs h,
    )
  ]

increment_schedule_run_count-Safe :
    (id : String) (now : Timestamp) → Safe (increment_schedule_run_count id now) (λ _. Unit)
unfolding increment_schedule_run_count
increment_schedule_run_count-Safe id now = Ensures-modify _ λ s h. record {
  tasks = h.tasks;
  schedules =
      All-count_run (λ c. c.work_task_id == id) now IsScheduleValid
        (λ c v. record { ended = v.ended }) s.schedules h.schedules;
  runs = h.runs;
  task_ids = h.task_ids;
  revision_ids = h.revision_ids;
  schedule_ids =
      count_run-HasDistinctIds (λ c. c.work_task_id == id) now s.schedules h.schedule_ids;
  run_ids = h.run_ids;
  event_ids = h.event_ids;
}

pub update_work_task-Safe :
    (t : TaskRecord) → IsTaskValid t → Safe (update_work_task t) (λ t'. t' ≡ t)
unfolding update_work_task
update_work_task-Safe t v = Ensures-bind _ _ (put_task-Safe t v) λ _ _. Ensures-pure _ refl

pub update_work_schedule-Safe :
    (c : ScheduleRecord) → IsScheduleValid c → Safe (update_work_schedule c) (λ c'. c' ≡ c)
unfolding update_work_schedule
update_work_schedule-Safe c v = Ensures-bind _ _ (put_schedule-Safe c v) λ _ _. Ensures-pure _ refl

pub update_work_run-Safe : (r : RunRecord) → IsRunValid r → Safe (update_work_run r) (λ r'. r' ≡ r)
unfolding update_work_run
update_work_run-Safe r v = Ensures-bind _ _ (put_run-Safe r v) λ _ _. Ensures-pure _ refl

pub append_work_run_event-Safe :
    (e : RunEventRecord) → Safe (append_work_run_event e) (λ e'. e' ≡ e)
unfolding append_work_run_event
append_work_run_event-Safe e = Ensures-bind _ _ (put_event-Safe e) λ _ _. Ensures-pure _ refl

pub create_work_task-Safe : (t : TaskRecord) → IsTaskValid t → Safe (create_work_task t) IsTaskValid
unfolding create_work_task previous_archived_task_status
create_work_task-Safe t v =
    let n : TaskRecord = record t { revision = or_nonzero t.revision 1 } in
    let w : IsTaskValid n = record { ended = v.ended; restorable = v.restorable } in
    Ensures-bind _ _ (put_task-Safe n w)
      λ _ _. Ensures-bind _ _ (put_revision-Safe (initial_revision n)) λ _ _. Ensures-pure _ w

pub create_work_schedule-Safe :
    (c : ScheduleRecord) → IsScheduleValid c → Safe (create_work_schedule c) (λ c'. c' ≡ c)
unfolding create_work_schedule
create_work_schedule-Safe c v = Ensures-bind _ _ (put_schedule-Safe c v) λ _ _. Ensures-pure _ refl

pub renumbered-IsRunValid :
    (r : RunRecord) (revision : ℕ)
    → IsRunValid r
    → IsRunValid (record r { task_revision = revision })
renumbered-IsRunValid r revision v = record {
  started = v.started;
  ended = v.ended;
  blocked_why = v.blocked_why;
  failed_why = v.failed_why;
  canceled_why = v.canceled_why;
  done_how = v.done_how;
}

pub create_work_run-Safe : (r : RunRecord) → IsRunValid r → Safe (create_work_run r) (λ _. Unit)
unfolding create_work_run
create_work_run-Safe r v = Ensures-bind _ _ (get_work_task-Safe r.work_task_id) λ t _.
    Ensures-bind _ _ (put_run-Safe _ (renumbered-IsRunValid r _ v)) λ _ _.
      Ensures-bind _ _ (increment_schedule_run_count-Safe r.work_task_id r.created_at)
        λ _ _. Ensures-pure _ tt

-- A listing gives records of the list that it is made from.
module _ (order : String → String → Ordering) where
  pub list_work_schedules-All :
      (P : ScheduleRecord → Type 0) (id : Option String) (status : Option ScheduleStatus)
      (s : Repository)
      → All P s.schedules
      → All P (list_work_schedules order id status s)
  unfolding list_work_schedules
  list_work_schedules-All P id status s h =
      All-sort _ P _ (All-filter P _ _ (All-filter P _ s.schedules h))

  pub list_work_runs-All :
      (P : RunRecord → Type 0) (id assignee : Option String) (status : Option RunStatus)
      (s : Repository)
      → All P s.runs
      → All P (list_work_runs order id assignee status s)
  unfolding list_work_runs
  list_work_runs-All P id assignee status s h =
      All-sort _ P _ (All-filter P _ _ (All-filter P _ _ (All-filter P _ s.runs h)))

pub touched_task-IsTaskValid :
    (now : Timestamp) (t : TaskRecord) → IsTaskValid t → IsTaskValid (record t { updated_at = now })
unfolding previous_archived_task_status
touched_task-IsTaskValid now t v = record { ended = v.ended; restorable = v.restorable }
