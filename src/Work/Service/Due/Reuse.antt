-- ===== src/Work/Service/Due/Reuse.antt =====
-- What `createDueWorkRun` of src/work/work-service.ts does when an earlier tick created the run.
use tiny_office.Prelude.{
  String, ◌≡◌, refl, ap, ◌⊎◌, inl, inr, Bool, true, false, Option, none, some, ◌==◌, eq_iff, ◌&&◌,
  leb, find, filter, All, All-map, All-filter, All-filter_test, All-both, All-find, All-sort,
  is_number, arith,
}
use tiny_office.Prelude.Members.{IsIn, IsIn-sort, IsIn-filter, All-IsIn, find-IsIn}
use tiny_office.Prelude.Exec.{ok, ◌>>=◌}
use tiny_office.Work.Domain.{
  Timestamp, text_order, TriggeredBy, schedule, recurrence, enabled, TaskRecord, ScheduleRecord,
  RunRecord,
}
use tiny_office.Work.Repository.{Repository, get_work_task, get_work_schedule, list_work_runs}
use tiny_office.Work.Environment.{Environment, require_active_runtime_member}
use tiny_office.Work.Service.Due.{
  CreateDueWorkRunInput, is_scheduled, is_run_for, require_due, reuse_or_create,
  create_due_work_run,
}

-- A stored run of a task that a schedule or a recurrence created for this due time.
pub record IsRunOf (s : Repository) (task_id : String) (due : Timestamp) (r : RunRecord)
    : Type 0 where
  pub stored : IsIn r s.runs
  pub of_task : r.work_task_id ≡ task_id
  pub for_due : r.scheduled_for ≡ some due
  pub by_schedule : (r.triggered_by ≡ schedule) ⊎ (r.triggered_by ≡ recurrence)

is_scheduled-cases : (t : TriggeredBy) → is_scheduled t ≡ true → (t ≡ schedule) ⊎ (t ≡ recurrence)
is_scheduled-cases schedule e = inl refl
is_scheduled-cases recurrence e = inr refl
is_scheduled-cases TriggeredBy.immediate e = cc
is_scheduled-cases TriggeredBy.migration e = cc
is_scheduled-cases TriggeredBy.retry e = cc

is_number-same : (o : Option Timestamp) (n : Timestamp) → is_number o n ≡ true → o ≡ some n
is_number-same none n e = cc
is_number-same (some m) n e = ap some ground arith

is_number_self : (n : Timestamp) → is_number (some n) n ≡ true
is_number_self n = ground arith

IsRunOf-test :
    (s : Repository) (id : String) (due : Timestamp) (r : RunRecord)
    → IsRunOf s id due r
    → is_run_for due r ≡ true
IsRunOf-test s id due r h = elim h.by_schedule [
  | inl e ↦ rw (h.for_due, e, is_number_self due) refl
  | inr e ↦ rw (h.for_due, e, is_number_self due) refl
]

and-both : (a b : Bool) → a && b ≡ true → (a ≡ true) × (b ≡ true)
and-both true b e = (refl, e)
and-both false b e = cc

-- The runs that are listed for a task are stored and its own.
listed-IsIn :
    (env : Environment) (id : String) (s : Repository)
    → (id == "") ≡ false
    → All
        (λ r. IsIn r s.runs × (r.work_task_id ≡ id))
        (list_work_runs env.order (some id) none none s)
unfolding list_work_runs
listed-IsIn env id s named = rw named (
    let P = λ (r : RunRecord). IsIn r s.runs × (r.work_task_id ≡ id) in
    let own =
      All-filter (λ r. IsIn r s.runs) (λ r. r.work_task_id == id) s.runs (All-IsIn s.runs) in
    All-sort _ P _ (
      All-filter P _ _ (
        All-filter P _ _ (
          All-map _ P (filter (λ r. r.work_task_id == id) s.runs)
            (λ r h. (h.0, (eq_iff r.work_task_id id).0 h.1))
            (All-both _ _ _ own (All-filter_test (λ r. r.work_task_id == id) s.runs))))))

IsIn-listed :
    (env : Environment) (id : String) (s : Repository) (r : RunRecord)
    → (id == "") ≡ false
    → IsIn r s.runs
    → r.work_task_id ≡ id
    → IsIn r (list_work_runs env.order (some id) none none s)
unfolding list_work_runs
IsIn-listed env id s r named m e = rw named (
    IsIn-sort _ r _ (
      IsIn-filter _ r _ refl
        (IsIn-filter _ r _ refl (IsIn-filter _ r s.runs ((eq_iff r.work_task_id id).1 e) m))))

-- A run of the task that is stored for the due time is found, or another such run.
find-IsRunOf :
    (env : Environment) (id : String) (s : Repository) (due : Timestamp) (r : RunRecord)
    → (id == "") ≡ false
    → IsRunOf s id due r
    → (x : RunRecord) × (find (is_run_for due) (list_work_runs env.order (some id) none none s)
        ≡ some x)
      × IsRunOf s id due x
find-IsRunOf env id s due r named h =
    let runs = list_work_runs env.order (some id) none none s in
    let (x, e) =
      find-IsIn (is_run_for due) r runs (IsIn-listed env id s r named h.stored h.of_task)
        (IsRunOf-test s id due r h) in
    let ((m, own), t) = All-find _ (is_run_for due) runs x (listed-IsIn env id s named) e in
    let (d, b) = and-both (is_number x.scheduled_for due) (is_scheduled x.triggered_by) t in
    (
      x,
      e,
      record {
        stored = m;
        of_task = own;
        for_due = is_number-same x.scheduled_for due d;
        by_schedule = is_scheduled-cases x.triggered_by b;
      },
    )

-- Let the schedule `c` be stored, enabled and due, its task stored, with an id that is not empty, and
-- the task's owner active. If a run of that task is stored that a schedule or a recurrence created for
-- the due time, the call returns such a run as not created, and changes nothing, whoever the actor is.
pub create_due_work_run-reused :
    (env : Environment) (input : CreateDueWorkRunInput) (s : Repository) (c : ScheduleRecord)
    (due : Timestamp) (task : TaskRecord) (member : String) (run : RunRecord)
    → get_work_schedule input.work_schedule_id s ≡ some c
    → c.status ≡ enabled
    → c.next_run_at ≡ some due
    → leb (text_order due) (text_order env.now) ≡ true
    → get_work_task c.work_task_id s ≡ some task
    → require_active_runtime_member env task.owner_member_id s ≡ (ok member, s)
    → (task.id == "") ≡ false
    → IsRunOf s task.id due run
    → (existing : RunRecord) × IsRunOf s task.id due existing
      × (create_due_work_run env input s
          ≡ (ok (record { task = task; schedule = c; run = existing; created = false }), s))
unfolding create_due_work_run require_due reuse_or_create ◌>>=◌
create_due_work_run-reused env input s c due task member run found on next reached found_task owner
      named h =
    let (x, e, k) = find-IsRunOf env task.id s due run named h in
    (x, k, rw (found, on, next, reached, found_task, owner, e) refl)
