-- ===== src/Work/History.antt =====
-- What becomes of one stored run while calls of src/work/work-service.ts go on.
use mathlib.Core.Bool.{false≢true}
use tiny_office.Prelude.{
  String, Ordering, ◌≡◌, ◌≢◌, refl, ap, sym, subst, ◌∙◌, Bool, true, false, Option, none, some, All,
  All-upsert, All-find_by, All-sort, All-filter, find_by, find_by-upsert, Bool-cases, inl, inr,
  ◌==◌,
}
use tiny_office.Prelude.Exec.{pure, gets, modify, require, guard, ◌>>=◌}
use tiny_office.Prelude.Exec.Ensures.{
  Ensures, Ensures-pure, Ensures-gets, Ensures-modify, Ensures-require, Ensures-guard, Ensures-bind,
  Ensures-states, Ensures-map,
}
use tiny_office.Work.Domain.{
  RunStatus, TaskRecord, ScheduleRecord, RevisionRecord, RunRecord, RunEventRecord,
}
use tiny_office.Work.Repository.{
  Repository, Notice, run_id, get_work_run, list_work_runs, normalized_run, put_task, put_revision,
  put_schedule, put_run, put_event, notify, create_work_task, create_work_schedule,
  update_work_task, update_work_schedule, update_work_run, put_optional_run, revise_work_task,
  increment_schedule_run_count, create_work_run, append_work_run_event,
}
use tiny_office.Work.Environment.{
  Work, Error, Environment, require_text, require_iso_timestamp, require_active_runtime_member,
}
use tiny_office.Work.Service.{can_move_run, is_terminal_run_status}

-- Chains of moves that the table of transitions allows.
pub data Reaches (from : RunStatus) : RunStatus → Type 0 where
  stay : Reaches from from
  step : {via to : RunStatus} → Reaches from via → can_move_run via to ≡ true → Reaches from to

-- What calls may make of a run `r`: its status goes along the table, what it was created for stays,
-- and a run that has ended stays as it is.
pub record IsLater (r r' : RunRecord) : Type 0 where
  pub reached : Reaches r.status r'.status
  pub task : r'.work_task_id ≡ r.work_task_id
  pub assignee : r'.assignee_member_id ≡ r.assignee_member_id
  pub scheduled : r'.scheduled_for ≡ r.scheduled_for
  pub created : r'.created_at ≡ r.created_at
  pub frozen : is_terminal_run_status r.status ≡ true → r' ≡ r

pub IsLater-refl : (r : RunRecord) → IsLater r r
IsLater-refl r = record {
  reached = stay;
  task = refl;
  assignee = refl;
  scheduled = refl;
  created = refl;
  frozen = λ _. refl;
}

-- A later run that is still open may change, as long as it stays with its task and assignee.
pub IsLater-changed :
    (r a b : RunRecord)
    → IsLater r a
    → is_terminal_run_status a.status ≡ false
    → Reaches r.status b.status
    → b.work_task_id ≡ a.work_task_id
    → b.assignee_member_id ≡ a.assignee_member_id
    → b.scheduled_for ≡ a.scheduled_for
    → b.created_at ≡ a.created_at
    → IsLater r b
IsLater-changed r a b h open' reached task assignee scheduled created = record {
  reached = reached;
  task = task ∙ h.task;
  assignee = assignee ∙ h.assignee;
  scheduled = scheduled ∙ h.scheduled;
  created = created ∙ h.created;
  frozen = λ ended. absurd (
      false≢true (
        sym open'
        ∙ (ap (λ (x : RunRecord). is_terminal_run_status x.status) (h.frozen ended) ∙ ended)));
}

-- The run with the id `k` was `r` at the start.
module _ (k : String) (r : RunRecord) where
  -- A record that may stand for the run.
  abbrev pub IsRun : RunRecord → Type 0
  IsRun a = a.id ≡ k → IsLater r a

  pub record Remembers (s : Repository) : Type 0 where
    pub present : (r' : RunRecord) × (get_work_run k s ≡ some r')
    pub every : All IsRun s.runs

  -- An action that keeps the run's history.
  abbrev pub Keeps : {A : Type 0} → Work A → Type 0
  Keeps m = Ensures Remembers m (λ _. Unit)

  put_run-Keeps : (a : RunRecord) → IsRun a → Keeps (put_run a)
  unfolding put_run
  put_run-Keeps a h = Ensures-modify _ λ s m. record {
    present = elim (Bool-cases (a.id == k)) [
      | inl t ↦ (a, rw (find_by-upsert, t) refl)
      | inr f ↦ (m.present.0, rw (find_by-upsert, f) m.present.1)
    ];
    every = All-upsert run_id IsRun a s.runs m.every h;
  }

  pub then_do :
      {A B : Type 0} (m : Work A) (f : A → Work B)
      → Keeps m
      → ((a : A) → Keeps (f a))
      → Keeps (m >>= f)
  then_do m f h g = Ensures-bind m f h λ a _. g a

  pub require-Keeps : {A : Type 0} (o : Option A) (e : Error) → Keeps (require o e)
  require-Keeps o e = Ensures-require o e λ _ _. tt

  pub guard-Keeps : (b : Bool) (e : Error) → Keeps (guard b e)
  guard-Keeps b e = Ensures-map _ (Ensures-guard b e) λ _ _. tt

  pub gets-Keeps : {A : Type 0} (f : Repository → A) → Keeps (gets f)
  gets-Keeps f = Ensures-gets f λ _ _. tt

  pub pure-Keeps : {A : Type 0} (a : A) → Keeps (pure a)
  pure-Keeps a = Ensures-pure a tt

  pub modify-Keeps :
      (f : Repository → Repository) → ((s : Repository) → (f s).runs ≡ s.runs) → Keeps (modify f)
  modify-Keeps f e = Ensures-modify f λ s h. record {
    present = (h.present.0, ap (find_by run_id k) (e s) ∙ h.present.1);
    every = subst (All IsRun) (sym (e s)) h.every;
  }

  -- An action that leaves the runs as they are.
  pub same_runs-Keeps :
      {A : Type 0} (m : Work A) → ((s : Repository) → (m s).1.runs ≡ s.runs) → Keeps m
  same_runs-Keeps m e = Ensures-states m λ s h. record {
    present = (h.present.0, ap (find_by run_id k) (e s) ∙ h.present.1);
    every = subst (All IsRun) (sym (e s)) h.every;
  }

  pub notify-Keeps : (n : Notice) → Keeps (notify n)
  unfolding notify
  notify-Keeps n = modify-Keeps _ λ s. refl

  pub create_work_task-Keeps : (t : TaskRecord) → Keeps (create_work_task t)
  unfolding create_work_task put_task put_revision ◌>>=◌
  create_work_task-Keeps t = same_runs-Keeps _ λ s. refl

  pub create_work_schedule-Keeps : (c : ScheduleRecord) → Keeps (create_work_schedule c)
  unfolding create_work_schedule put_schedule ◌>>=◌
  create_work_schedule-Keeps c = same_runs-Keeps _ λ s. refl

  pub update_work_task-Keeps : (t : TaskRecord) → Keeps (update_work_task t)
  unfolding update_work_task put_task ◌>>=◌
  update_work_task-Keeps t = same_runs-Keeps _ λ s. refl

  pub update_work_schedule-Keeps : (c : ScheduleRecord) → Keeps (update_work_schedule c)
  unfolding update_work_schedule put_schedule ◌>>=◌
  update_work_schedule-Keeps c = same_runs-Keeps _ λ s. refl

  pub append_work_run_event-Keeps : (e : RunEventRecord) → Keeps (append_work_run_event e)
  unfolding append_work_run_event put_event ◌>>=◌
  append_work_run_event-Keeps e = same_runs-Keeps _ λ s. refl

  pub update_work_run-Keeps : (a : RunRecord) → IsRun a → Keeps (update_work_run a)
  unfolding update_work_run
  update_work_run-Keeps a h = then_do _ _ (put_run-Keeps a h) λ _. pure-Keeps a

  pub create_work_run-Keeps : (a : RunRecord) → a.id ≢ k → Keeps (create_work_run a)
  unfolding create_work_run increment_schedule_run_count
  create_work_run-Keeps a fresh = then_do _ _ (gets-Keeps _) λ task.
      then_do _ _ (put_run-Keeps (normalized_run task a) (λ m. absurd (fresh m)))
        λ _. then_do _ _ (modify-Keeps _ λ s. refl) λ _. pure-Keeps _

  revise_work_task-run :
      (a : Option RunRecord) → ((b : RunRecord) → a ≡ some b → IsRun b) → Keeps (put_optional_run a)
  unfolding put_optional_run
  revise_work_task-run none h = pure-Keeps tt
  revise_work_task-run (some a) h = put_run-Keeps a (h a refl)

  pub revise_work_task-Keeps :
      (t : TaskRecord) (v : RevisionRecord) (a : Option RunRecord)
      → ((b : RunRecord) → a ≡ some b → IsRun b)
      → Keeps (revise_work_task t v a)
  unfolding revise_work_task put_task put_revision
  revise_work_task-Keeps t v a h =
      then_do _ _ (modify-Keeps _ λ s. refl)
        λ _. then_do _ _ (modify-Keeps _ λ s. refl) λ _. revise_work_task-run a h

  -- What is read of the runs.
  pub get_work_run-Keeps :
      (id : String)
      → Ensures {E = Error} Remembers
          (gets (get_work_run id))
          (λ o. (a : RunRecord) → o ≡ some a → IsRun a)
  get_work_run-Keeps id = Ensures-gets _ λ s h a e. All-find_by run_id IsRun id s.runs a h.every e

  pub list_work_runs-Keeps :
      (order : String → String → Ordering) (task assignee : Option String)
      (status : Option RunStatus)
      → Ensures {E = Error} Remembers (gets (list_work_runs order task assignee status)) (All IsRun)
  unfolding list_work_runs
  list_work_runs-Keeps order task assignee status =
      Ensures-gets _
        λ s h. All-sort _ _ _ (All-filter _ _ _ (All-filter _ _ _ (All-filter _ _ s.runs h.every)))

  pub require_text-Keeps : (o : Option String) (field : String) → Keeps (require_text o field)
  unfolding require_text
  require_text-Keeps o field = require-Keeps _ _

  pub require_iso_timestamp-Keeps :
      (env : Environment) (o : Option String) (field : String)
      → Keeps (require_iso_timestamp env o field)
  unfolding require_iso_timestamp
  require_iso_timestamp-Keeps env o field =
      then_do _ _ (require_text-Keeps o field)
        λ _. then_do _ _ (require-Keeps _ _) λ _. then_do _ _ (guard-Keeps _ _) λ _. pure-Keeps _

  pub require_active_runtime_member-Keeps :
      (env : Environment) (id : String) → Keeps (require_active_runtime_member env id)
  unfolding require_active_runtime_member
  require_active_runtime_member-Keeps env id =
      then_do _ _ (require_text-Keeps (some id) _)
        λ _. then_do _ _ (guard-Keeps _ _) λ _. pure-Keeps _
