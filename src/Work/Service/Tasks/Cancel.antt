-- ===== src/Work/Service/Tasks/Cancel.antt =====
-- What `cancelWorkTask` of src/work/work-service.ts leaves of a task's schedules and runs.
use tiny_office.Prelude.{
  ℕ, suc, String, Ordering, ◌≡◌, refl, ap, sym, ◌∙◌, true, false, none, some, List, [], ◌∷◌, ◌++◌,
  subst, find_by, find_by-upsert_same, All, All-map, Bool-cases, inl, inr, HasDistinctIds, upsert,
  upsert-HasDistinctIds, ◌==◌, eq_iff,
}
use tiny_office.Prelude.Text.{optional_text}
use tiny_office.Prelude.Members.{
  IsIn, IsIn-sort, IsIn-filter, All-IsIn, Covered, Covered-skip, Covered-upsert,
}
use tiny_office.Prelude.Exec.{ok, gets, ◌>>=◌, ◌>>◌}
use tiny_office.Prelude.Exec.Succeeds.{
  Ends, Succeeds, Succeeds-pure, Succeeds-gets, Succeeds-modify, Succeeds-bind, Ends-bind,
}
use tiny_office.Work.Domain.{
  Timestamp, archived, TaskRecord, ScheduleRecord, RunRecord, TaskDetail, same_task_status,
}
use tiny_office.Work.Repository.{
  Repository, Notice, run_changed, task_changed, task_id, run_id, schedule_id, matches, truthy,
  get_work_task, list_work_runs, list_work_schedules, update_work_task, put_task, update_work_run,
  put_run, update_work_schedule, put_schedule, append_work_run_event, put_event, notify,
}
use tiny_office.Work.Environment.{Environment, Work, require_text}
use tiny_office.Work.Service.{is_terminal_run_status}
use tiny_office.Work.Service.Revise.{task_detail}
use tiny_office.Work.Service.Schedules.{canceled_task}
use tiny_office.Work.Service.Tasks.{
  TaskLifecycleInput, is_live_schedule, canceled_schedule, cancel_schedules, canceled_run,
  cancel_run, cancel_runs, notify_runs, cancel_work_task,
}

-- The id of the task that is canceled.
module _ (task_id' : String) where
  abbrev OfTask : RunRecord → Type 0
  OfTask r = r.work_task_id ≡ task_id'

  abbrev pub IsEnded : RunRecord → Type 0
  IsEnded r = is_terminal_run_status r.status ≡ true

  -- The runs `todo` are the task's only open ones, and ids are distinct.
  OpenRuns : List RunRecord → Repository → Type 0
  OpenRuns todo s = HasDistinctIds run_id s.runs × Covered run_id OfTask IsEnded todo s.runs

  OpenRuns-same :
      (todo : List RunRecord) (s s' : Repository)
      → s'.runs ≡ s.runs
      → OpenRuns todo s
      → OpenRuns todo s'
  unfolding OpenRuns
  OpenRuns-same todo s s' e h =
      subst (λ rs. HasDistinctIds run_id rs × Covered run_id OfTask IsEnded todo rs) (sym e) h

  cancel_runs-Ends :
      (env : Environment) (actor reason : String) (task : TaskRecord) (drawn : ℕ)
      (runs : List RunRecord) (s : Repository)
      → OpenRuns runs s
      → Ends
          (λ s'. OpenRuns [] s' × (s'.schedules ≡ s.schedules) × (s'.tasks ≡ s.tasks))
          (λ _. Unit)
          (cancel_runs env actor reason task drawn runs s)
  unfolding cancel_runs cancel_run canceled_run update_work_run put_run append_work_run_event
      put_event OpenRuns ◌>>=◌
  cancel_runs-Ends env actor reason task drawn [] s h = record {
    value = tt;
    state = s;
    run = refl;
    holds = (h, refl, refl);
    good = tt;
  }
  cancel_runs-Ends env actor reason task drawn (x ∷ runs) s (d, h) =
      elim (Bool-cases (is_terminal_run_status x.status)) [
        | inl t ↦ rw t (
            cancel_runs-Ends env actor reason task drawn runs s
              (d, Covered-skip run_id OfTask IsEnded x runs s.runs t h))
        | inr f ↦ rw f (
            cancel_runs-Ends env actor reason task (suc drawn) runs _ (
              upsert-HasDistinctIds run_id _ s.runs d,
              Covered-upsert run_id OfTask IsEnded x (canceled_run env.now reason x) runs s.runs d
                  refl refl h,
            ))
      ]

  abbrev ScheduleOfTask : ScheduleRecord → Type 0
  ScheduleOfTask c = c.work_task_id ≡ task_id'

  abbrev pub IsClosed : ScheduleRecord → Type 0
  IsClosed c = is_live_schedule c.status ≡ false

  -- The schedules `todo` are the task's only live ones, and ids are distinct.
  LiveSchedules : List ScheduleRecord → Repository → Type 0
  LiveSchedules todo s =
      HasDistinctIds schedule_id s.schedules
      × Covered schedule_id ScheduleOfTask IsClosed todo s.schedules

  cancel_schedules-Ends :
      (now : Timestamp) (reason : String) (cs : List ScheduleRecord) (s : Repository)
      → LiveSchedules cs s
      → Ends
          (λ s'. LiveSchedules [] s' × (s'.runs ≡ s.runs) × (s'.tasks ≡ s.tasks))
          (λ _. Unit)
          (cancel_schedules now reason cs s)
  unfolding cancel_schedules canceled_schedule update_work_schedule put_schedule LiveSchedules ◌>>=◌
  cancel_schedules-Ends now reason [] s h = record {
    value = tt;
    state = s;
    run = refl;
    holds = (h, refl, refl);
    good = tt;
  }
  cancel_schedules-Ends now reason (c ∷ cs) s (d, h) =
      elim (Bool-cases (is_live_schedule c.status)) [
        | inl t ↦ rw t (
            cancel_schedules-Ends now reason cs _ (
              upsert-HasDistinctIds schedule_id _ s.schedules d,
              Covered-upsert schedule_id ScheduleOfTask IsClosed c (canceled_schedule now reason c)
                  cs s.schedules d refl refl h,
            ))
        | inr f ↦ rw f (
            cancel_schedules-Ends now reason cs s
              (d, Covered-skip schedule_id ScheduleOfTask IsClosed c cs s.schedules f h))
      ]

  -- A filter by the task's id lets its records through.
  matches_own :
      (id : String) → id ≡ task_id' → matches (λ t. id == t) (truthy (some task_id')) ≡ true
  matches_own id e = elim (Bool-cases (task_id' == "")) [
    | inl t ↦ rw t refl
    | inr f ↦ rw f ((eq_iff id task_id').1 e)
  ]

  listed_runs :
      (order : String → String → Ordering) (s : Repository)
      → HasDistinctIds run_id s.runs
      → OpenRuns (list_work_runs order (some task_id') none none s) s
  unfolding list_work_runs OpenRuns
  listed_runs order s d = (
    d,
    All-map (λ r. IsIn r s.runs) _ s.runs
        (λ r m own. inr (
          IsIn-sort _ r _ (
            IsIn-filter _ r _ refl (
              IsIn-filter _ r _ refl (IsIn-filter _ r s.runs (matches_own r.work_task_id own) m)))))
        (All-IsIn s.runs),
  )

  listed_schedules :
      (order : String → String → Ordering) (s : Repository)
      → HasDistinctIds schedule_id s.schedules
      → LiveSchedules (list_work_schedules order (some task_id') none s) s
  unfolding list_work_schedules LiveSchedules
  listed_schedules order s d = (
    d,
    All-map (λ c. IsIn c s.schedules) _ s.schedules
        (λ c m own. inr (
          IsIn-sort _ c _ (
            IsIn-filter _ c _ refl
              (IsIn-filter _ c s.schedules (matches_own c.work_task_id own) m))))
        (All-IsIn s.schedules),
  )

-- The part of the operation behind its checks.
pub record IsClosedOff (task : TaskRecord) (s : Repository) : Type 0 where
  pub runs : All (λ r. r.work_task_id ≡ task.id → is_terminal_run_status r.status ≡ true) s.runs
  pub schedules :
      All (λ c. c.work_task_id ≡ task.id → is_live_schedule c.status ≡ false) s.schedules
  pub stored : get_work_task task.id s ≡ some task

notify_runs-Ends :
    (P : Repository → Type 0)
    → ((s : Repository) (n : Notice) → P s → P (record s { notices = s.notices ++ n ∷ [] }))
    → (runs : List RunRecord) → Succeeds P (notify_runs runs) (λ _. Unit)
unfolding notify_runs notify
notify_runs-Ends P k [] = Succeeds-pure tt tt
notify_runs-Ends P k (r ∷ runs) =
    Succeeds-bind _ _ (Succeeds-modify _ λ s h. k s (run_changed r) h)
      λ _ _. notify_runs-Ends P k runs

finish-Ends :
    (env : Environment) (task : TaskRecord)
    → Succeeds
        (IsClosedOff task)
        (notify (task_changed task)
          >> (gets (list_work_runs env.order (some task.id) none none) >>= λ changed.
              notify_runs changed >> task_detail env task))
        (λ d. d.task ≡ task)
unfolding notify task_detail
finish-Ends env task =
    Succeeds-bind _ _
      (Succeeds-modify _
        λ s h. record { runs = h.runs; schedules = h.schedules; stored = h.stored })
      λ _ _. Succeeds-bind {Q = λ _. Unit} _ _ (Succeeds-gets _ λ _ _. tt) λ changed _.
        Succeeds-bind _ _
          (notify_runs-Ends (IsClosedOff task)
            (λ s n h. record { runs = h.runs; schedules = h.schedules; stored = h.stored }) changed)
          λ _ _. Succeeds-gets _ λ _ _. refl

-- With nothing left to do, all is done.
Covered-nothing :
    {A : Type 0} (key : A → String) (Matters Finished : A → Type 0) (xs : List A)
    → Covered key Matters Finished [] xs
    → All (λ a. Matters a → Finished a) xs
Covered-nothing key Matters Finished xs h =
    All-map _ _ xs (λ a k m. elim (k m) [ inl f ↦ f | inr i ↦ absurd i ]) h

-- The loops over the schedules and the runs, from a store that has the canceled task.
close_off-Ends :
    (env : Environment) (actor reason : String) (task closed : TaskRecord) (s : Repository)
    (rest : Work TaskDetail)
    → HasDistinctIds run_id s.runs
    → HasDistinctIds schedule_id s.schedules
    → closed.id ≡ task.id
    → get_work_task closed.id s ≡ some closed
    → Succeeds (IsClosedOff closed) rest (λ d. d.task ≡ closed)
    → Ends
        (IsClosedOff closed)
        (λ d. d.task ≡ closed)
        ((cancel_schedules env.now reason (list_work_schedules env.order (some task.id) none s)
            >> (cancel_runs env actor reason task 0
                  (list_work_runs env.order (some task.id) none none s)
                >> rest))
          s)
unfolding OpenRuns LiveSchedules
close_off-Ends env actor reason task closed s rest ds dc same stored k =
    let e1 =
      cancel_schedules-Ends task.id env.now reason _ s (listed_schedules task.id env.order s dc) in
    let e2 =
      cancel_runs-Ends task.id env actor reason task 0
        (list_work_runs env.order (some task.id) none none s) e1.state
        (OpenRuns-same task.id _ s e1.state e1.holds.1 (listed_runs task.id env.order s ds)) in
    Ends-bind _ _ s e1 (
      Ends-bind _ _ e1.state e2 (
        k.at e2.state (record {
          runs = rw same (Covered-nothing run_id _ _ _ e2.holds.0.1);
          schedules = rw (same, e2.holds.1) (Covered-nothing schedule_id _ _ _ e1.holds.0.1);
          stored = ap (find_by task_id closed.id) (e2.holds.2 ∙ e1.holds.2) ∙ stored;
        })))

-- A task that is stored and not archived is canceled, for a reason and by an actor who are not
-- blank, when ids are distinct: the call returns, the task is stored as canceled with that reason, every
-- run of the task has a final status and none of its schedules is enabled or paused.
pub cancel_work_task-closes :
    (env : Environment) (input : TaskLifecycleInput) (s : Repository) (task : TaskRecord)
    (reason actor : String)
    → HasDistinctIds run_id s.runs
    → HasDistinctIds schedule_id s.schedules
    → get_work_task input.work_task_id s ≡ some task
    → same_task_status task.status archived ≡ false
    → optional_text input.reason ≡ some reason
    → optional_text (some input.actor_member_id) ≡ some actor
    → (s' : Repository) × (d : TaskDetail) × (cancel_work_task env input s ≡ (ok d, s'))
      × (d.task ≡ canceled_task env.now (some reason) task)
      × IsClosedOff (canceled_task env.now (some reason) task) s'
unfolding cancel_work_task require_text update_work_task put_task task_detail notify canceled_task
    list_work_runs list_work_schedules ◌>>=◌
cancel_work_task-closes env input s task reason actor ds dc found open' why named =
    rw (why, named, found, open')
      (let closed = canceled_task env.now (some reason) task in
        let e =
          close_off-Ends env actor reason task closed
            (record s { tasks = upsert task_id closed s.tasks })
            (notify (task_changed closed)
              >> (gets (list_work_runs env.order (some task.id) none none) >>= λ changed.
                  notify_runs changed >> task_detail env closed))
            ds dc refl (find_by-upsert_same task_id task.id closed s.tasks refl)
            (finish-Ends env closed) in
        (e.state, e.value, e.run, e.good, e.holds))
