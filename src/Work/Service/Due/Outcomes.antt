-- ===== src/Work/Service/Due/Outcomes.antt =====
-- What `createDueWorkRun` of src/work/work-service.ts does with a schedule that is due.
use tiny_office.Prelude.{
  String, ◌≡◌, refl, ◌+◌, ◌≤◌, ◌<◌, true, none, some, leb, find, upsert, update_first, ◌==◌,
}
use tiny_office.Prelude.Text.{optional_text}
use tiny_office.Prelude.Exec.{ok, err, ◌>>=◌}
use tiny_office.Work.Domain.{
  Timestamp, Interval, text_order, last_date, enabled, TaskRecord, ScheduleRecord, is_recurring,
}
use tiny_office.Work.Repository.{
  Repository, run_id, event_id, get_work_task, get_work_schedule, list_work_runs, normalized_run,
  counted_up, create_work_run, put_run, increment_schedule_run_count, append_work_run_event,
  put_event,
}
use tiny_office.Work.Environment.{
  Environment, is_required, invalid_date, require_text, require_active_runtime_member,
}
use tiny_office.Work.Service.{rule_interval}
use tiny_office.Work.Service.Due.Intervals.{next_run_at_for_schedule-past}
use tiny_office.Work.Service.Due.{
  CreateDueWorkRunInput, is_run_for, require_due, due_run, due_event, create_run_for,
  reuse_or_create, create_due_work_run,
}

module _ (env : Environment) (input : CreateDueWorkRunInput) (s : Repository) (c : ScheduleRecord)
    (due : Timestamp) (task : TaskRecord) (member : String)
    (found : get_work_schedule input.work_schedule_id s ≡ some c) (on : c.status ≡ enabled)
    (next : c.next_run_at ≡ some due) (reached : leb (text_order due) (text_order env.now) ≡ true)
    (found_task : get_work_task c.work_task_id s ≡ some task)
    (owner : require_active_runtime_member env task.owner_member_id s ≡ (ok member, s)) where
  -- What is stored when the next time is computed.
  abbrev with_run_and_event : String → Repository
  with_run_and_event actor = record s {
    runs = upsert run_id (normalized_run (get_work_task task.id s) (due_run env task c due)) s.runs;
    schedules = update_first (λ c'. c'.work_task_id == task.id) (counted_up env.now) s.schedules;
    events = upsert event_id (due_event env task c due (due_run env task c due).id actor) s.events;
  }

  -- Up to the choice between the run that is there and a new one.
  create_due_work_run-checked :
      create_due_work_run env input s
      ≡ reuse_or_create env input task c due
          (find (is_run_for due) (list_work_runs env.order (some task.id) none none s))
          s
  unfolding create_due_work_run require_due ◌>>=◌
  create_due_work_run-checked = rw (found, on, next, reached, found_task, owner) refl

  -- Let the schedule `c` be stored, enabled and due, its task stored and the task's owner active. If
  -- no run for this due time exists, the actor's id is not blank, and the schedule is recurring with an
  -- interval that leads past the last date, the call throws `invalid_date`, yet it has stored the new
  -- run and its event and counted the run on the first schedule stored for the task. No next time has
  -- been moved on.
  pub create_due_work_run-past_dates :
      (actor : String) (i : Interval)
      → find (is_run_for due) (list_work_runs env.order (some task.id) none none s) ≡ none
      → optional_text (some input.actor_member_id) ≡ some actor
      → is_recurring c.kind ≡ true
      → rule_interval c.schedule_rule ≡ some i
      → due ≤ last_date
      → last_date < due + i.whole
      → create_due_work_run env input s ≡ (
        err invalid_date,
        record s {
          runs =
              upsert run_id
                (normalized_run (get_work_task task.id s) (due_run env task c due))
                s.runs;
          schedules =
              update_first (λ c'. c'.work_task_id == task.id) (counted_up env.now) s.schedules;
          events =
              upsert event_id (due_event env task c due (due_run env task c due).id actor) s.events;
        },
      )
  unfolding reuse_or_create create_run_for create_work_run put_run increment_schedule_run_count
      append_work_run_event put_event require_text due_run due_event ◌>>=◌
  create_due_work_run-past_dates actor i e named recurs ruled real far =
      rw
        (
          create_due_work_run-checked,
          e,
          named,
          next_run_at_for_schedule-past env c due i (with_run_and_event actor) recurs ruled far
              real,
        )
        refl

  -- Let the schedule `c` be stored, enabled and due, its task stored and the task's owner active. If
  -- no run for this due time exists and the actor's id is blank, the call throws `is_required`, yet it
  -- has stored the new run and counted it on the first schedule stored for the task. No next time has
  -- been moved on.
  pub create_due_work_run-blank_actor :
      find (is_run_for due) (list_work_runs env.order (some task.id) none none s) ≡ none
      → optional_text (some input.actor_member_id) ≡ none
      → create_due_work_run env input s ≡ (
        err (is_required "actorMemberId"),
        record s {
          runs =
              upsert run_id
                (normalized_run (get_work_task task.id s) (due_run env task c due))
                s.runs;
          schedules =
              update_first (λ c'. c'.work_task_id == task.id) (counted_up env.now) s.schedules;
        },
      )
  unfolding reuse_or_create create_run_for create_work_run put_run increment_schedule_run_count
      require_text due_run ◌>>=◌
  create_due_work_run-blank_actor e blank = rw (create_due_work_run-checked, e, blank) refl
