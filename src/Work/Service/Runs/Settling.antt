-- ===== src/Work/Service/Runs/Settling.antt =====
-- The part of `moveWorkRun` of src/work/work-service.ts that writes.
use tiny_office.Prelude.{List, String, ◌≡◌, refl, Option, none, some, upsert}
use tiny_office.Prelude.Text.{optional_text}
use tiny_office.Prelude.Exec.{pure, ◌>>=◌, ◌>>◌}
use tiny_office.Prelude.Exec.Succeeds.{
  Ends, Succeeds, Succeeds-pure, Succeeds-gets, Succeeds-choose, Succeeds-modify, Succeeds-bind,
}
use tiny_office.Work.Domain.{TaskRecord, ScheduleRecord, RunRecord, RunEventRecord}
use tiny_office.Work.Repository.{
  Notice, run_changed, update_work_task, put_task, update_work_schedule, put_schedule, notify,
  put_event, append_work_run_event, Repository, run_id, event_id, put_run, update_work_run,
}
use tiny_office.Work.Environment.{Environment, Work, require_text}
use tiny_office.Work.Service.Runs.{
  MoveWorkRunInput, moved_run, move_event, settle_task, settle_optional_task, notify_terminal,
  notify_optional_task, put_optional_schedule, complete_move,
}

-- The part of a move behind the run and its event writes neither runs nor events.
module _ (runs : List RunRecord) (events : List RunEventRecord) where
  unfoldable pub Holds : Repository → Type 0
  Holds s = (s.runs ≡ runs) × (s.events ≡ events)

  -- An action that leaves them as they are.
  abbrev Quiet : {A : Type 0} → Work A → Type 0
  Quiet m = Succeeds Holds m (λ _. Unit)

  update_work_task-Quiet : (task : TaskRecord) → Quiet (update_work_task task)
  unfolding update_work_task put_task Holds ◌>>=◌
  update_work_task-Quiet task = record {
    at = λ s h. record { value = task; state = _; run = refl; holds = h; good = tt };
  }

  update_work_schedule-Quiet : (c : ScheduleRecord) → Quiet (update_work_schedule c)
  unfolding update_work_schedule put_schedule Holds ◌>>=◌
  update_work_schedule-Quiet c = record {
    at = λ s h. record { value = c; state = _; run = refl; holds = h; good = tt };
  }

  notify-Quiet : (n : Notice) → Quiet (notify n)
  unfolding notify Holds ◌>>=◌
  notify-Quiet n = Succeeds-modify _ λ s h. h

  put_optional_schedule-Quiet :
      (f : ScheduleRecord → ScheduleRecord) (c : Option ScheduleRecord)
      → Quiet (put_optional_schedule f c)
  unfolding put_optional_schedule
  put_optional_schedule-Quiet f none = Succeeds-pure tt tt
  put_optional_schedule-Quiet f (some c) =
      Succeeds-bind _ _ (update_work_schedule-Quiet (f c)) λ _ _. Succeeds-pure tt tt

  settle_optional_task-Quiet :
      (env : Environment) (input : MoveWorkRunInput) (task : Option TaskRecord)
      (c : Option ScheduleRecord)
      → Quiet (settle_optional_task env input task c)
  unfolding settle_optional_task settle_task
  settle_optional_task-Quiet env input none c = Succeeds-pure none tt
  settle_optional_task-Quiet env input (some task) c =
      Succeeds-choose _ _ _
        (λ _. Succeeds-bind {Q = λ _. Unit} _ _ (Succeeds-gets _ λ _ _. tt) λ rs _.
          Succeeds-choose _ _ _
            (λ _. Succeeds-bind _ _ (update_work_task-Quiet _) λ changed _.
              Succeeds-bind _ _ (put_optional_schedule-Quiet _ _)
                λ _ _. Succeeds-pure (some changed) tt)
            (λ _. Succeeds-bind _ _ (update_work_task-Quiet _) λ changed _.
              Succeeds-bind _ _ (put_optional_schedule-Quiet _ _)
                λ _ _. Succeeds-pure (some changed) tt))
        (λ _. Succeeds-pure none tt)

  notify_terminal-Quiet : (run : RunRecord) → Quiet (notify_terminal run)
  unfolding notify_terminal
  notify_terminal-Quiet run = Succeeds-choose _ _ _ (λ _. notify-Quiet _) (λ _. Succeeds-pure tt tt)

  notify_optional_task-Quiet : (task : Option TaskRecord) → Quiet (notify_optional_task task)
  unfolding notify_optional_task
  notify_optional_task-Quiet none = Succeeds-pure tt tt
  notify_optional_task-Quiet (some task) = notify-Quiet _

  finish_move-Quiet :
      (env : Environment) (input : MoveWorkRunInput) (task : Option TaskRecord)
      (c : Option ScheduleRecord) (updated : RunRecord)
      → Succeeds Holds
          (settle_optional_task env input task c >>= λ changed.
            notify_terminal updated
            >> (notify (run_changed updated) >> (notify_optional_task changed >> pure updated)))
          (λ u. u ≡ updated)
  finish_move-Quiet env input task c updated =
      Succeeds-bind _ _ (settle_optional_task-Quiet env input task c) λ changed _.
        Succeeds-bind _ _ (notify_terminal-Quiet updated) λ _ _.
          Succeeds-bind _ _ (notify-Quiet (run_changed updated)) λ _ _.
            Succeeds-bind _ _ (notify_optional_task-Quiet changed) λ _ _. Succeeds-pure updated refl

-- What a move leaves that writes all it has to.
pub complete_move-Ends :
    (env : Environment) (input : MoveWorkRunInput) (run : RunRecord) (s : Repository)
    (actor : String)
    → optional_text (some input.actor_member_id) ≡ some actor
    → Ends
        (Holds
          (upsert run_id (moved_run env.now input run) s.runs)
          (upsert event_id (move_event env input run actor) s.events))
        (λ updated. updated ≡ moved_run env.now input run)
        (complete_move env input run s)
unfolding complete_move update_work_run put_run require_text append_work_run_event put_event Holds
    ◌>>=◌
complete_move-Ends env input run s actor named = rw named (
    (finish_move-Quiet (upsert run_id (moved_run env.now input run) s.runs)
        (upsert event_id (move_event env input run actor) s.events) env input _ _
        (moved_run env.now input run)).at
      _ (refl, refl))
