-- ===== src/Work/Service/Runs/History.antt =====
-- Moves of runs and events keep the history of each stored run.
use tiny_office.Prelude.{String, ◌≡◌, refl, true, false, Option, none, some, List, head?}
use tiny_office.Prelude.Exec.Ensures.{
  Ensures, Ensures-require, Ensures-choose, Ensures-guard, Ensures-bind, Ensures-map,
}
use tiny_office.Work.Domain.{Timestamp, RunStatus, TaskRecord, ScheduleRecord, RunRecord}
use tiny_office.Work.Environment.{Environment}
use tiny_office.Work.Service.{can_move_run, is_terminal_run_status}
use tiny_office.Work.History.{
  step, IsLater-changed, IsRun, Remembers, Keeps, then_do, require-Keeps, guard-Keeps, gets-Keeps,
  pure-Keeps, notify-Keeps, update_work_task-Keeps, update_work_schedule-Keeps,
  append_work_run_event-Keeps, update_work_run-Keeps, get_work_run-Keeps, require_text-Keeps,
}
use tiny_office.Work.Service.Runs.{
  MoveWorkRunInput, moved_run, put_optional_schedule, settle_task, settle_optional_task,
  notify_terminal, notify_optional_task, check_move, complete_move, move_work_run, RecordEventInput,
  record_work_run_event,
}

moves_when_open :
    (from to : RunStatus) → can_move_run from to ≡ true → is_terminal_run_status from ≡ false
moves_when_open RunStatus.queued to e = refl
moves_when_open RunStatus.in_progress to e = refl
moves_when_open RunStatus.blocked to e = refl
moves_when_open RunStatus.done to e = cc
moves_when_open RunStatus.failed to e = cc
moves_when_open RunStatus.canceled to e = cc

module _ (k : String) (r : RunRecord) where
  put_optional_schedule-Keeps :
      (f : ScheduleRecord → ScheduleRecord) (c : Option ScheduleRecord)
      → Keeps k r (put_optional_schedule f c)
  unfolding put_optional_schedule
  put_optional_schedule-Keeps f none = pure-Keeps k r tt
  put_optional_schedule-Keeps f (some c) =
      then_do k r _ _ (update_work_schedule-Keeps k r _) λ _. pure-Keeps k r tt

  settle_task-Keeps :
      (env : Environment) (input : MoveWorkRunInput) (task : TaskRecord) (c : Option ScheduleRecord)
      (runs : List RunRecord)
      → Keeps k r (settle_task env input task c runs)
  unfolding settle_task
  settle_task-Keeps env input task c runs =
      Ensures-choose _ _ _
        (λ _. then_do k r _ _ (update_work_task-Keeps k r _) λ changed.
          then_do k r _ _ (put_optional_schedule-Keeps _ _) λ _. pure-Keeps k r (some changed))
        (λ _. then_do k r _ _ (update_work_task-Keeps k r _) λ changed.
          then_do k r _ _ (put_optional_schedule-Keeps _ _) λ _. pure-Keeps k r (some changed))

  settle_optional_task-Keeps :
      (env : Environment) (input : MoveWorkRunInput) (task : Option TaskRecord)
      (c : Option ScheduleRecord)
      → Keeps k r (settle_optional_task env input task c)
  unfolding settle_optional_task
  settle_optional_task-Keeps env input none c = pure-Keeps k r none
  settle_optional_task-Keeps env input (some task) c =
      Ensures-choose _ _ _
        (λ _. then_do k r _ _ (gets-Keeps k r _) λ runs. settle_task-Keeps env input task c runs)
        (λ _. pure-Keeps k r none)

  notify_terminal-Keeps : (run : RunRecord) → Keeps k r (notify_terminal run)
  unfolding notify_terminal
  notify_terminal-Keeps run =
      Ensures-choose _ _ _ (λ _. notify-Keeps k r _) (λ _. pure-Keeps k r tt)

  notify_optional_task-Keeps : (task : Option TaskRecord) → Keeps k r (notify_optional_task task)
  unfolding notify_optional_task
  notify_optional_task-Keeps none = pure-Keeps k r tt
  notify_optional_task-Keeps (some task) = notify-Keeps k r _

  check_move-Keeps :
      (input : MoveWorkRunInput) (run : RunRecord)
      → Ensures
          (Remembers k r)
          (check_move input run)
          (λ _. can_move_run run.status input.status ≡ true)
  unfolding check_move
  check_move-Keeps input run = Ensures-bind _ _ (Ensures-guard _ _) λ _ allowed.
      Ensures-bind _ _ (guard-Keeps k r _ _)
        λ _ _. Ensures-map _ (guard-Keeps k r _ _) λ _ _. allowed

  moved_run-IsRun :
      (now : Timestamp) (input : MoveWorkRunInput) (run : RunRecord)
      → can_move_run run.status input.status ≡ true
      → IsRun k r run
      → IsRun k r (moved_run now input run)
  unfolding moved_run
  moved_run-IsRun now input run allowed h m =
      IsLater-changed r run (moved_run now input run) (h m)
        (moves_when_open run.status input.status allowed) (step (h m).reached allowed) refl refl
        refl refl

  pub move_work_run-Keeps :
      (env : Environment) (input : MoveWorkRunInput) → Keeps k r (move_work_run env input)
  unfolding move_work_run complete_move
  move_work_run-Keeps env input = Ensures-bind _ _ (get_work_run-Keeps k r _) λ found h.
      Ensures-bind _ _ (Ensures-require found _ h) λ run is_run.
        Ensures-bind _ _ (check_move-Keeps input run) λ _ allowed.
          then_do k r _ _
            (update_work_run-Keeps k r _ (moved_run-IsRun env.now input run allowed is_run))
            λ updated. then_do k r _ _ (require_text-Keeps k r _ _) λ actor.
              then_do k r _ _ (append_work_run_event-Keeps k r _) λ event.
                then_do k r _ _ (gets-Keeps k r _) λ task.
                  then_do k r _ _ (gets-Keeps k r _) λ schedules.
                    then_do k r _ _ (settle_optional_task-Keeps env input task (head? schedules))
                      λ changed. then_do k r _ _ (notify_terminal-Keeps updated) λ _.
                        then_do k r _ _ (notify-Keeps k r _) λ _.
                          then_do k r _ _ (notify_optional_task-Keeps changed)
                            λ _. pure-Keeps k r updated

  pub record_work_run_event-Keeps :
      (env : Environment) (input : RecordEventInput) → Keeps k r (record_work_run_event env input)
  unfolding record_work_run_event
  record_work_run_event-Keeps env input = then_do k r _ _ (gets-Keeps k r _) λ found.
      then_do k r _ _ (require-Keeps k r found _) λ run.
        then_do k r _ _ (require_text-Keeps k r _ _) λ actor.
          then_do k r _ _ (require_text-Keeps k r _ _) λ event_type.
            then_do k r _ _ (require_text-Keeps k r _ _)
              λ summary. append_work_run_event-Keeps k r _
