-- ===== src/Work/Service/Runs/Safety.antt =====
-- A move keeps the stored work well-formed, on every path.
use tiny_office.Prelude.{
  ℕ, String, ◌≡◌, subst, sym, Bool, true, Option, none, some, List, not, ◌||◌, arith, is_some,
  head?, length,
}
use tiny_office.Prelude.Text.{optional_text}
use tiny_office.Prelude.Exec.{gets}
use tiny_office.Prelude.Exec.Ensures.{
  Ensures-pure, Ensures-gets, Ensures-choose, Ensures-bind, Ensures-map,
}
use tiny_office.Work.Domain.{
  Timestamp, RunStatus, done, TaskRecord, ScheduleRecord, RunRecord, same_run_status,
}
use tiny_office.Work.Repository.{list_work_schedules}
use tiny_office.Work.Environment.{Environment}
use tiny_office.Work.Service.{can_move_run, status_reason_field, previous_archived_task_status}
use tiny_office.Work.Service.Runs.{
  MoveWorkRunInput, moved_run, closed_task, counted_schedule, closed_schedule,
  put_optional_schedule, settle_task, settle_optional_task, notify_terminal, notify_optional_task,
  check_move, complete_move, move_work_run, RecordEventInput, record_work_run_event,
}
use tiny_office.Work.Invariant.{IsRunValid, IsScheduleValid, IsTaskValid, Safe, Each, Each-head}
use tiny_office.Work.Invariant.Writes.{
  get_work_run-Safe, list_work_schedules-All, touched_task-IsTaskValid, get_work_task-Safe,
  update_work_run-Safe, update_work_task-Safe, update_work_schedule-Safe,
  append_work_run_event-Safe, notify-Safe,
}
use tiny_office.Work.Invariant.Checks.{require-Safe, guard-Safe, require_text-Safe}

-- What a move has checked when it writes the run.
pub record MayMove (input : MoveWorkRunInput) (run : RunRecord) : Type 0 where
  pub allowed : can_move_run run.status input.status ≡ true
  pub reasoned :
      (not (status_reason_field input.status) || is_some (optional_text input.reason)) ≡ true
  pub evident :
      (not (same_run_status input.status done) || is_some (optional_text input.evidence)) ≡ true

pub moved_run-IsRunValid :
    (now : Timestamp) (input : MoveWorkRunInput) (run : RunRecord)
    → MayMove input run
    → IsRunValid run
    → IsRunValid (moved_run now input run)
unfolding moved_run
moved_run-IsRunValid now input run m v = ground arith

check_move-Safe :
    (input : MoveWorkRunInput) (run : RunRecord)
    → Safe (check_move input run) (λ _. MayMove input run)
unfolding check_move
check_move-Safe input run = Ensures-bind _ _ (guard-Safe _ _) λ _ a.
    Ensures-bind _ _ (guard-Safe _ _)
      λ _ b. Ensures-map _ (guard-Safe _ _) λ _ c. record { allowed = a; reasoned = b; evident = c }

counted_schedule-IsScheduleValid :
    (now : Timestamp) (n : ℕ) (c : ScheduleRecord)
    → IsScheduleValid c
    → IsScheduleValid (counted_schedule now n c)
unfolding counted_schedule
counted_schedule-IsScheduleValid now n c v = ground arith

closed_schedule-IsScheduleValid :
    (now : Timestamp) (c : ScheduleRecord) → IsScheduleValid (closed_schedule now c)
unfolding closed_schedule
closed_schedule-IsScheduleValid now c = ground arith

closed_task-IsTaskValid :
    (now : Timestamp) (status : RunStatus) (one_shot : Bool) (reason : Option String)
    (t : TaskRecord)
    → IsTaskValid t
    → IsTaskValid (closed_task now status one_shot reason t)
unfolding closed_task previous_archived_task_status
closed_task-IsTaskValid now status one_shot reason t v = ground arith

put_optional_schedule-Safe :
    (f : ScheduleRecord → ScheduleRecord) (c : Option ScheduleRecord)
    → ((c' : ScheduleRecord) → IsScheduleValid c' → IsScheduleValid (f c'))
    → Each IsScheduleValid c
    → Safe (put_optional_schedule f c) (λ _. Unit)
unfolding put_optional_schedule
put_optional_schedule-Safe f none k h = Ensures-pure _ tt
put_optional_schedule-Safe f (some c) k h =
    Ensures-bind _ _ (update_work_schedule-Safe (f c) (k c h)) λ _ _. Ensures-pure _ tt

Each-counted :
    (now : Timestamp) (n : ℕ) (c : Option ScheduleRecord)
    → Each IsScheduleValid c
    → Each IsScheduleValid (package.mathlib.Core.Option.map (counted_schedule now n) c)
Each-counted now n none h = tt
Each-counted now n (some c) h = counted_schedule-IsScheduleValid now n c h

settle_task-Safe :
    (env : Environment) (input : MoveWorkRunInput) (t : TaskRecord) (c : Option ScheduleRecord)
    (runs : List RunRecord)
    → IsTaskValid t
    → Each IsScheduleValid c
    → Safe (settle_task env input t c runs) (λ _. Unit)
unfolding settle_task
settle_task-Safe env input t c runs v h =
    let base = Each-counted env.now (length runs) c h in
    Ensures-choose _ _ _
      (λ _.
        Ensures-bind _ _ (update_work_task-Safe _ (closed_task-IsTaskValid env.now _ _ _ t v))
          λ _ _.
            Ensures-bind _ _
              (put_optional_schedule-Safe _ _ (λ c' _. closed_schedule-IsScheduleValid env.now c')
                base)
              λ _ _. Ensures-pure _ tt)
      (λ _. Ensures-bind _ _ (update_work_task-Safe _ (touched_task-IsTaskValid env.now t v)) λ _ _.
        Ensures-bind _ _ (put_optional_schedule-Safe _ _ (λ c' w. w) base) λ _ _. Ensures-pure _ tt)

settle_optional_task-Safe :
    (env : Environment) (input : MoveWorkRunInput) (t : Option TaskRecord)
    (c : Option ScheduleRecord)
    → Each IsTaskValid t
    → Each IsScheduleValid c
    → Safe (settle_optional_task env input t c) (λ _. Unit)
unfolding settle_optional_task
settle_optional_task-Safe env input none c v h = Ensures-pure _ tt
settle_optional_task-Safe env input (some t) c v h =
    Ensures-choose _ _ _
      (λ _.
        Ensures-bind {Q = λ _. Unit} _ _ (Ensures-gets _ λ _ _. tt)
          λ runs _. settle_task-Safe env input t c runs v h)
      (λ _. Ensures-pure _ tt)

notify_terminal-Safe : (r : RunRecord) → Safe (notify_terminal r) (λ _. Unit)
unfolding notify_terminal
notify_terminal-Safe r = Ensures-choose _ _ _ (λ _. notify-Safe _) (λ _. Ensures-pure _ tt)

notify_optional_task-Safe : (t : Option TaskRecord) → Safe (notify_optional_task t) (λ _. Unit)
unfolding notify_optional_task
notify_optional_task-Safe none = Ensures-pure _ tt
notify_optional_task-Safe (some t) = notify-Safe _

first_schedule-Safe :
    (env : Environment) (id : String)
    → Safe
        (gets (list_work_schedules env.order (some id) none))
        (λ cs. Each IsScheduleValid (head? cs))
first_schedule-Safe env id =
    Ensures-gets _
      λ s h. Each-head IsScheduleValid _ (list_work_schedules-All env.order _ _ _ s h.schedules)

-- Moving a run keeps the stored work well-formed, whether the move is made, refused before
-- anything is written, or refused after the run was written.
pub move_work_run-Safe :
    (env : Environment) (input : MoveWorkRunInput) → Safe (move_work_run env input) IsRunValid
unfolding move_work_run complete_move
move_work_run-Safe env input = Ensures-bind _ _ (get_work_run-Safe _) λ found f.
    Ensures-bind _ _ (require-Safe IsRunValid found _ f) λ run v.
      Ensures-bind _ _ (check_move-Safe input run) λ _ m.
        Ensures-bind _ _ (update_work_run-Safe _ (moved_run-IsRunValid env.now input run m v))
          λ updated e. Ensures-bind _ _ (require_text-Safe _ _) λ actor _.
            Ensures-bind _ _ (append_work_run_event-Safe _) λ _ _.
              Ensures-bind _ _ (get_work_task-Safe _) λ task t.
                Ensures-bind _ _ (first_schedule-Safe env _) λ cs c.
                  Ensures-bind _ _ (settle_optional_task-Safe env input task (head? cs) t c)
                    λ changed _. Ensures-bind _ _ (notify_terminal-Safe _) λ _ _.
                      Ensures-bind _ _ (notify-Safe _) λ _ _.
                        Ensures-bind _ _ (notify_optional_task-Safe changed) λ _ _.
                          Ensures-pure _
                            (subst IsRunValid (sym e) (moved_run-IsRunValid env.now input run m v))

pub record_work_run_event-Safe :
    (env : Environment) (input : RecordEventInput)
    → Safe (record_work_run_event env input) (λ _. Unit)
unfolding record_work_run_event
record_work_run_event-Safe env input = Ensures-bind _ _ (get_work_run-Safe _) λ found f.
    Ensures-bind _ _ (require-Safe IsRunValid found _ f) λ run v.
      Ensures-bind _ _ (require_text-Safe _ _) λ _ _.
        Ensures-bind _ _ (require_text-Safe _ _) λ _ _.
          Ensures-bind _ _ (require_text-Safe _ _)
            λ _ _. Ensures-map _ (append_work_run_event-Safe _) λ _ _. tt
