-- ===== src/Work/Calls/History.antt =====
-- The history of one stored run over any sequence of calls.
use tiny_office.Prelude.{
  ℕ, String, ◌≡◌, ◌≢◌, sym, subst, some, List, [], ◌∷◌, All, All-map, All-find_by, find_by_unique,
  find_by-key, HasDistinctIds,
}
use tiny_office.Work.Domain.{RunRecord}
use tiny_office.Work.Repository.{Repository, run_id, get_work_run}
use tiny_office.Work.Environment.{Environment}
use tiny_office.Work.Service.Create.History.{create_work-Keeps}
use tiny_office.Work.Service.Due.History.{create_due_work_run-Keeps}
use tiny_office.Work.Service.Retry.History.{retry_work_run-Keeps}
use tiny_office.Work.Service.Revise.History.{revise_work_task_objective-Keeps}
use tiny_office.Work.Service.Schedules.History.{move_work_schedule-Keeps}
use tiny_office.Work.Service.Tasks.History.{
  cancel_work_task-Keeps, archive_work_task-Keeps, restore_work_task-Keeps,
}
use tiny_office.Work.Service.Runs.History.{move_work_run-Keeps, record_work_run_event-Keeps}
use tiny_office.Work.History.{IsLater, IsLater-refl, IsRun, Remembers}
use tiny_office.Work.Calls.{
  Call, create, start_due, retry, revise, move_schedule, cancel, archive, restore, move_run,
  record_event, perform, perform_all,
}

-- The calls draw ids for new runs other than `k`.
abbrev pub DrawsFresh : String → Environment → Type 0
DrawsFresh k env = (n : ℕ) → env.create_id n "work-run" ≢ k

perform-Remembers :
    (k : String) (r : RunRecord) (env : Environment) (call : Call) (s : Repository)
    → DrawsFresh k env
    → Remembers k r s
    → Remembers k r (perform env call s)
unfolding perform
perform-Remembers k r env (create input) s fresh h =
    ((create_work-Keeps k r env input (fresh 1)).at s h).0
perform-Remembers k r env (start_due input) s fresh h =
    ((create_due_work_run-Keeps k r env input (fresh 0)).at s h).0
perform-Remembers k r env (retry input) s fresh h =
    ((retry_work_run-Keeps k r env input (fresh 0)).at s h).0
perform-Remembers k r env (revise input) s fresh h =
    ((revise_work_task_objective-Keeps k r env input).at s h).0
perform-Remembers k r env (move_schedule input) s fresh h =
    ((move_work_schedule-Keeps k r env input).at s h).0
perform-Remembers k r env (cancel input) s fresh h =
    ((cancel_work_task-Keeps k r env input).at s h).0
perform-Remembers k r env (archive input) s fresh h =
    ((archive_work_task-Keeps k r env input).at s h).0
perform-Remembers k r env (restore input) s fresh h =
    ((restore_work_task-Keeps k r env input).at s h).0
perform-Remembers k r env (move_run input) s fresh h =
    ((move_work_run-Keeps k r env input).at s h).0
perform-Remembers k r env (record_event input) s fresh h =
    ((record_work_run_event-Keeps k r env input).at s h).0

perform_all-Remembers :
    (k : String) (r : RunRecord) (calls : List (Environment × Call)) (s : Repository)
    → All (λ c. DrawsFresh k c.0) calls
    → Remembers k r s
    → Remembers k r (perform_all calls s)
unfolding perform_all
perform_all-Remembers k r [] s fresh h = h
perform_all-Remembers k r ((env, call) ∷ calls) s (f, fresh) h =
    perform_all-Remembers k r calls (perform env call s) fresh
      (perform-Remembers k r env call s f h)

-- Let the run `r` be stored under the id `k`, let no two stored runs share an id, and let the calls
-- draw ids other than `k` for new runs. After any sequence of calls, returned or thrown, a run is
-- stored under `k` whose status is the old one or one that a chain of moves of the table of transitions
-- leads to, for the same task, assignee, due time and creation time; and if `r` is done, failed or canceled, that run
-- is `r` itself.
pub perform_all-IsLater :
    (calls : List (Environment × Call)) (k : String) (r : RunRecord) (s : Repository)
    → HasDistinctIds run_id s.runs
    → get_work_run k s ≡ some r
    → All (λ c. DrawsFresh k c.0) calls
    → (r' : RunRecord) × (get_work_run k (perform_all calls s) ≡ some r') × IsLater r r'
perform_all-IsLater calls k r s ids found fresh =
    let start : Remembers k r s = record {
      present = (r, found);
      every =
          All-map _ (IsRun k r) s.runs
            (λ a same m. subst (IsLater r) (sym (same m)) (IsLater-refl r))
            (find_by_unique run_id k s.runs r ids found);
    } in
    let h = perform_all-Remembers k r calls s fresh start in
    (
      h.present.0,
      h.present.1,
      All-find_by run_id (IsRun k r) k (perform_all calls s).runs h.present.0 h.every h.present.1
          (find_by-key run_id k (perform_all calls s).runs h.present.0 h.present.1),
    )
