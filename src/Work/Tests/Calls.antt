-- ===== src/Work/Tests/Calls.antt =====
-- Tests of the calls of src/work/work-service.ts, from the empty store.
use mathlib.Core.Bool.{false≢true}
use tiny_office.Work.Calls.History.{perform_all-IsLater}
use tiny_office.Work.History.{IsLater}
use tiny_office.Prelude.{ℕ, ◌≡◌, ◌≢◌, eq_iff, none, some, List, [], ◌∷◌}
use tiny_office.Work.Domain.{TriggerKind, SourceKind, RunStatus, RunRecord}
use tiny_office.Work.Repository.{empty, get_work_run}
use tiny_office.Work.Environment.{Environment}
use tiny_office.Work.Service.Create.{CreateWorkInput}
use tiny_office.Work.Invariant.{IsWellFormed}
use tiny_office.Work.Calls.{Call, create, move_run, perform_all}
use tiny_office.Work.Calls.Safety.{perform_all-IsWellFormed}
use tiny_office.Work.Tests.{office, draft, desk, draft-found}

abbrev ask : CreateWorkInput
ask = record {
  title = "Weekly report";
  description = none;
  created_by_member_id = "ann";
  owner_member_id = "ann";
  source_kind = SourceKind.manual;
  source_id = "desk";
  source_channel_topic_id = none;
  requester_id = none;
  acceptance_criteria = "It is sent.";
  trigger = record {
    kind = TriggerKind.immediate;
    scheduled_for = none;
    timezone = none;
    interval_ms = none;
    cron = none;
    rrule = none;
  };
  max_runs = none;
  metadata = [];
}

abbrev day : List (Environment × Call)
day =
    (office, create ask)
    ∷ (
      office,
      move_run (record {
        work_run_id = "work-run";
        actor_member_id = "ann";
        status = RunStatus.in_progress;
        summary = none;
        reason = none;
        evidence = none;
      }),
    )
    ∷ []

perform_all-IsWellFormed_example : IsWellFormed (perform_all day empty)
perform_all-IsWellFormed_example = perform_all-IsWellFormed day

renamed : (n : ℕ) → office.create_id n "work-run" ≢ "draft"
renamed n e = false≢true ((eq_iff "work-run" "draft").1 e)

perform_all-IsLater_example :
    (r' : RunRecord) × (get_work_run "draft" (perform_all day desk) ≡ some r') × IsLater draft r'
perform_all-IsLater_example =
    perform_all-IsLater day "draft" draft desk (tt, tt) draft-found (renamed, (renamed, tt))
