-- ===== src/Work/Tests/Dispatch.antt =====
-- Tests of src/work/work-dispatcher.ts.
use tiny_office.Prelude.{◌≡◌, Option, none, some, [], ◌∷◌}
use tiny_office.Prelude.Exec.{ok}
use tiny_office.Work.Domain.{RunRecord, RunStatus}
use tiny_office.Work.Repository.{Repository}
use tiny_office.Work.Lease.{Leases}
use tiny_office.Work.Dispatcher.{Dispatched, dispatch_next}
use tiny_office.Work.Dispatcher.Outcomes.{Outcome, dispatch_next-Outcome}
use tiny_office.Work.Tests.{draft, desk}
use tiny_office.Work.Tests.Leases.{clock}

abbrev waiting : RunRecord
waiting = record draft { status = RunStatus.queued; started_at = none }

abbrev morning : Repository
morning = record desk { runs = waiting ∷ [] }

dispatch_next-Outcome_example :
    (r : Option Dispatched) × (leases' : Leases) × (dispatch_next clock.order
        (some clock)
        "dispatcher"
        morning
        []
      ≡ (ok r, leases'))
    × Outcome clock.order clock "dispatcher" morning [] r leases'
dispatch_next-Outcome_example = dispatch_next-Outcome clock.order clock "dispatcher" morning []
