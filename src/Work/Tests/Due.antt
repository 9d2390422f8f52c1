-- ===== src/Work/Tests/Due.antt =====
-- Tests of src/work/work-service.ts: schedules that are due.
use tiny_office.Prelude.{◌≡◌, refl, true, false, none, some, [], ◌∷◌, find, find_by, upsert}
use tiny_office.Prelude.Text.{trim}
use tiny_office.Prelude.Exec.{ok, err}
use tiny_office.Work.Domain.{RunRecord}
use tiny_office.Work.Repository.{Repository, run_id, event_id, get_work_task, get_work_schedule}
use tiny_office.Work.Environment.{is_required, invalid_date}
use tiny_office.Work.Domain.{Interval, ScheduleRecord, text_order}
use tiny_office.Prelude.{◌==◌, leb, inl, inr, arith, update_first, sort, filter}
use tiny_office.Work.Repository.{list_work_runs, normalized_run, counted_up}
use tiny_office.Work.Environment.{require_active_runtime_member, require_text}
use tiny_office.Prelude.Exec.{◌>>=◌}
use tiny_office.Work.Service.Due.{
  CreateDueWorkRunInput, create_due_work_run, due_run, due_event, is_run_for,
}
use tiny_office.Work.Service.Due.Outcomes.{
  create_due_work_run-past_dates, create_due_work_run-blank_actor,
}
use tiny_office.Work.Service.Due.Reuse.{IsRunOf, create_due_work_run-reused}
use tiny_office.Work.Tests.{
  office, report, draft, weekly, desk, ann-named, blank-unnamed, report-found,
}

abbrev tick : CreateDueWorkRunInput
tick = record { work_schedule_id = "weekly"; actor_member_id = "ann" }

weekly-found : get_work_schedule "weekly" desk ≡ some weekly
unfolding find_by
weekly-found = refl

ann-active : (s : Repository) → require_active_runtime_member office "ann" s ≡ (ok "ann", s)
unfolding require_active_runtime_member require_text find_by trim ◌>>=◌
ann-active s = refl

weekly-due : leb (text_order 90) (text_order office.now) ≡ true
unfolding text_order
weekly-due = refl

no_run_yet :
    find (is_run_for 90) (list_work_runs office.order (some "report") none none desk) ≡ none
unfolding find list_work_runs sort filter
no_run_yet = refl

-- A schedule with an interval that no date reaches.
abbrev distant : Interval
distant = record { whole = 9000000000000000; fraction = 0 }

abbrev never : ScheduleRecord
never = record weekly {
  schedule_rule =
      some
        (record { scheduled_for = some 20; interval_ms = some distant; cron = none; rrule = none });
}

abbrev far_desk : Repository
far_desk = record desk { schedules = never ∷ [] }

never-found : get_work_schedule "weekly" far_desk ≡ some never
unfolding find_by
never-found = refl

far_report-found : get_work_task "report" far_desk ≡ some report
unfolding find_by
far_report-found = refl

no_run_yet_far :
    find (is_run_for 90) (list_work_runs office.order (some "report") none none far_desk) ≡ none
unfolding find list_work_runs sort filter
no_run_yet_far = refl

create_due_work_run-past_dates_example : create_due_work_run office tick far_desk ≡ (
  err invalid_date,
  record far_desk {
    runs =
        upsert run_id
          (normalized_run (get_work_task "report" far_desk) (due_run office report never 90))
          far_desk.runs;
    schedules = update_first (λ c. c.work_task_id == "report") (counted_up 100) far_desk.schedules;
    events =
        upsert event_id
          (due_event office report never 90 (due_run office report never 90).id "ann")
          far_desk.events;
  },
)
create_due_work_run-past_dates_example =
    create_due_work_run-past_dates office tick far_desk never 90 report "ann" never-found refl refl
      weekly-due far_report-found (ann-active far_desk) "ann" distant no_run_yet_far ann-named refl
      refl ground arith ground arith

abbrev nobody : CreateDueWorkRunInput
nobody = record { work_schedule_id = "weekly"; actor_member_id = " " }

create_due_work_run-blank_actor_example : create_due_work_run office nobody desk ≡ (
  err (is_required "actorMemberId"),
  record desk {
    runs =
        upsert run_id
          (normalized_run (get_work_task "report" desk) (due_run office report weekly 90))
          desk.runs;
    schedules = update_first (λ c. c.work_task_id == "report") (counted_up 100) desk.schedules;
  },
)
create_due_work_run-blank_actor_example =
    create_due_work_run-blank_actor office nobody desk weekly 90 report "ann" weekly-found refl refl
      weekly-due report-found (ann-active desk) no_run_yet blank-unnamed

-- The first run of the week is there, and its schedule has not moved on.
abbrev first : RunRecord
first = record draft { scheduled_for = some 90 }

abbrev stuck : Repository
stuck = record desk { runs = first ∷ [] }

first-IsRunOf : IsRunOf stuck "report" 90 first
first-IsRunOf = record { stored = inl refl; of_task = refl; for_due = refl; by_schedule = inr refl }

create_due_work_run-reused_example :
    (existing : RunRecord) × IsRunOf stuck "report" 90 existing
    × (create_due_work_run office tick stuck ≡ (
      ok (record { task = report; schedule = weekly; run = existing; created = false }),
      stuck,
    ))
unfolding find_by
create_due_work_run-reused_example =
    create_due_work_run-reused office tick stuck weekly 90 report "ann" first refl refl refl
      weekly-due refl (ann-active stuck) refl first-IsRunOf
