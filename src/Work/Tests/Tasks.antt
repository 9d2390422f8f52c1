-- ===== src/Work/Tests/Tasks.antt =====
-- Tests of src/work/work-service.ts: tasks.
use tiny_office.Prelude.{◌≡◌, refl, none, some, [], ◌∷◌, find_by}
use tiny_office.Prelude.Text.{trim}
use tiny_office.Prelude.Exec.{ok}
use tiny_office.Work.Domain.{TaskStatus, TaskRecord, TaskDetail}
use tiny_office.Work.Repository.{Repository, get_work_task}
use tiny_office.Work.Service.Tasks.{
  TaskLifecycleInput, cancel_work_task, archive_work_task, restore_work_task,
}
use tiny_office.Work.Service.Tasks.Cancel.{IsClosedOff, cancel_work_task-closes}
use tiny_office.Work.Service.Tasks.Archive.{restore-archive}
use tiny_office.Work.Service.Schedules.{canceled_task}
use tiny_office.Work.Tests.{office, report, desk, ann-named, report-found}

abbrev dropped : TaskLifecycleInput
dropped = record { work_task_id = "report"; actor_member_id = "ann"; reason = some "Not needed" }

cancel_work_task-closes_example :
    (s' : Repository) × (d : TaskDetail) × (cancel_work_task office dropped desk ≡ (ok d, s'))
    × (d.task ≡ canceled_task 100 (some "Not needed") report)
    × IsClosedOff (canceled_task 100 (some "Not needed") report) s'
unfolding trim
cancel_work_task-closes_example =
    cancel_work_task-closes office dropped desk report "Not needed" "ann" (tt, tt) (tt, tt)
      report-found refl refl ann-named

abbrev shelf : Repository
shelf = record desk {
  tasks = record report { status = TaskStatus.completed; completed_at = some 60 } ∷ [];
}

abbrev done_report : TaskRecord
done_report = record report { status = TaskStatus.completed; completed_at = some 60 }

restore-archive_example :
    (s' : Repository) × (d : TaskDetail) × (restore_work_task office dropped
        (archive_work_task office dropped shelf).1
      ≡ (ok d, s'))
    × (get_work_task "report" s' ≡ some d.task)
    × (d.task.status ≡ TaskStatus.completed)
    × (d.task.canceled_reason ≡ none)
    × (d.task.completed_at ≡ some 60)
unfolding find_by
restore-archive_example =
    restore-archive office office dropped dropped shelf done_report "ann" "ann" refl refl ann-named
      refl ann-named
