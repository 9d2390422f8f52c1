-- ===== src/Work/Service/Tasks/Archive.antt =====
-- `archiveWorkTask` and `restoreWorkTask` of src/work/work-service.ts, one after the other.
use tiny_office.Prelude.{String, ◌≡◌, refl, ◌∙◌, ap, true, false, Option, some, find_by-upsert_same}
use tiny_office.Prelude.Text.{optional_text}
use tiny_office.Prelude.Exec.{ok, ◌>>=◌}
use tiny_office.Work.Domain.{
  Timestamp, TaskStatus, active, archived, TaskRecord, TaskDetail, same_task_status,
}
use tiny_office.Work.Repository.{
  Repository, task_id, get_work_task, update_work_task, put_task, notify,
}
use tiny_office.Work.Environment.{Environment, require_text}
use tiny_office.Work.Service.{is_inactive_task_status}
use tiny_office.Work.Service.Revise.{task_detail}
use tiny_office.Work.Service.Tasks.{
  TaskLifecycleInput, archived_from, archive_inactive, archive_work_task, restored_task,
  restore_archived, restore_work_task,
}
use tiny_office.Work.Service.Tasks.Safety.{previous_archived_task_status-archived_from}

inactive-Unarchived :
    (st : TaskStatus) → is_inactive_task_status st ≡ true → same_task_status st archived ≡ false
inactive-Unarchived active e = cc
inactive-Unarchived TaskStatus.completed e = refl
inactive-Unarchived TaskStatus.canceled e = refl
inactive-Unarchived archived e = cc

archived_from-id :
    (now : Timestamp) (actor : String) (reason : Option String) (task : TaskRecord)
    → (archived_from now actor reason task).id ≡ task.id
unfolding archived_from
archived_from-id now actor reason task = refl

-- What the call that archives a completed or canceled task returns and stores.
archive_work_task-archived :
    (env : Environment) (input : TaskLifecycleInput) (s : Repository) (task : TaskRecord)
    (actor : String)
    → get_work_task input.work_task_id s ≡ some task
    → is_inactive_task_status task.status ≡ true
    → optional_text (some input.actor_member_id) ≡ some actor
    → (s' : Repository) × (d : TaskDetail) × (archive_work_task env input s ≡ (ok d, s'))
      × (d.task ≡ archived_from env.now actor (optional_text input.reason) task)
      × (get_work_task task.id s' ≡ some d.task)
unfolding archive_work_task archive_inactive require_text update_work_task put_task notify
    task_detail ◌>>=◌
archive_work_task-archived env input s task actor found ended named =
    rw (named, found, inactive-Unarchived task.status ended, ended)
      (
        _,
        _,
        refl,
        refl,
        find_by-upsert_same task_id task.id _ s.tasks
            (archived_from-id env.now actor (optional_text input.reason) task),
      )

-- What the call that restores an archived task returns and stores.
restore_work_task-restored :
    (env : Environment) (input : TaskLifecycleInput) (s : Repository) (task : TaskRecord)
    (actor : String)
    → get_work_task input.work_task_id s ≡ some task
    → task.status ≡ archived
    → optional_text (some input.actor_member_id) ≡ some actor
    → (s' : Repository) × (d : TaskDetail) × (restore_work_task env input s ≡ (ok d, s'))
      × (d.task ≡ restored_task env.now task)
      × (get_work_task task.id s' ≡ some d.task)
unfolding restore_work_task restore_archived require_text update_work_task put_task notify
    task_detail restored_task ◌>>=◌
restore_work_task-restored env input s task actor found ended named =
    rw (named, found, ended) (_, _, refl, refl, find_by-upsert_same task_id task.id _ s.tasks refl)

-- A completed or canceled task that is archived and then restored, by named actors, is stored with
-- the status, the reason of its cancellation and the end time that it had.
pub restore-archive :
    (env env' : Environment) (input input' : TaskLifecycleInput) (s : Repository)
    (task : TaskRecord) (actor actor' : String)
    → get_work_task input.work_task_id s ≡ some task
    → is_inactive_task_status task.status ≡ true
    → optional_text (some input.actor_member_id) ≡ some actor
    → input'.work_task_id ≡ task.id
    → optional_text (some input'.actor_member_id) ≡ some actor'
    → (s' : Repository) × (d : TaskDetail) × (restore_work_task env' input'
          (archive_work_task env input s).1
        ≡ (ok d, s'))
      × (get_work_task task.id s' ≡ some d.task)
      × (d.task.status ≡ task.status)
      × (d.task.canceled_reason ≡ task.canceled_reason)
      × (d.task.completed_at ≡ task.completed_at)
unfolding restored_task archived_from
restore-archive env env' input input' s task actor actor' found ended named same named' =
    let (s1, d1, run1, kept1, stored1) =
      archive_work_task-archived env input s task actor found ended named in
    let (s2, d2, run2, kept2, stored2) =
      restore_work_task-restored env' input' s1
        (archived_from env.now actor (optional_text input.reason) task) actor'
        (ap (λ i. get_work_task i s1) same ∙ (stored1 ∙ ap some kept1)) refl named' in
    (
      s2,
      d2,
      ap (λ r. restore_work_task env' input' r.1) run1 ∙ run2,
      stored2,
      ap (λ t. t.status) kept2
          ∙ previous_archived_task_status-archived_from env.now actor (optional_text input.reason)
              task ended,
      ap (λ t. t.canceled_reason) kept2,
      ap (λ t. t.completed_at) kept2,
    )
