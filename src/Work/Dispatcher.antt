-- ===== src/Work/Dispatcher.antt =====
-- src/work/work-dispatcher.ts: which queued run is handed out next, and its lease.

pub mod Fitness
pub mod Outcomes
use tiny_office.Prelude.{
  ℕ, String, Ordering, compare, Bool, true, false, Option, none, some, List, [], ◌∷◌, ◌&&◌, ◌||◌,
  not, ◌==◌, is_some, first_some, find, head?, sort, then_by, if◌then◌else◌,
}
use tiny_office.Prelude.Text.{join}
use tiny_office.Prelude.Json.{Json, undefined, string, object, field, end, get_field}
use tiny_office.Prelude.Exec.{pure, ◌>>=◌}
use tiny_office.Work.Domain.{
  SourceKind, chat_request, intake_event, manual, TaskRecord, RunRecord, RunStatus,
}
use tiny_office.Work.Repository.{Repository, get_work_task, get_work_run, list_work_runs}
use tiny_office.Work.Lease.{
  LeaseRecord, LeaseStatus, Leases, LeaseEnvironment, LeaseInput, Action, same_lease_status,
  get_latest_lease, create_pending_lease,
}

pub record PackageSource : Type 0 where
  pub kind : SourceKind
  pub id : String
  pub channel_topic_id : Option String
  pub requester_id : Option String

pub record Package : Type 0 where
  pub work_task_id : String
  pub work_run_id : String
  pub task_revision : ℕ
  pub title : String
  pub description : Option String
  pub assignee_member_id : String
  pub acceptance_criteria : String
  pub source : PackageSource

pub record Candidate : Type 0 where
  pub task : TaskRecord
  pub run : RunRecord
  pub assignee_member_id : String
  pub dispatch_package : Package
  pub session_key : String
  pub pending_lease : Option LeaseRecord

abbrev is_string : Json → String → Bool
is_string (string s) text = s == text
is_string _ text = false

-- `isExplicitRetryLease`, on a lease that is there
abbrev pub is_explicit_retry_lease : LeaseRecord → Bool
is_explicit_retry_lease l =
    same_lease_status l.status LeaseStatus.pending
    && is_some l.retry_of_lease_id
    && is_string (get_field "source" l.metadata) "tasks-run-action"

abbrev pub is_empty : List RunRecord → Bool
is_empty [] = true
is_empty (r ∷ runs) = false

-- `isAssigneeIdle`
unfoldable pub is_assignee_idle : (String → String → Ordering) → String → Repository → Bool
is_assignee_idle order assignee s =
    is_empty (list_work_runs order none (some assignee) (some RunStatus.in_progress) s)

-- `buildWorkRunExecutionSessionKey`
unfoldable pub session_key_of : RunRecord → String
session_key_of run = join (run.assignee_member_id ∷ "|work_run_execution|" ∷ run.id ∷ [])

-- `buildWorkDispatchPackage`
unfoldable pub package_of : TaskRecord → RunRecord → Package
package_of task run = record {
  work_task_id = task.id;
  work_run_id = run.id;
  task_revision = run.task_revision;
  title = task.title;
  description = task.description;
  assignee_member_id = run.assignee_member_id;
  acceptance_criteria = task.acceptance_criteria;
  source = record {
    kind = task.source_kind;
    id = task.source_id;
    channel_topic_id = task.source_channel_topic_id;
    requester_id = task.requester_id;
  };
}

-- What the run's latest lease makes of it: no candidate, or one with an explicit retry or without.
unfoldable pub lease_verdict : Option LeaseRecord → Option (Option LeaseRecord)
lease_verdict none = some none
lease_verdict (some l) =
    if is_explicit_retry_lease l
    then some (some l)
    else if same_lease_status l.status LeaseStatus.pending
        || same_lease_status l.status LeaseStatus.failed
    then none
    else some none

unfoldable pub pending_lease_of :
    Option LeaseEnvironment → RunRecord → Leases → Option (Option LeaseRecord)
unfolding lease_verdict
pending_lease_of none run leases = some none
pending_lease_of (some service) run leases =
    lease_verdict (get_latest_lease service.order run.id leases)

-- The task of `getWorkRunExecutionDetail`
abbrev task_of : Option RunRecord → Repository → Option TaskRecord
task_of none s = none
task_of (some run) s = get_work_task run.work_task_id s

candidate_with : RunRecord → Option (Option LeaseRecord) → Option TaskRecord → Option Candidate
candidate_with run (some lease) (some task) = some (record {
  task = task;
  run = run;
  assignee_member_id = run.assignee_member_id;
  dispatch_package = package_of task run;
  session_key = session_key_of run;
  pending_lease = lease;
})
candidate_with run _ _ = none

-- The body of the loop over the queued runs.
unfoldable pub candidate_of :
    (String → String → Ordering)
    → Option LeaseEnvironment
    → Repository
    → Leases
    → RunRecord
    → Option Candidate
unfolding candidate_with
candidate_of order service s leases run =
    if is_assignee_idle order run.assignee_member_id s
    then candidate_with run (pending_lease_of service run leases)
        (task_of (get_work_run run.id s) s)
    else none

abbrev add_candidate : Option Candidate → List Candidate → List Candidate
add_candidate none cs = cs
add_candidate (some c) cs = c ∷ cs

unfoldable pub candidates :
    (String → String → Ordering)
    → Option LeaseEnvironment
    → Repository
    → Leases
    → List RunRecord
    → List Candidate
candidates order service s leases [] = []
candidates order service s leases (run ∷ runs) =
    add_candidate (candidate_of order service s leases run) (candidates order service s leases runs)

abbrev pub by_created : (String → String → Ordering) → RunRecord → RunRecord → Ordering
by_created order left right =
    then_by (compare left.created_at right.created_at) (order left.id right.id)

-- `findNextDispatchCandidate`
unfoldable pub find_next_dispatch_candidate :
    (String → String → Ordering) → Option LeaseEnvironment → Repository → Leases → Option Candidate
unfolding candidates
find_next_dispatch_candidate order service s leases =
    let cs =
      candidates order service s leases
        (sort (by_created order) (list_work_runs order none none (some RunStatus.queued) s)) in
    first_some (find (λ c. is_some c.pending_lease) cs) (head? cs)

abbrev source_kind_text : SourceKind → String
source_kind_text chat_request = "chat_request"
source_kind_text intake_event = "intake_event"
source_kind_text manual = "manual"

abbrev text_or_undefined : Option String → Json
text_or_undefined none = undefined
text_or_undefined (some t) = string t

unfoldable pub lease_request : String → Candidate → LeaseInput
lease_request created_by c =
    let source = c.dispatch_package.source in
    record {
      work_run_id = c.run.id;
      assignee_member_id = c.assignee_member_id;
      session_key = c.session_key;
      created_by = created_by;
      retry_of_lease_id = none;
      metadata =
          ("workTaskId", string c.task.id)
          ∷ (
            "source",
            object (
                field "kind" (string (source_kind_text source.kind)) (
                  field "id" (string source.id) (
                    field "channelTopicId" (text_or_undefined source.channel_topic_id)
                      (field "requesterId" (text_or_undefined source.requester_id) end)))),
          )
          ∷ [];
    }

pub record Dispatched : Type 0 where
  pub candidate : Candidate
  pub lease : Option LeaseRecord

-- The lease of the candidate: its explicit retry, or a new one.
lease_candidate :
    Option LeaseEnvironment → String → Candidate → Option LeaseRecord → Action (Option LeaseRecord)
unfolding lease_request
lease_candidate service created_by c (some l) = pure (some l)
lease_candidate none created_by c none = pure none
lease_candidate (some env) created_by c none =
    create_pending_lease env (lease_request created_by c) >>= λ l. pure (some l)

dispatch_candidate :
    Option LeaseEnvironment → String → Option Candidate → Action (Option Dispatched)
unfolding lease_candidate
dispatch_candidate service created_by none = pure none
dispatch_candidate service created_by (some c) =
    lease_candidate service created_by c c.pending_lease >>= λ l.
    pure (some (record { candidate = c; lease = l }))

-- `dispatchNext`, over the stored work, which it only reads
unfoldable pub dispatch_next :
    (String → String → Ordering)
    → Option LeaseEnvironment
    → String
    → Repository
    → Action (Option Dispatched)
unfolding dispatch_candidate
dispatch_next order service created_by s leases =
    dispatch_candidate service created_by (find_next_dispatch_candidate order service s leases)
      leases
