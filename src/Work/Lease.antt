-- ===== src/Work/Lease.antt =====
-- src/work/work-dispatch-lease.ts and src/work/postgres-work-dispatch-lease-repository.ts: the
-- leases under which runs are handed to their assignees.
pub mod Lifecycle
pub mod Creation
use tiny_office.Prelude.{
  ℕ, ◌+◌, String, Ordering, compare, Bool, true, false, Option, none, some, List, [], ◌∷◌, ◌&&◌,
  ◌||◌, not, leb, eqb, ◌==◌, first_some, head?, find_by, filter, upsert, sort, then_by, is_some,
  if◌then◌else◌,
}
use tiny_office.Prelude.Text.{nonempty}
use tiny_office.Prelude.Json.{Metadata}
use tiny_office.Prelude.Exec.{Exec, pure, throw, gets, modify, require, guard, choose, ◌>>=◌, ◌>>◌}
use tiny_office.Work.Domain.{Timestamp}
use tiny_office.Work.Repository.{matches, truthy}

pub data LeaseStatus : Type 0 where
  pending acknowledged failed canceled : LeaseStatus

pub record LeaseRecord : Type 0 where
  pub id : String
  pub work_run_id : String
  pub assignee_member_id : String
  pub session_key : String
  pub status : LeaseStatus
  pub dispatched_at : Timestamp
  pub expires_at : Timestamp
  pub acknowledged_at : Option Timestamp
  pub failed_at : Option Timestamp
  pub canceled_at : Option Timestamp
  pub failure_reason : Option String
  pub retry_of_lease_id : Option String
  pub created_by : String
  pub metadata : Metadata

abbrev pub lease_status_number : LeaseStatus → ℕ
lease_status_number pending = 0
lease_status_number acknowledged = 1
lease_status_number failed = 2
lease_status_number canceled = 3

abbrev pub same_lease_status : LeaseStatus → LeaseStatus → Bool
same_lease_status a b = eqb (lease_status_number a) (lease_status_number b)

abbrev pub lease_id : LeaseRecord → String
lease_id l = l.id

pub data LeaseError : Type 0 where
  already_pending lease_not_found : String → LeaseError

abbrev pub Leases : Type 0
Leases = List LeaseRecord

abbrev pub Action : Type 0 → Type 0
Action A = Exec LeaseError Leases A

-- What a call of the lease service takes from outside, and its configuration.
pub record LeaseEnvironment : Type 0 where
  pub now : Timestamp
  pub create_id : String → String
  pub order : String → String → Ordering
  pub lease_ttl_ms : ℕ

abbrev pub by_dispatched_desc : (String → String → Ordering) → LeaseRecord → LeaseRecord → Ordering
by_dispatched_desc order left right =
    then_by (compare right.dispatched_at left.dispatched_at) (order right.id left.id)

-- `getLatestLeaseForWorkRun`
unfoldable pub get_latest_lease :
    (String → String → Ordering) → String → Leases → Option LeaseRecord
get_latest_lease order work_run_id leases =
    head? (sort (by_dispatched_desc order) (filter (λ l. l.work_run_id == work_run_id) leases))

-- `listLeases`
unfoldable pub list_leases :
    (String → String → Ordering)
    → Option String
    → Option LeaseStatus
    → Option Timestamp
    → Leases
    → List LeaseRecord
list_leases order work_run_id status expired_before leases = sort (by_dispatched_desc order) (
    filter (λ l. matches (leb l.expires_at) expired_before)
      (filter (λ l. matches (same_lease_status l.status) status)
        (filter (λ l. matches (λ r. l.work_run_id == r) (truthy work_run_id)) leases)))

put_lease : LeaseRecord → Action Unit
put_lease l = modify (upsert lease_id l)

-- `createLease`, with the status `pending` that its only caller leaves out
create_lease : LeaseRecord → Action LeaseRecord
unfolding put_lease
create_lease l = do put_lease l; pure l

-- What `updateLease` is given beside the lease's id.
pub record LeaseChange : Type 0 where
  pub status : LeaseStatus
  pub acknowledged_at : Option Timestamp
  pub failed_at : Option Timestamp
  pub canceled_at : Option Timestamp
  pub failure_reason : Option String

unfoldable pub changed_lease : LeaseChange → LeaseRecord → LeaseRecord
changed_lease change current = record current {
  status = change.status;
  acknowledged_at = first_some change.acknowledged_at current.acknowledged_at;
  failed_at = first_some change.failed_at current.failed_at;
  canceled_at = first_some change.canceled_at current.canceled_at;
  failure_reason = first_some (truthy change.failure_reason) current.failure_reason;
}

-- `updateLease`
update_lease : String → LeaseChange → Action LeaseRecord
unfolding put_lease
update_lease id change = do
  found ← gets (find_by lease_id id)
  current ← require found (lease_not_found id)
  put_lease (changed_lease change current)
  pure (changed_lease change current)

abbrev pub is_pending : Option LeaseRecord → Bool
is_pending none = false
is_pending (some l) = same_lease_status l.status pending

pub record LeaseInput : Type 0 where
  pub work_run_id : String
  pub assignee_member_id : String
  pub session_key : String
  pub created_by : String
  pub retry_of_lease_id : Option String
  pub metadata : Metadata

unfoldable pub new_lease : LeaseEnvironment → LeaseInput → LeaseRecord
new_lease env input = record {
  id = env.create_id "work-dispatch";
  work_run_id = input.work_run_id;
  assignee_member_id = input.assignee_member_id;
  session_key = input.session_key;
  status = pending;
  dispatched_at = env.now;
  expires_at = env.now + env.lease_ttl_ms;
  acknowledged_at = none;
  failed_at = none;
  canceled_at = none;
  failure_reason = none;
  retry_of_lease_id = input.retry_of_lease_id;
  created_by = input.created_by;
  metadata = input.metadata;
}

-- `createPendingLease`
unfoldable pub create_pending_lease : LeaseEnvironment → LeaseInput → Action LeaseRecord
unfolding create_lease
create_pending_lease env input = do
  latest ← gets (get_latest_lease env.order input.work_run_id)
  guard (not (is_pending latest)) (already_pending input.work_run_id)
  create_lease (new_lease env input)

-- The change that an operation makes to the latest lease, where it makes one.
update_optional_lease : Option LeaseRecord → LeaseChange → Action (Option LeaseRecord)
unfolding update_lease
update_optional_lease none change = pure none
update_optional_lease (some l) change = update_lease l.id change >>= λ updated. pure (some updated)

-- The lease, if it passes the operation's test.
abbrev pub keep_if : (LeaseRecord → Bool) → Option LeaseRecord → Option LeaseRecord
keep_if test none = none
keep_if test (some l) = if test l then some l else none

unfoldable pub acknowledgement : Timestamp → LeaseChange
acknowledgement now = record {
  status = acknowledged;
  acknowledged_at = some now;
  failed_at = none;
  canceled_at = none;
  failure_reason = none;
}

unfoldable pub failure : Timestamp → String → LeaseChange
failure now reason = record {
  status = failed;
  acknowledged_at = none;
  failed_at = some now;
  canceled_at = none;
  failure_reason = some reason;
}

unfoldable pub cancellation : Timestamp → String → LeaseChange
cancellation now reason = record {
  status = canceled;
  acknowledged_at = none;
  failed_at = none;
  canceled_at = some now;
  failure_reason = some reason;
}

abbrev pub may_acknowledge : String → LeaseRecord → Bool
may_acknowledge assignee l = same_lease_status l.status pending && l.assignee_member_id == assignee

abbrev pub may_fail : LeaseRecord → Bool
may_fail l = same_lease_status l.status pending

abbrev pub may_cancel : LeaseRecord → Bool
may_cancel l = same_lease_status l.status pending || same_lease_status l.status acknowledged

-- `acknowledgeWorkRunStart`
unfoldable pub acknowledge_work_run_start :
    LeaseEnvironment → String → String → Action (Option LeaseRecord)
unfolding update_optional_lease acknowledgement
acknowledge_work_run_start env work_run_id assignee = do
  latest ← gets (get_latest_lease env.order work_run_id)
  update_optional_lease (keep_if (may_acknowledge assignee) latest) (acknowledgement env.now)

-- `failPendingLease`
unfoldable pub fail_pending_lease : LeaseEnvironment → String → String → Action (Option LeaseRecord)
unfolding update_optional_lease failure
fail_pending_lease env work_run_id reason = do
  latest ← gets (get_latest_lease env.order work_run_id)
  update_optional_lease (keep_if may_fail latest) (failure env.now reason)

-- `cancelLatestLease`
unfoldable pub cancel_latest_lease :
    LeaseEnvironment → String → String → Action (Option LeaseRecord)
unfolding update_optional_lease cancellation
cancel_latest_lease env work_run_id reason = do
  latest ← gets (get_latest_lease env.order work_run_id)
  update_optional_lease (keep_if may_cancel latest) (cancellation env.now reason)

-- The `map` over the expired leases.
unfoldable pub fail_leases : Timestamp → String → List LeaseRecord → Action (List LeaseRecord)
unfolding update_lease failure
fail_leases now reason [] = pure []
fail_leases now reason (l ∷ ls) = do
  updated ← update_lease l.id (failure now reason)
  rest ← fail_leases now reason ls
  pure (updated ∷ rest)

abbrev pub default_expiry_reason : String
default_expiry_reason = "Agent did not start the WorkRun before the dispatch lease expired."

abbrev reason_or_default : Option String → String
reason_or_default none = default_expiry_reason
reason_or_default (some reason) = reason

-- `markExpiredPendingLeasesFailed`
unfoldable pub mark_expired_pending_leases_failed :
    LeaseEnvironment → Option String → Action (List LeaseRecord)
unfolding fail_leases
mark_expired_pending_leases_failed env reason = do
  expired ← gets (list_leases env.order none (some pending) (some env.now))
  fail_leases env.now (reason_or_default (truthy reason)) expired
