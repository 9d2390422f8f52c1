-- ===== src/Governance/Approvals.antt =====
-- src/governance/repositories/approval-repository.ts and ApprovalService of
-- src/governance/services/company-governance-services.ts.
pub mod Calls
pub mod Canceling
pub mod Grants
pub mod Spending
pub mod Backing
pub mod Soundness
pub mod Outcomes
use tiny_office.Prelude.{
  ℕ, ◌-◌, String, Bool, true, Option, none, some, List, [], ◌∷◌, ◌&&◌, not, ◌==◌, eqb, length,
  filter, find_by, upsert, is_some, or_else, if◌then◌else◌,
}
use tiny_office.Prelude.Text.{optional_text}
use tiny_office.Prelude.Json.{Json}
use tiny_office.Work.Domain.{Timestamp}
use tiny_office.Governance.Domain.{
  Approval, ApprovalStatus, pending, approved, rejected, canceled, ContextKind, Grant, GrantScope,
  one_time, session, State, is_undecided, same_context_kind, context_kind_number,
}

-- What one call takes from outside: the clock and the id that it draws.
pub record ApprovalEnvironment : Type 0 where
  pub now : Timestamp
  pub random_uuid : String

abbrev pub approval_id : Approval → String
approval_id a = a.id

abbrev pub grant_id : Grant → String
grant_id g = g.id

-- The repository.
abbrev get_by_id : String → State → Option Approval
get_by_id id s = find_by approval_id id s.approvals

abbrev pub save_approval : Approval → State → State
save_approval a s = record s { approvals = upsert approval_id a s.approvals }

abbrev pub save_grant : Grant → State → State
save_grant g s = record s { approval_grants = upsert grant_id g s.approval_grants }

abbrev pub is_one_time : GrantScope → Bool
is_one_time one_time = true
is_one_time session = Bool.false
is_one_time GrantScope.work_run = Bool.false

-- A grant that may be consumed.
abbrev pub is_usable : Grant → Bool
is_usable g = is_one_time g.scope && not (is_some g.consumed_at)

abbrev pub consumed_grant : Timestamp → Grant → Grant
consumed_grant consumed_at g = record g { consumed_at = some consumed_at }

abbrev pub use_grant : Timestamp → Option Grant → State → Option Grant × State
use_grant consumed_at none s = (none, s)
use_grant consumed_at (some g) s =
    if is_usable g
    then (some (consumed_grant consumed_at g), save_grant (consumed_grant consumed_at g) s)
    else (none, s)

unfoldable pub consume_one_time_grant : String → Timestamp → State → Option Grant × State
consume_one_time_grant id consumed_at s =
    use_grant consumed_at (find_by grant_id id s.approval_grants) s

abbrev pub is_of_other_member : String → Grant → Bool
is_of_other_member member_id g = not (g.member_id == member_id)

unfoldable pub revoke_grants_for_member : String → State → ℕ × State
revoke_grants_for_member member_id s =
    let kept = filter (is_of_other_member member_id) s.approval_grants in
    (length s.approval_grants - length kept, record s { approval_grants = kept })

-- The service.
pub record CreateApprovalInput : Type 0 where
  pub context_kind : ContextKind
  pub context_id : String
  pub session_key : String
  pub requested_by_member_id : String
  pub requested_approver_member_id : Option String
  pub requested_action : String
  pub requested_resource : Option String
  pub requested_input_snapshot : Json
  pub reason : String

abbrev pub new_approval : ApprovalEnvironment → CreateApprovalInput → Approval
new_approval env input = record {
  id = env.random_uuid;
  context_kind = input.context_kind;
  context_id = input.context_id;
  session_key = input.session_key;
  requested_by_member_id = input.requested_by_member_id;
  requested_approver_member_id = input.requested_approver_member_id;
  requested_action = input.requested_action;
  requested_resource = input.requested_resource;
  requested_input_snapshot = input.requested_input_snapshot;
  status = pending;
  reason = input.reason;
  decision_note = none;
  resolved_by_member_id = none;
  created_at = env.now;
  updated_at = env.now;
  resolved_at = none;
}

unfoldable pub create_approval :
    ApprovalEnvironment → CreateApprovalInput → State → Approval × State
create_approval env input s = (new_approval env input, save_approval (new_approval env input) s)

-- The status that `resolveApproval` is asked for.
pub data Resolution : Type 0 where
  approve reject : Resolution

abbrev resolved_status : Resolution → ApprovalStatus
resolved_status approve = approved
resolved_status reject = rejected

pub record ResolveInput : Type 0 where
  pub resolved_by_member_id : Option String
  pub decision_note : Option String
  pub grant_scope : Option GrantScope

abbrev pub resolved_approval : ApprovalEnvironment → Resolution → ResolveInput → Approval → Approval
resolved_approval env resolution input a = record a {
  status = resolved_status resolution;
  decision_note = optional_text input.decision_note;
  resolved_by_member_id = input.resolved_by_member_id;
  updated_at = env.now;
  resolved_at = some env.now;
}

abbrev is_work_run : ContextKind → Bool
is_work_run kind = eqb (context_kind_number kind) 2

abbrev pub granted : ApprovalEnvironment → ResolveInput → Approval → Grant
granted env input a = record {
  id = env.random_uuid;
  approval_id = a.id;
  member_id = a.requested_by_member_id;
  action = a.requested_action;
  resource = a.requested_resource;
  scope =
      or_else input.grant_scope
        (if is_work_run a.context_kind then GrantScope.work_run else session);
  context_kind = a.context_kind;
  context_id = a.context_id;
  expires_at = none;
  consumed_at = none;
  created_at = env.now;
}

pub record Resolved : Type 0 where
  pub approval : Approval
  pub grant : Option Grant

-- What follows the save of the resolved approval.
abbrev pub grant_for :
    ApprovalEnvironment → Resolution → ResolveInput → Approval → State → Resolved × State
grant_for env reject input a s = (record { approval = a; grant = none }, s)
grant_for env approve input a s = (
  record { approval = a; grant = some (granted env input a) },
  save_grant (granted env input a) s,
)

abbrev pub resolve_found :
    ApprovalEnvironment
    → Resolution
    → ResolveInput
    → Option Approval
    → State
    → Option Resolved × State
resolve_found env resolution input none s = (none, s)
resolve_found env resolution input (some a) s =
    let updated = resolved_approval env resolution input a in
    let (resolved, s') = grant_for env resolution input updated (save_approval updated s) in
    (some resolved, s')

unfoldable pub resolve_approval :
    ApprovalEnvironment → String → Resolution → ResolveInput → State → Option Resolved × State
resolve_approval env id resolution input s = resolve_found env resolution input (get_by_id id s) s

abbrev pub canceled_approval : Timestamp → String → Approval → Approval
canceled_approval timestamp reason a = record a {
  status = canceled;
  decision_note = some reason;
  updated_at = timestamp;
  resolved_at = some timestamp;
}

-- `for (const approval of pending) …`: the canceled approvals and the state afterwards
unfoldable pub cancel_each : Timestamp → String → List Approval → State → List Approval × State
cancel_each timestamp reason [] s = ([], s)
cancel_each timestamp reason (a ∷ todo) s =
    let updated = canceled_approval timestamp reason a in
    let (rest, s') = cancel_each timestamp reason todo (save_approval updated s) in
    (updated ∷ rest, s')

abbrev pub is_pending_in_context : ContextKind → String → Approval → Bool
is_pending_in_context kind id a =
    is_undecided a.status && same_context_kind a.context_kind kind && a.context_id == id

unfoldable pub cancel_pending_approvals_for_context :
    ApprovalEnvironment → ContextKind → String → String → State → List Approval × State
unfolding cancel_each
cancel_pending_approvals_for_context env kind id reason s =
    cancel_each env.now reason (filter (is_pending_in_context kind id) s.approvals) s

abbrev pub is_pending_of_member : String → Approval → Bool
is_pending_of_member member_id a = is_undecided a.status && a.requested_by_member_id == member_id

unfoldable pub cancel_pending_approvals_for_member :
    ApprovalEnvironment → String → String → State → List Approval × State
unfolding cancel_each
cancel_pending_approvals_for_member env member_id reason s =
    cancel_each env.now reason (filter (is_pending_of_member member_id) s.approvals) s
