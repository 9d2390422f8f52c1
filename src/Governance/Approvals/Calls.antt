-- ===== src/Governance/Approvals/Calls.antt =====
-- The calls of ApprovalService (src/governance/services/company-governance-services.ts) as steps, and
-- the states that they reach from an empty store.
use tiny_office.Prelude.{String, ◌≢◌, All}
use tiny_office.Work.Domain.{Timestamp}
use tiny_office.Governance.Domain.{State, empty_governance, ContextKind}
use tiny_office.Governance.Approvals.{
  ApprovalEnvironment, CreateApprovalInput, ResolveInput, Resolution, create_approval,
  resolve_approval, consume_one_time_grant, revoke_grants_for_member,
  cancel_pending_approvals_for_context, cancel_pending_approvals_for_member,
}

pub data Call : Type 0 where
  create : CreateApprovalInput → Call
  resolve : String → Resolution → ResolveInput → Call
  consume : String → Timestamp → Call
  cancel_context : ContextKind → String → String → Call
  cancel_member : String → String → Call
  revoke : String → Call

-- The state after a call.
unfoldable pub state_after : ApprovalEnvironment → Call → State → State
state_after env (create input) s = (create_approval env input s).1
state_after env (resolve id resolution input) s = (resolve_approval env id resolution input s).1
state_after env (consume id consumed_at) s = (consume_one_time_grant id consumed_at s).1
state_after env (cancel_context kind id reason) s =
    (cancel_pending_approvals_for_context env kind id reason s).1
state_after env (cancel_member member_id reason) s =
    (cancel_pending_approvals_for_member env member_id reason s).1
state_after env (revoke member_id) s = (revoke_grants_for_member member_id s).1

-- The id drawn is in no stored record.
abbrev pub IsFresh : ApprovalEnvironment → State → Type 0
IsFresh env s =
    All (λ a. a.id ≢ env.random_uuid) s.approvals
    × All (λ g. g.id ≢ env.random_uuid) s.approval_grants

-- The states that calls with fresh ids reach.
pub data Reachable : State → Type 0 where
  start : Reachable empty_governance
  step :
      {s : State} (env : ApprovalEnvironment) (call : Call)
      → Reachable s
      → IsFresh env s
      → Reachable (state_after env call s)
