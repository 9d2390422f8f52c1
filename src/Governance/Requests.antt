-- ===== src/Governance/Requests.antt =====
-- src/runtime/company-config/access-request-service.ts: whether a tool call may go ahead, by the grants and
-- the approvals of the company.
pub mod Allowed
pub mod Waiting
use tiny_office.Prelude.{
  String, Bool, true, false, Option, none, some, List, not, ◌&&◌, ◌==◌, find, filter, is_some,
  is_text, if◌then◌else◌,
}
use tiny_office.Prelude.Json.{Json}
use tiny_office.Governance.Domain.{
  Approval, ContextKind, Grant, State, is_undecided, same_context_kind,
}
use tiny_office.Governance.Approvals.{
  ApprovalEnvironment, CreateApprovalInput, is_one_time, consume_one_time_grant, create_approval,
}

-- `AccessToolCallDecisionInput`
pub record ToolCall : Type 0 where
  pub context_kind : ContextKind
  pub context_id : String
  pub session_key : String
  pub member_id : String
  pub action : String
  pub resource : Option String
  pub requested_input_snapshot : Json
  pub reason : String

-- `===` on optional texts
abbrev pub same_text : Option String → Option String → Bool
same_text none none = true
same_text none (some b) = false
same_text (some a) b = is_text b a

-- A grant has one of the three scopes, so the test of its scope is left to its context.
unfoldable pub is_access_grant_matching_request : ToolCall → Grant → Bool
is_access_grant_matching_request call g =
    not (is_some g.consumed_at)
    && g.member_id == call.member_id
    && g.action == call.action
    && same_text g.resource call.resource
    && same_context_kind g.context_kind call.context_kind
    && g.context_id == call.context_id

unfoldable pub is_same_request : ToolCall → Approval → Bool
is_same_request call a =
    same_context_kind a.context_kind call.context_kind
    && a.context_id == call.context_id
    && a.session_key == call.session_key
    && a.requested_by_member_id == call.member_id
    && a.requested_action == call.action
    && same_text a.requested_resource call.resource

-- `AccessToolCallDecisionResult`; a blocked call names the approval that it waits for.
pub data ToolCallDecision : Type 0 where
  let_through : ToolCallDecision
  block : Approval → ToolCallDecision

abbrev pub request_of : ToolCall → CreateApprovalInput
request_of call = record {
  context_kind = call.context_kind;
  context_id = call.context_id;
  session_key = call.session_key;
  requested_by_member_id = call.member_id;
  requested_approver_member_id = none;
  requested_action = call.action;
  requested_resource = call.resource;
  requested_input_snapshot = call.requested_input_snapshot;
  reason = call.reason;
}

-- Without a grant: the pending request, or a new one.
abbrev pub block_call :
    ApprovalEnvironment → ToolCall → Option Approval → State → ToolCallDecision × State
block_call env call (some a) s = (block a, s)
block_call env call none s = let (a, s') = create_approval env (request_of call) s in (block a, s')

abbrev pub pending_request : ToolCall → State → Option Approval
pending_request call s =
    find (is_same_request call) (filter (λ a. is_undecided a.status) s.approvals)

abbrev pub decide_by :
    ApprovalEnvironment → ToolCall → Option Grant → State → ToolCallDecision × State
decide_by env call (some g) s =
    (let_through, if is_one_time g.scope then (consume_one_time_grant g.id env.now s).1 else s)
decide_by env call none s = block_call env call (pending_request call s) s

-- `decideAccessToolCall`
unfoldable pub decide_access_tool_call :
    ApprovalEnvironment → ToolCall → State → ToolCallDecision × State
unfolding is_access_grant_matching_request is_same_request create_approval
decide_access_tool_call env call s =
    decide_by env call (find (is_access_grant_matching_request call) s.approval_grants) s
