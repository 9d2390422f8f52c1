-- ===== src/Governance/Tests.antt =====
-- Tests of src/governance and src/collaboration/policy/evaluate-permission.ts.
use tiny_office.Prelude.{
  ◌≡◌, ◌≤◌, ◌≢◌, refl, String, none, some, List, [], ◌∷◌, find_by, find, upsert, false≢true, eq_iff,
}
use tiny_office.Prelude.Json.{Json}
use tiny_office.Work.Domain.{Timestamp}
use tiny_office.Prelude.Exec.{ok}
use tiny_office.Governance.Domain.{
  PermissionRule, RuntimeConfig, allow, require_approval, State, empty_governance, ContextKind,
  GrantScope,
}
use tiny_office.Governance.Permissions.{
  is_for_employee, is_for_role, is_for_everyone, denial, evaluate_permission,
}
use tiny_office.Governance.Permissions.Precedence.{closest, evaluate_permission-closest}
use tiny_office.Governance.Policies.{AdminEmployee, stored_policies, admin_policies, evaluate}
use tiny_office.Governance.Policies.Stored.{ensure_all, evaluate-forgets}
use tiny_office.Governance.Policies.Admin.{answer, enabled_employee, evaluate-denies}
use tiny_office.Governance.Approvals.{
  ApprovalEnvironment, CreateApprovalInput, ResolveInput, approve, reject, approval_id,
  resolved_approval, granted, consume_one_time_grant, new_approval, resolve_approval,
  create_approval, is_pending_in_context, is_pending_of_member,
  cancel_pending_approvals_for_context, cancel_pending_approvals_for_member,
}
use tiny_office.Governance.Requests.{
  ToolCall, let_through, is_access_grant_matching_request, decide_access_tool_call,
}
use tiny_office.Governance.Requests.Allowed.{IsApproved, decide_access_tool_call-IsApproved}
use tiny_office.Governance.Requests.Waiting.{IsWaiting, decide_access_tool_call-IsWaiting}
use tiny_office.Governance.Approvals.Calls.{
  Call, create, resolve, consume, state_after, Reachable, start, step, IsFresh,
}
use tiny_office.Governance.Approvals.Canceling.{cancel_where, cancel_pending_approvals-cancel_where}
use tiny_office.Governance.Approvals.Spending.{consumptions, consumptions-AtMostOnce}
use tiny_office.Governance.Approvals.Backing.{IsSound}
use tiny_office.Governance.Approvals.Soundness.{Reachable-IsSound}
use tiny_office.Governance.Approvals.Outcomes.{resolve_approval-outcome}

abbrev ann : RuntimeConfig
ann = record { employee_id = "ann"; role = "engineer" }

abbrev role_rule : PermissionRule
role_rule = record {
  employee_id = none;
  role = some "engineer";
  action_name = "deploy";
  decision = require_approval;
  reason = none;
}

abbrev own_rule : PermissionRule
own_rule = record {
  employee_id = some "ann";
  role = none;
  action_name = "deploy";
  decision = allow;
  reason = none;
}

-- The employee's own rule wins over an earlier one for the role.
own_rule-wins : evaluate_permission (role_rule ∷ own_rule ∷ []) ann "deploy" ≡ own_rule
unfolding evaluate_permission find
own_rule-wins = refl

evaluate_permission-closest_example :
    evaluate_permission (role_rule ∷ own_rule ∷ []) ann "deploy"
    ≡ closest
        (is_for_employee ann "deploy")
        (is_for_role ann "deploy")
        (is_for_everyone "deploy")
        3
        (denial "deploy")
        (role_rule ∷ own_rule ∷ [])
evaluate_permission-closest_example =
    evaluate_permission-closest (role_rule ∷ own_rule ∷ []) ann "deploy"

-- The number of rules, in place of the text of their JSON.
abbrev stringify : List PermissionRule → String
stringify [] = "[]"
stringify (r ∷ rules) = r.action_name

-- Ann's own rule was ensured, and no longer counts.
evaluate-forgets_example :
    evaluate stringify stored_policies 2 ann "deploy" [] (
      ensure_all stringify
        (record { now = 1; employee_id = "ann"; role = "engineer"; rules = own_rule ∷ [] } ∷ [])
        empty_governance)
    ≡ (ok (evaluate_permission [] ann "deploy"), empty_governance)
evaluate-forgets_example =
    evaluate-forgets stringify
      (record { now = 1; employee_id = "ann"; role = "engineer"; rules = own_rule ∷ [] } ∷ []) 2 ann
      "deploy" [] empty_governance

abbrev staff : List AdminEmployee
staff = record { employee_id = "ann"; enabled = none; role = "engineer" } ∷ []

evaluate-denies_example :
    evaluate stringify (admin_policies 1) 1 ann "deploy" (own_rule ∷ []) staff
    ≡ (answer ann "deploy" (enabled_employee "ann" staff), staff)
evaluate-denies_example = evaluate-denies stringify 1 ann "deploy" (own_rule ∷ []) staff

abbrev drawing : Timestamp → String → ApprovalEnvironment
drawing now id = record { now = now; random_uuid = id }

abbrev request : CreateApprovalInput
request = record {
  context_kind = ContextKind.channel_topic;
  context_id = "topic";
  session_key = "ann:topic";
  requested_by_member_id = "ann";
  requested_approver_member_id = none;
  requested_action = "deploy";
  requested_resource = none;
  requested_input_snapshot = Json.null;
  reason = "release";
}

abbrev once : ResolveInput
once = record {
  resolved_by_member_id = some "boss";
  decision_note = none;
  grant_scope = some GrantScope.one_time;
}

abbrev requested : State
requested = record {
  approvals = new_approval (drawing 1 "a1") request ∷ [];
  approval_grants = [];
  employee_policies = [];
}

abbrev decided : State
decided = record requested {
  approvals =
      resolved_approval (drawing 2 "g1") approve once (new_approval (drawing 1 "a1") request) ∷ [];
  approval_grants = granted (drawing 2 "g1") once (new_approval (drawing 1 "a1") request) ∷ [];
}

abbrev attempts : List (ApprovalEnvironment × Call)
attempts = (drawing 3 "x", consume "g1" 3) ∷ (drawing 4 "x", consume "g1" 4) ∷ []

consumed_once : consumptions "g1" attempts decided ≡ 1
unfolding consumptions consume_one_time_grant state_after find_by upsert
consumed_once = refl

abbrev grant_text : String
grant_text = "g1"

x-is_other : ◌≢◌ {A = String} "x" grant_text
x-is_other e = false≢true ((eq_iff "x" "g1").1 e)

consumptions-AtMostOnce_example : consumptions "g1" attempts decided ≤ 1
consumptions-AtMostOnce_example =
    consumptions-AtMostOnce "g1" attempts decided (tt, tt) (x-is_other, (x-is_other, tt))

found :
    find_by approval_id "a1" decided.approvals
    ≡ some (resolved_approval (drawing 2 "g1") approve once (new_approval (drawing 1 "a1") request))
unfolding find_by
found = refl

-- A rejection after the approval: the grant stays.
resolve_approval-outcome_example :
    let old =
      resolved_approval (drawing 2 "g1") approve once (new_approval (drawing 1 "a1") request) in
    let updated = resolved_approval (drawing 5 "g2") reject once old in
    let r = resolve_approval (drawing 5 "g2") "a1" reject once decided in
    (r.0 ≡ some record { approval = updated; grant = none })
    × (find_by approval_id "a1" r.1.approvals ≡ some updated)
    × (r.1.approval_grants ≡ decided.approval_grants)
resolve_approval-outcome_example =
    resolve_approval-outcome (drawing 5 "g2") "a1" reject once
      (resolved_approval (drawing 2 "g1") approve once (new_approval (drawing 1 "a1") request))
      decided found

cancel_pending_approvals-cancel_where_example :
    (cancel_pending_approvals_for_context
        (drawing 2 "")
        ContextKind.channel_topic
        "topic"
        "stop"
        requested
      ≡ cancel_where 2 "stop" (is_pending_in_context ContextKind.channel_topic "topic") requested)
    × (cancel_pending_approvals_for_member (drawing 2 "") "ann" "stop" requested
        ≡ cancel_where 2 "stop" (is_pending_of_member "ann") requested)
cancel_pending_approvals-cancel_where_example =
    cancel_pending_approvals-cancel_where (drawing 2 "") "stop" requested ContextKind.channel_topic
      "topic" "ann" (tt, tt)

a1-is_other : ◌≢◌ {A = String} "a1" grant_text
a1-is_other e = false≢true ((eq_iff "a1" "g1").1 e)

granted-IsFresh :
    IsFresh (drawing 2 "g1") (state_after (drawing 1 "a1") (create request) empty_governance)
unfolding state_after create_approval upsert
granted-IsFresh = ((a1-is_other, tt), tt)

granted-Reachable : Reachable (
    state_after
      (drawing 2 "g1")
      (resolve "a1" approve once)
      (state_after (drawing 1 "a1") (create request) empty_governance))
granted-Reachable =
    step (drawing 2 "g1") (resolve "a1" approve once)
      (step (drawing 1 "a1") (create request) start (tt, tt)) granted-IsFresh

Reachable-IsSound_example : IsSound (
    state_after
      (drawing 2 "g1")
      (resolve "a1" approve once)
      (state_after (drawing 1 "a1") (create request) empty_governance))
Reachable-IsSound_example = Reachable-IsSound _ granted-Reachable

abbrev deploy : ToolCall
deploy = record {
  context_kind = ContextKind.channel_topic;
  context_id = "topic";
  session_key = "ann:topic";
  member_id = "ann";
  action = "deploy";
  resource = none;
  requested_input_snapshot = Json.null;
  reason = "release";
}

no_grants : find (is_access_grant_matching_request deploy) requested.approval_grants ≡ none
unfolding find
no_grants = refl

decide_access_tool_call-IsWaiting_example :
    IsWaiting (drawing 2 "g1") (drawing 3 "g2") deploy requested
decide_access_tool_call-IsWaiting_example =
    decide_access_tool_call-IsWaiting (drawing 2 "g1") (drawing 3 "g2") deploy requested no_grants
      (a1-is_other, tt)

granted_call :
    (decide_access_tool_call (drawing 3 "g2") deploy (
      state_after
        (drawing 2 "g1")
        (resolve "a1" approve once)
        (state_after (drawing 1 "a1") (create request) empty_governance))).0
    ≡ let_through
unfolding decide_access_tool_call is_access_grant_matching_request state_after create_approval
    resolve_approval find find_by upsert
granted_call = refl

decide_access_tool_call-IsApproved_example : IsApproved deploy (
    state_after
      (drawing 2 "g1")
      (resolve "a1" approve once)
      (state_after (drawing 1 "a1") (create request) empty_governance))
decide_access_tool_call-IsApproved_example =
    decide_access_tool_call-IsApproved (drawing 3 "g2") deploy _ granted-Reachable granted_call
