-- ===== src/Governance/Requests/Waiting.antt =====
-- Tool calls that wait for an approval (AccessRequestService.decideAccessToolCall of
-- src/runtime/company-config/access-request-service.ts).
use tiny_office.Prelude.{
  String, ◌≡◌, ◌≢◌, refl, Bool, true, Option, none, some, List, [], ◌∷◌, inl, inr, eq_iff, find,
  filter, upsert, All, Option-cases, arith,
}
use tiny_office.Governance.Domain.{
  Approval, ContextKind, dm_thread, channel_topic, intake_event, State, is_undecided,
  same_context_kind,
}
use tiny_office.Governance.Approvals.{
  ApprovalEnvironment, approval_id, new_approval, create_approval,
}
use tiny_office.Governance.Requests.{
  ToolCall, same_text, is_access_grant_matching_request, is_same_request, request_of, block,
  pending_request, decide_access_tool_call,
}

same_text_self : (o : Option String) → same_text o o ≡ true
same_text_self none = refl
same_text_self (some a) = (eq_iff a a).1 refl

same_context_kind_self : (k : ContextKind) → same_context_kind k k ≡ true
same_context_kind_self dm_thread = refl
same_context_kind_self channel_topic = refl
same_context_kind_self ContextKind.work_run = refl
same_context_kind_self intake_event = refl

request-same :
    (env : ApprovalEnvironment) (call : ToolCall)
    → is_same_request call (new_approval env (request_of call)) ≡ true
unfolding is_same_request
request-same env call =
    rw
      (
        same_context_kind_self call.context_kind,
        (eq_iff call.context_id call.context_id).1 refl,
        (eq_iff call.session_key call.session_key).1 refl,
        (eq_iff call.member_id call.member_id).1 refl,
        (eq_iff call.action call.action).1 refl,
        same_text_self call.resource,
      )
      refl

-- A record that is added under a new id is found if no other passes the tests.
find-added :
    (p q : Approval → Bool) (a : Approval) (xs : List Approval)
    → p a ≡ true
    → q a ≡ true
    → All (λ x. x.id ≢ a.id) xs
    → find p (filter q xs) ≡ none
    → find p (filter q (upsert approval_id a xs)) ≡ some a
unfolding find filter upsert
find-added p q a [] hp hq n e = rw (hq, hp) refl
find-added p q a (x ∷ xs) hp hq (n, h) e =
    ground (arith, eq_iff x.id a.id, find-added p q a xs hp hq h)

-- What a call does in a state without a grant for it and with this pending request.
waiting-call :
    (env : ApprovalEnvironment) (call : ToolCall) (a : Approval) (s : State)
    → find (is_access_grant_matching_request call) s.approval_grants ≡ none
    → pending_request call s ≡ some a
    → decide_access_tool_call env call s ≡ (block a, s)
unfolding decide_access_tool_call
waiting-call env call a s g p = rw (g, p) refl

new-call :
    (env : ApprovalEnvironment) (call : ToolCall) (s : State)
    → find (is_access_grant_matching_request call) s.approval_grants ≡ none
    → pending_request call s ≡ none
    → decide_access_tool_call env call s
      ≡ (block (new_approval env (request_of call)), (create_approval env (request_of call) s).1)
unfolding decide_access_tool_call create_approval
new-call env call s g p = rw (g, p) refl

-- A call that is blocked, and blocked again on the same request, which changes nothing.
pub record IsWaiting (env later : ApprovalEnvironment) (call : ToolCall) (s : State) : Type 0 where
  pub request : Approval
  pub state : State
  pub first : decide_access_tool_call env call s ≡ (block request, state)
  pub second : decide_access_tool_call later call state ≡ (block request, state)

-- A tool call without a matching grant, at a time when the id drawn is new, is blocked on a request,
-- and when it is made again, it is blocked on the same request and changes nothing.
pub decide_access_tool_call-IsWaiting :
    (env later : ApprovalEnvironment) (call : ToolCall) (s : State)
    → find (is_access_grant_matching_request call) s.approval_grants ≡ none
    → All (λ a. a.id ≢ env.random_uuid) s.approvals
    → IsWaiting env later call s
unfolding create_approval
decide_access_tool_call-IsWaiting env later call s g fresh =
    elim (Option-cases (pending_request call s)) [
      | inl n ↦ record {
        request = new_approval env (request_of call);
        state = (create_approval env (request_of call) s).1;
        first = new-call env call s g n;
        second = waiting-call later call (new_approval env (request_of call)) _ g (
            find-added (is_same_request call) (λ a. is_undecided a.status)
              (new_approval env (request_of call)) s.approvals (request-same env call) refl fresh
              n);
      }
      | inr (a, p) ↦ record {
        request = a;
        state = s;
        first = waiting-call env call a s g p;
        second = waiting-call later call a s g p;
      }
    ]
