-- ===== src/Governance/Requests/Allowed.antt =====
-- Which tool calls AccessRequestService.decideAccessToolCall
-- (src/runtime/company-config/access-request-service.ts) lets through.
use tiny_office.Prelude.{
  String, ◌≡◌, refl, sym, ap, subst, ◌∙◌, Bool, true, false, false≢true, Option, none, some, ◌&&◌,
  eq_iff, find, find_by, find_by-key, All-find, arith,
}
use tiny_office.Governance.Domain.{Approval, Grant, State, is_undecided, same_context_kind}
use tiny_office.Governance.Approvals.{ApprovalEnvironment, approval_id}
use tiny_office.Governance.Approvals.Backing.{IsBacked}
use tiny_office.Governance.Approvals.Calls.{Reachable}
use tiny_office.Governance.Approvals.Soundness.{Reachable-IsSound}
use tiny_office.Governance.Requests.{
  ToolCall, same_text, is_access_grant_matching_request, ToolCallDecision, let_through, block,
  block_call, pending_request, decide_by, decide_access_tool_call,
}

-- A stored, decided approval of just what the call does.
pub record IsApproved (call : ToolCall) (s : State) : Type 0 where
  pub approval : Approval
  pub stored : find_by approval_id approval.id s.approvals ≡ some approval
  pub decided : is_undecided approval.status ≡ false
  pub member : approval.requested_by_member_id ≡ call.member_id
  pub action : approval.requested_action ≡ call.action
  pub resource : approval.requested_resource ≡ call.resource
  pub context_kind : same_context_kind approval.context_kind call.context_kind ≡ true
  pub context_id : approval.context_id ≡ call.context_id

same_text-equal : (a b : Option String) → same_text a b ≡ true → a ≡ b
same_text-equal none none e = refl
same_text-equal none (some b) e = absurd (false≢true e)
same_text-equal (some a) none e = absurd (false≢true e)
same_text-equal (some a) (some b) e = ap some (sym ((eq_iff b a).0 e))

all_true :
    (a b c d e f : Bool)
    → a && b && c && d && e && f ≡ true
    → (b ≡ true) × (c ≡ true) × (d ≡ true) × (e ≡ true) × (f ≡ true)
all_true a b c d e f k = ground arith

matching-IsApproved :
    (call : ToolCall) (s : State) (g : Grant)
    → IsBacked s.approvals g
    → is_access_grant_matching_request call g ≡ true
    → IsApproved call s
unfolding is_access_grant_matching_request
matching-IsApproved call s g b e =
    let (m, a, r, k, c) = all_true _ _ _ _ _ _ e in
    record {
      approval = b.approval;
      stored =
          subst (λ i. find_by approval_id i s.approvals ≡ some b.approval)
            (sym (find_by-key approval_id g.approval_id s.approvals b.approval b.stored)) b.stored;
      decided = b.backs.decided;
      member = b.backs.member ∙ (eq_iff g.member_id call.member_id).0 m;
      action = b.backs.action ∙ (eq_iff g.action call.action).0 a;
      resource = b.backs.resource ∙ same_text-equal g.resource call.resource r;
      context_kind =
          subst (λ x. same_context_kind x call.context_kind ≡ true) (sym b.backs.context_kind) k;
      context_id = b.backs.context_id ∙ (eq_iff g.context_id call.context_id).0 c;
    }

-- What lets a call through, by the grant that was found.
is_let_through : ToolCallDecision → Bool
is_let_through let_through = true
is_let_through (block a) = false

blocked :
    (env : ApprovalEnvironment) (call : ToolCall) (o : Option Approval) (s : State)
    → is_let_through (block_call env call o s).0 ≡ false
unfolding is_let_through
blocked env call none s = refl
blocked env call (some a) s = refl

found-IsApproved :
    (env : ApprovalEnvironment) (call : ToolCall) (o : Option Grant) (s : State)
    → ((g : Grant) → o ≡ some g → IsApproved call s)
    → (decide_by env call o s).0 ≡ let_through
    → IsApproved call s
unfolding is_let_through
found-IsApproved env call (some g) s k e = k g refl
found-IsApproved env call none s k e =
    absurd (false≢true (sym (blocked env call (pending_request call s) s) ∙ ap is_let_through e))

-- In every state that calls of the approval service with fresh ids reach, a tool call is let through
-- only if a stored approval that is decided asked for its member, action, resource and context.
pub decide_access_tool_call-IsApproved :
    (env : ApprovalEnvironment) (call : ToolCall) (s : State)
    → Reachable s
    → (decide_access_tool_call env call s).0 ≡ let_through
    → IsApproved call s
unfolding decide_access_tool_call
decide_access_tool_call-IsApproved env call s r e =
    found-IsApproved env call (find (is_access_grant_matching_request call) s.approval_grants) s
      (λ g f.
        let (b, m) =
          All-find (IsBacked s.approvals) (is_access_grant_matching_request call) s.approval_grants
            g (Reachable-IsSound s r).backed f in
        matching-IsApproved call s g b m)
      e
