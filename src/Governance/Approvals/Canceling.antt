-- ===== src/Governance/Approvals/Canceling.antt =====
-- The loops that cancel pending approvals (ApprovalService.cancelPendingApprovalsForContext and
-- cancelPendingApprovalsForMember) against one pass over the stored approvals.
use tiny_office.Prelude.{
  String, ◌≡◌, refl, ap, ◌∙◌, Bool, List, [], ◌∷◌, map, filter, HasDistinctIds,
}
use tiny_office.Prelude.Saves.{save_all, save_all-map, change_where}
use tiny_office.Work.Domain.{Timestamp}
use tiny_office.Governance.Domain.{Approval, State, ContextKind}
use tiny_office.Governance.Approvals.{
  ApprovalEnvironment, approval_id, canceled_approval, cancel_each, is_pending_in_context,
  is_pending_of_member, cancel_pending_approvals_for_context, cancel_pending_approvals_for_member,
}

abbrev pub with_approvals : List Approval → State → State
with_approvals approvals s = record s { approvals = approvals }

pub cancel_each-save_all :
    (timestamp : Timestamp) (reason : String) (todo : List Approval) (s : State)
    → cancel_each timestamp reason todo s ≡ (
      map (canceled_approval timestamp reason) todo,
      with_approvals
          (save_all approval_id (map (canceled_approval timestamp reason) todo) s.approvals)
          s,
    )
unfolding cancel_each
cancel_each-save_all timestamp reason [] s = refl
cancel_each-save_all timestamp reason (a ∷ todo) s =
    rw (cancel_each-save_all timestamp reason todo _) refl

-- Cancel the approvals that pass a test, all at once.
abbrev pub cancel_where : Timestamp → String → (Approval → Bool) → State → List Approval × State
cancel_where timestamp reason p s = (
  map (canceled_approval timestamp reason) (filter p s.approvals),
  with_approvals (map (change_where p (canceled_approval timestamp reason)) s.approvals) s,
)

cancel_each-cancel_where :
    (timestamp : Timestamp) (reason : String) (p : Approval → Bool) (s : State)
    → HasDistinctIds approval_id s.approvals
    → cancel_each timestamp reason (filter p s.approvals) s ≡ cancel_where timestamp reason p s
cancel_each-cancel_where timestamp reason p s h =
    cancel_each-save_all timestamp reason (filter p s.approvals) s
    ∙ ap
        (λ xs.
          (map (canceled_approval timestamp reason) (filter p s.approvals), with_approvals xs s))
        (save_all-map approval_id p (canceled_approval timestamp reason) (λ a. refl) s.approvals h)

-- With distinct ids, the loops that cancel the pending approvals of a context or of a member return
-- those approvals, canceled, and store the list with exactly them canceled, in place.
pub cancel_pending_approvals-cancel_where :
    (env : ApprovalEnvironment) (reason : String) (s : State) (kind : ContextKind)
    (id member_id : String)
    → HasDistinctIds approval_id s.approvals
    → (cancel_pending_approvals_for_context env kind id reason s
        ≡ cancel_where env.now reason (is_pending_in_context kind id) s)
      × (cancel_pending_approvals_for_member env member_id reason s
          ≡ cancel_where env.now reason (is_pending_of_member member_id) s)
unfolding cancel_pending_approvals_for_context cancel_pending_approvals_for_member
cancel_pending_approvals-cancel_where env reason s kind id member_id h = (
  cancel_each-cancel_where env.now reason (is_pending_in_context kind id) s h,
  cancel_each-cancel_where env.now reason (is_pending_of_member member_id) s h,
)
