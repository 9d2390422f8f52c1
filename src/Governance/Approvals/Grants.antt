-- ===== src/Governance/Approvals/Grants.antt =====
-- What the calls of ApprovalService do to the stored grants.
use tiny_office.Prelude.{
  String, ◌≡◌, refl, sym, subst, Option, none, some, List, inl, inr, filter, find_by, upsert,
  HasDistinctIds, upsert-HasDistinctIds, Bool-cases,
}
use tiny_office.Prelude.Saves.{filter-HasDistinctIds}
use tiny_office.Work.Domain.{Timestamp}
use tiny_office.Governance.Domain.{Approval, Grant, State}
use tiny_office.Governance.Approvals.{
  ApprovalEnvironment, grant_id, is_usable, consumed_grant, use_grant, consume_one_time_grant,
  create_approval, resolve_approval, revoke_grants_for_member, is_of_other_member,
  cancel_pending_approvals_for_context, cancel_pending_approvals_for_member, Resolution, approve,
  reject, ResolveInput, resolve_found, is_pending_in_context, is_pending_of_member,
}
use tiny_office.Governance.Approvals.Calls.{
  Call, create, resolve, consume, cancel_context, cancel_member, revoke, state_after,
}
use tiny_office.Governance.Approvals.Canceling.{cancel_each-save_all}

-- The ways in which a call changes the list of grants.
module _ (P : List Grant → Type 0) (env : ApprovalEnvironment) (s : State) where
  resolved-grants :
      (resolution : Resolution) (input : ResolveInput) (o : Option Approval)
      → P s.approval_grants
      → ((g : Grant) → g.id ≡ env.random_uuid → P (upsert grant_id g s.approval_grants))
      → P (resolve_found env resolution input o s).1.approval_grants
  resolved-grants resolution input none h put = h
  resolved-grants reject input (some a) h put = h
  resolved-grants approve input (some a) h put = put _ refl

  used-grants :
      (consumed_at : Timestamp) (id : String) (o : Option Grant)
      → find_by grant_id id s.approval_grants ≡ o
      → P s.approval_grants
      → ((g : Grant)
          → find_by grant_id id s.approval_grants ≡ some g
          → P (upsert grant_id (consumed_grant consumed_at g) s.approval_grants))
      → P (use_grant consumed_at o s).1.approval_grants
  used-grants consumed_at id none e h spend = h
  used-grants consumed_at id (some g) e h spend = elim (Bool-cases (is_usable g)) [
    | inl t ↦ rw t (spend g e)
    | inr f ↦ rw f h
  ]

  pub state_after-grants :
      (call : Call)
      → P s.approval_grants
      → ((g : Grant) → g.id ≡ env.random_uuid → P (upsert grant_id g s.approval_grants))
      → ((consumed_at : Timestamp) (id : String) (g : Grant)
          → find_by grant_id id s.approval_grants ≡ some g
          → P (upsert grant_id (consumed_grant consumed_at g) s.approval_grants))
      → ((member_id : String) → P (filter (is_of_other_member member_id) s.approval_grants))
      → P (state_after env call s).approval_grants
  unfolding state_after create_approval resolve_approval consume_one_time_grant
      revoke_grants_for_member cancel_pending_approvals_for_context
      cancel_pending_approvals_for_member
  state_after-grants (create input) h put spend keep = h
  state_after-grants (resolve id resolution input) h put spend keep =
      resolved-grants resolution input _ h put
  state_after-grants (consume id consumed_at) h put spend keep =
      used-grants consumed_at id _ refl h (spend consumed_at id)
  state_after-grants (cancel_context kind id reason) h put spend keep =
      subst (λ r. P r.1.approval_grants)
        (sym (
          cancel_each-save_all env.now reason (filter (is_pending_in_context kind id) s.approvals)
            s))
        h
  state_after-grants (cancel_member member_id reason) h put spend keep =
      subst (λ r. P r.1.approval_grants)
        (sym (
          cancel_each-save_all env.now reason (filter (is_pending_of_member member_id) s.approvals)
            s))
        h
  state_after-grants (revoke member_id) h put spend keep = keep member_id

pub state_after-grants-HasDistinctIds :
    (env : ApprovalEnvironment) (call : Call) (s : State)
    → HasDistinctIds grant_id s.approval_grants
    → HasDistinctIds grant_id (state_after env call s).approval_grants
state_after-grants-HasDistinctIds env call s h =
    state_after-grants (HasDistinctIds grant_id) env s call h
      (λ g _. upsert-HasDistinctIds grant_id g s.approval_grants h)
      (λ t id g _. upsert-HasDistinctIds grant_id (consumed_grant t g) s.approval_grants h)
      (λ m. filter-HasDistinctIds grant_id (is_of_other_member m) s.approval_grants h)
