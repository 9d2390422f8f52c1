-- ===== src/Governance/Approvals/Soundness.antt =====
-- The invariant of ApprovalService (src/governance/services/company-governance-services.ts) over its
-- calls.
use tiny_office.Prelude.{
  String, ◌≡◌, ◌≢◌, refl, sym, ap, subst, ◌∙◌, Bool, true, false, Option, none, some, inl, inr,
  find_by, ◌==◌, ◌&&◌, All, All-upsert, All-map, All-filter, All-find_by, find_by-key,
  find_by-upsert_same, upsert-HasDistinctIds, Bool-cases, arith,
}
use tiny_office.Work.Domain.{Timestamp}
use tiny_office.Governance.Domain.{
  Approval, Grant, State, ContextKind, is_undecided, same_context_kind,
}
use tiny_office.Governance.Approvals.{
  ApprovalEnvironment, CreateApprovalInput, Resolution, approve, reject, ResolveInput, approval_id,
  grant_id, save_approval, is_usable, consumed_grant, use_grant, consume_one_time_grant,
  is_of_other_member, revoke_grants_for_member, new_approval, create_approval, resolved_approval,
  granted, resolve_found, resolve_approval, is_pending_in_context, is_pending_of_member,
}
use tiny_office.Governance.Approvals.Calls.{
  Call, create, resolve, consume, cancel_context, cancel_member, revoke, state_after, Reachable,
  start, step, IsFresh,
}
use tiny_office.Governance.Approvals.Canceling.{cancel_pending_approvals-cancel_where}
use tiny_office.Governance.Approvals.Backing.{
  IsSound, IsBacked, Backs, IsDated, add-IsBacked, decide-IsSound, save_grant-IsSound,
  cancel_where-IsSound,
}

create-IsSound :
    (env : ApprovalEnvironment) (input : CreateApprovalInput) (s : State)
    → All (λ a. a.id ≢ env.random_uuid) s.approvals
    → IsSound s
    → IsSound (create_approval env input s).1
unfolding create_approval
create-IsSound env input s fresh h = record {
  distinct_approvals =
      upsert-HasDistinctIds approval_id (new_approval env input) s.approvals h.distinct_approvals;
  dated = All-upsert approval_id IsDated (new_approval env input) s.approvals h.dated refl;
  backed =
      All-map (IsBacked s.approvals) _ s.approval_grants
        (λ g. add-IsBacked (new_approval env input) s.approvals g fresh) h.backed;
}

resolved-decided :
    (env : ApprovalEnvironment) (resolution : Resolution) (input : ResolveInput) (a : Approval)
    → is_undecided (resolved_approval env resolution input a).status ≡ false
resolved-decided env approve input a = refl
resolved-decided env reject input a = refl

resolved-Backs :
    (env : ApprovalEnvironment) (resolution : Resolution) (input : ResolveInput) (a : Approval)
    (g : Grant)
    → Backs a g
    → Backs (resolved_approval env resolution input a) g
resolved-Backs env resolution input a g b = record {
  member = b.member;
  action = b.action;
  resource = b.resource;
  context_kind = b.context_kind;
  context_id = b.context_id;
  decided = resolved-decided env resolution input a;
}

granted-IsBacked :
    (env : ApprovalEnvironment) (input : ResolveInput) (a : Approval) (s : State)
    → is_undecided a.status ≡ false
    → IsBacked (save_approval a s).approvals (granted env input a)
granted-IsBacked env input a s d = record {
  approval = a;
  stored = find_by-upsert_same approval_id a.id a s.approvals refl;
  backs = record {
    member = refl;
    action = refl;
    resource = refl;
    context_kind = refl;
    context_id = refl;
    decided = d;
  };
}

found-IsSound :
    (env : ApprovalEnvironment) (resolution : Resolution) (input : ResolveInput)
    (o : Option Approval) (s : State)
    → ((a : Approval) → o ≡ some a → find_by approval_id a.id s.approvals ≡ some a)
    → IsSound s
    → IsSound (resolve_found env resolution input o s).1
found-IsSound env resolution input none s k h = h
found-IsSound env reject input (some a) s k h =
    decide-IsSound a (resolved_approval env reject input a) s (k a refl) refl
      (resolved-Backs env reject input a) h
found-IsSound env approve input (some a) s k h =
    save_grant-IsSound _ _
      (granted-IsBacked env input (resolved_approval env approve input a) s refl)
      (decide-IsSound a (resolved_approval env approve input a) s (k a refl) refl
        (resolved-Backs env approve input a) h)

consumed-IsBacked :
    (t : Timestamp) (g : Grant) (s : State)
    → IsBacked s.approvals g
    → IsBacked s.approvals (consumed_grant t g)
consumed-IsBacked t g s b = record {
  approval = b.approval;
  stored = b.stored;
  backs = record {
    member = b.backs.member;
    action = b.backs.action;
    resource = b.backs.resource;
    context_kind = b.backs.context_kind;
    context_id = b.backs.context_id;
    decided = b.backs.decided;
  };
}

used-IsSound :
    (t : Timestamp) (o : Option Grant) (s : State)
    → ((g : Grant) → o ≡ some g → IsBacked s.approvals g)
    → IsSound s
    → IsSound (use_grant t o s).1
used-IsSound t none s k h = h
used-IsSound t (some g) s k h = elim (Bool-cases (is_usable g)) [
  | inl u ↦ rw u (save_grant-IsSound (consumed_grant t g) s (consumed-IsBacked t g s (k g refl)) h)
  | inr f ↦ rw f h
]

first_of : (a b c : Bool) → a && b && c ≡ true → a ≡ true
first_of a b c e = ground arith

context-IsPending :
    (kind : ContextKind) (id : String) (a : Approval)
    → is_pending_in_context kind id a ≡ true
    → is_undecided a.status ≡ true
context-IsPending kind id a e =
    first_of (is_undecided a.status) (same_context_kind a.context_kind kind) (a.context_id == id) e

first_of2 : (a b : Bool) → a && b ≡ true → a ≡ true
first_of2 a b e = ground arith

member-IsPending :
    (member_id : String) (a : Approval)
    → is_pending_of_member member_id a ≡ true
    → is_undecided a.status ≡ true
member-IsPending member_id a e =
    first_of2 (is_undecided a.status) (a.requested_by_member_id == member_id) e

state_after-IsSound :
    (env : ApprovalEnvironment) (call : Call) (s : State)
    → IsFresh env s
    → IsSound s
    → IsSound (state_after env call s)
unfolding state_after create_approval resolve_approval consume_one_time_grant
    revoke_grants_for_member
state_after-IsSound env (create input) s (fresh, _) h = create-IsSound env input s fresh h
state_after-IsSound env (resolve id resolution input) s _ h =
    found-IsSound env resolution input (find_by approval_id id s.approvals) s
      (λ a e.
        ap (λ i. find_by approval_id i s.approvals) (find_by-key approval_id id s.approvals a e)
        ∙ e)
      h
state_after-IsSound env (consume id t) s _ h =
    used-IsSound t (find_by grant_id id s.approval_grants) s
      (λ g e. All-find_by grant_id (IsBacked s.approvals) id s.approval_grants g h.backed e) h
state_after-IsSound env (cancel_context kind id reason) s _ h =
    subst (λ r. IsSound r.1)
      (sym (cancel_pending_approvals-cancel_where env reason s kind id "" h.distinct_approvals).0)
      (cancel_where-IsSound env.now reason (is_pending_in_context kind id)
        (context-IsPending kind id) s h)
state_after-IsSound env (cancel_member member_id reason) s _ h =
    subst (λ r. IsSound r.1)
      (sym
        (cancel_pending_approvals-cancel_where env reason s ContextKind.dm_thread "" member_id
          h.distinct_approvals).1)
      (cancel_where-IsSound env.now reason (is_pending_of_member member_id)
        (member-IsPending member_id) s h)
state_after-IsSound env (revoke member_id) s _ h = record {
  distinct_approvals = h.distinct_approvals;
  dated = h.dated;
  backed =
      All-filter (IsBacked s.approvals) (is_of_other_member member_id) s.approval_grants h.backed;
}

-- In every state that calls with fresh ids reach from the empty store, approval ids are distinct, an
-- approval has a time of decision exactly when it is not pending, and every stored grant names a
-- stored approval that is decided and asked for the grant's member, action, resource and context.
pub Reachable-IsSound : (s : State) → Reachable s → IsSound s
Reachable-IsSound _ start = record { distinct_approvals = tt; dated = tt; backed = tt }
Reachable-IsSound s' (step {s} env call r fresh) =
    state_after-IsSound env call s fresh (Reachable-IsSound s r)
