-- ===== src/Governance/Approvals/Backing.antt =====
-- The invariant of ApprovalService: the stored grants belong to stored approvals that were decided.
use tiny_office.Prelude.{
  String, ◌≡◌, ◌≢◌, refl, sym, ap, subst, ◌∙◌, Bool, true, false, not, false≢true, some, List, map,
  inl, inr, find_by, upsert, is_some, All, All-upsert, All-map, All-find_by, find_by-upsert,
  find_by-key, HasDistinctIds, upsert-HasDistinctIds, Bool-cases, ◌==◌, eq_iff,
}
use mathlib.Core.Option
use mathlib.Core.Option.{some-injective}
use tiny_office.Prelude.Saves.{
  change_where, change_where-key, All-mapped, map-HasDistinctIds, find_by-map,
}
use tiny_office.Work.Domain.{Timestamp}
use tiny_office.Governance.Domain.{Approval, Grant, State, is_undecided}
use tiny_office.Governance.Approvals.{
  approval_id, grant_id, save_approval, save_grant, canceled_approval,
}
use tiny_office.Governance.Approvals.Canceling.{cancel_where}

-- The grant carries out the request of the approval, which is decided.
pub record Backs (a : Approval) (g : Grant) : Type 0 where
  pub member : a.requested_by_member_id ≡ g.member_id
  pub action : a.requested_action ≡ g.action
  pub resource : a.requested_resource ≡ g.resource
  pub context_kind : a.context_kind ≡ g.context_kind
  pub context_id : a.context_id ≡ g.context_id
  pub decided : is_undecided a.status ≡ false

pub record IsBacked (approvals : List Approval) (g : Grant) : Type 0 where
  pub approval : Approval
  pub stored : find_by approval_id g.approval_id approvals ≡ some approval
  pub backs : Backs approval g

-- An approval has a time of decision exactly when it is not pending.
abbrev pub IsDated : Approval → Type 0
IsDated a = is_some a.resolved_at ≡ not (is_undecided a.status)

pub record IsSound (s : State) : Type 0 where
  pub distinct_approvals : HasDistinctIds approval_id s.approvals
  pub dated : All IsDated s.approvals
  pub backed : All (IsBacked s.approvals) s.approval_grants

-- A new approval, under an id that no stored one has.
pub add-IsBacked :
    (a : Approval) (approvals : List Approval) (g : Grant)
    → All (λ x. x.id ≢ a.id) approvals
    → IsBacked approvals g
    → IsBacked (upsert approval_id a approvals) g
add-IsBacked a approvals g fresh b = elim (Bool-cases (a.id == g.approval_id)) [
  | inl t ↦ absurd (
      All-find_by approval_id (λ x. x.id ≢ a.id) g.approval_id approvals b.approval fresh b.stored
        (find_by-key approval_id g.approval_id approvals b.approval b.stored
          ∙ sym ((eq_iff a.id g.approval_id).0 t)))
  | inr f ↦ record {
    approval = b.approval;
    stored = rw (find_by-upsert approval_id g.approval_id a approvals, f) b.stored;
    backs = b.backs;
  }
]

-- A stored approval, replaced by one that backs the same grants.
pub replace-IsBacked :
    (old new : Approval) (approvals : List Approval) (g : Grant)
    → find_by approval_id new.id approvals ≡ some old
    → (Backs old g → Backs new g)
    → IsBacked approvals g
    → IsBacked (upsert approval_id new approvals) g
replace-IsBacked old new approvals g e k b = elim (Bool-cases (new.id == g.approval_id)) [
  | inl t ↦ record {
    approval = new;
    stored = rw (find_by-upsert approval_id g.approval_id new approvals, t) refl;
    backs = k (
        subst (λ a. Backs a g)
          (some-injective b.approval old (
            sym b.stored
            ∙ sym (ap (λ i. find_by approval_id i approvals) ((eq_iff new.id g.approval_id).0 t))
            ∙ e))
          b.backs);
  }
  | inr f ↦ record {
    approval = b.approval;
    stored = rw (find_by-upsert approval_id g.approval_id new approvals, f) b.stored;
    backs = b.backs;
  }
]

-- Pending approvals, canceled in one pass.
module _ (timestamp : Timestamp) (reason : String) (p : Approval → Bool) where
  abbrev cancel : Approval → Approval
  cancel = change_where p (canceled_approval timestamp reason)

  cancel-IsDated : (a : Approval) → IsDated a → IsDated (cancel a)
  cancel-IsDated a h = elim (Bool-cases (p a)) [ inl t ↦ rw t refl | inr f ↦ rw f h ]

  module _ (only : (a : Approval) → p a ≡ true → is_undecided a.status ≡ true) where
    cancel-Backs : (a : Approval) (g : Grant) → Backs a g → Backs (cancel a) g
    cancel-Backs a g b = elim (Bool-cases (p a)) [
      | inl t ↦ absurd (false≢true (sym b.decided ∙ only a t))
      | inr f ↦ rw f b
    ]

    cancel-id : (a : Approval) → (cancel a).id ≡ a.id
    cancel-id = change_where-key approval_id p (canceled_approval timestamp reason) (λ a. refl)

    cancel-IsBacked :
        (approvals : List Approval) (g : Grant)
        → IsBacked approvals g
        → IsBacked (map cancel approvals) g
    cancel-IsBacked approvals g b = record {
      approval = cancel b.approval;
      stored =
          find_by-map approval_id cancel g.approval_id approvals cancel-id
          ∙ ap (Option.map cancel) b.stored;
      backs = cancel-Backs b.approval g b.backs;
    }

    pub cancel_where-IsSound :
        (s : State) → IsSound s → IsSound (cancel_where timestamp reason p s).1
    cancel_where-IsSound s h = record {
      distinct_approvals =
          map-HasDistinctIds approval_id cancel s.approvals cancel-id h.distinct_approvals;
      dated = All-mapped approval_id IsDated IsDated cancel s.approvals cancel-IsDated h.dated;
      backed = All-map _ _ s.approval_grants (cancel-IsBacked s.approvals) h.backed;
    }

-- A decided approval, saved in place of the stored one with its id.
pub decide-IsSound :
    (old new : Approval) (s : State)
    → find_by approval_id new.id s.approvals ≡ some old
    → IsDated new
    → ((g : Grant) → Backs old g → Backs new g)
    → IsSound s
    → IsSound (save_approval new s)
decide-IsSound old new s e d k h = record {
  distinct_approvals = upsert-HasDistinctIds approval_id new s.approvals h.distinct_approvals;
  dated = All-upsert approval_id IsDated new s.approvals h.dated d;
  backed =
      All-map _ _ s.approval_grants (λ g. replace-IsBacked old new s.approvals g e (k g)) h.backed;
}

pub save_grant-IsSound :
    (g : Grant) (s : State) → IsBacked s.approvals g → IsSound s → IsSound (save_grant g s)
save_grant-IsSound g s b h = record {
  distinct_approvals = h.distinct_approvals;
  dated = h.dated;
  backed = All-upsert grant_id (IsBacked s.approvals) g s.approval_grants h.backed b;
}
