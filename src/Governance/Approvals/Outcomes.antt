-- ===== src/Governance/Approvals/Outcomes.antt =====
-- What ApprovalService.resolveApproval (src/governance/services/company-governance-services.ts) leaves.
use tiny_office.Prelude.{
  String, ◌≡◌, refl, ap, ◌∙◌, Option, none, some, List, find_by, upsert, find_by-key,
  find_by-upsert_same,
}
use tiny_office.Governance.Domain.{Approval, Grant, State}
use tiny_office.Governance.Approvals.{
  ApprovalEnvironment, Resolution, approve, reject, ResolveInput, approval_id, grant_id,
  save_approval, resolved_approval, granted, resolve_found, resolve_approval,
}

-- The grant that a resolution gives, if any.
abbrev pub grant_of : ApprovalEnvironment → Resolution → ResolveInput → Approval → Option Grant
grant_of env approve input a = some (granted env input a)
grant_of env reject input a = none

-- The grants afterwards.
abbrev pub grants_after :
    ApprovalEnvironment → Resolution → ResolveInput → Approval → List Grant → List Grant
grants_after env approve input a grants = upsert grant_id (granted env input a) grants
grants_after env reject input a grants = grants

found-outcome :
    (env : ApprovalEnvironment) (resolution : Resolution) (input : ResolveInput) (a : Approval)
    (s : State)
    → let updated = resolved_approval env resolution input a in
      resolve_found env resolution input (some a) s ≡ (
        some record { approval = updated; grant = grant_of env resolution input updated },
        record (save_approval updated s) {
          approval_grants = grants_after env resolution input updated s.approval_grants;
        },
      )
found-outcome env approve input a s = refl
found-outcome env reject input a s = refl

-- Resolving a stored approval, whatever its status, returns it decided and stores it under its id; an
-- approval gives a grant for its request, which is stored, and a rejection leaves every grant as it is,
-- also one that an earlier approval of the same request gave.
pub resolve_approval-outcome :
    (env : ApprovalEnvironment) (id : String) (resolution : Resolution) (input : ResolveInput)
    (a : Approval) (s : State)
    → find_by approval_id id s.approvals ≡ some a
    → let updated = resolved_approval env resolution input a in
      let r = resolve_approval env id resolution input s in
      (r.0 ≡ some record { approval = updated; grant = grant_of env resolution input updated })
      × (find_by approval_id id r.1.approvals ≡ some updated)
      × (r.1.approval_grants ≡ grants_after env resolution input updated s.approval_grants)
unfolding resolve_approval
resolve_approval-outcome env id resolution input a s e =
    let updated = resolved_approval env resolution input a in
    let run =
      ap (λ o. resolve_found env resolution input o s) e ∙ found-outcome env resolution input a s in
    (
      ap (λ r. r.0) run,
      ap (λ r. find_by approval_id id r.1.approvals) run
          ∙ find_by-upsert_same approval_id id updated s.approvals
              (find_by-key approval_id id s.approvals a e),
      ap (λ r. r.1.approval_grants) run,
    )
