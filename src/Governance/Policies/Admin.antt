-- ===== src/Governance/Policies/Admin.antt =====
-- DurablePermissionService.evaluate (src/governance/services/company-governance-services.ts) over the
-- employees of the admin state, as createDbCompanyGovernanceServices puts them together.
use tiny_office.Prelude.{
  String, ◌≡◌, refl, Option, none, some, List, inl, inr, find_by, filter, Option-cases, find,
}
use tiny_office.Prelude.Exec.{Result, ok, err, pure, throw, gets, choose, ◌>>=◌}
use tiny_office.Work.Domain.{Timestamp}
use tiny_office.Governance.Domain.{PermissionRule, RuntimeConfig}
use tiny_office.Governance.Permissions.{denial, matching_rule, evaluate_permission}
use tiny_office.Governance.Policies.{
  PolicyError, no_enabled_employee, AdminEmployee, admin_employee_id, is_not_disabled,
  admin_policies, ensure_found, ensure_policy, evaluate,
}

-- The first employee with this id among those who are not disabled.
abbrev pub enabled_employee : String → List AdminEmployee → Option AdminEmployee
enabled_employee id employees = find_by admin_employee_id id (filter is_not_disabled employees)

abbrev pub answer :
    RuntimeConfig → String → Option AdminEmployee → Result PolicyError PermissionRule
answer runtime action none = err (no_enabled_employee runtime.employee_id)
answer runtime action (some e) = ok (denial action)

-- Over the employees of the admin state, evaluating an action denies it to every enabled employee
-- for want of a rule, whatever fallback rules are given, throws for any other employee, and changes
-- nothing.
pub evaluate-denies :
    (stringify : List PermissionRule → String) (now : Timestamp) (runtime : RuntimeConfig)
    (action : String) (fallback_rules : List PermissionRule) (employees : List AdminEmployee)
    → evaluate stringify (admin_policies now) now runtime action fallback_rules employees
      ≡ (answer runtime action (enabled_employee runtime.employee_id employees), employees)
unfolding evaluate ensure_policy ensure_found admin_policies evaluate_permission matching_rule gets
    choose pure throw ◌>>=◌ find
evaluate-denies stringify now runtime action fallback_rules employees =
    elim (Option-cases (enabled_employee runtime.employee_id employees)) [
      | inl e ↦ rw e refl
      | inr (employee, e) ↦ rw e refl
    ]
