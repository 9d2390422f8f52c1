-- ===== src/Governance/Policies.antt =====
-- EmployeePolicyService and DurablePermissionService of
-- src/governance/services/company-governance-services.ts over their two sources of policies,
-- src/governance/repositories/employee-policy-repository.ts and
-- src/governance/repositories/admin-employee-policy-repository.ts. `JSON.stringify` on a list of rules
-- is a parameter. The repair of stored policies whose fields have other types than those declared is
-- left out, since a record of the model has the declared types.
pub mod Stored
pub mod Admin
use mathlib.Core.Option
use tiny_office.Prelude.{
  String, Bool, true, false, Option, none, some, List, [], ◌∷◌, not, ◌&&◌, ◌||◌, ◌==◌, find, filter,
  find_by, upsert, if◌then◌else◌, map,
}
use tiny_office.Prelude.Exec.{Exec, pure, throw, gets, modify, choose, ◌>>=◌, ◌>>◌}
use tiny_office.Work.Domain.{Timestamp}
use tiny_office.Governance.Domain.{PermissionRule, RuntimeConfig, EmployeePolicy, State}
use tiny_office.Governance.Permissions.{evaluate_permission}

pub data PolicyError : Type 0 where
  no_enabled_employee unknown_employee : String → PolicyError

-- `EmployeePolicyRepositoryLike`, less `list`, which the services do not call.
pub record PolicySource (S : Type 0) : Type 0 where
  pub readonly_policy_source : Bool
  pub get_by_employee_id : String → Exec PolicyError S (Option EmployeePolicy)
  pub save : EmployeePolicy → Exec PolicyError S EmployeePolicy

abbrev pub policy_employee : EmployeePolicy → String
policy_employee p = p.employee_id

abbrev pub with_policies : List EmployeePolicy → State → State
with_policies policies s = record s { employee_policies = policies }

-- The state that `PostgresCompanyGovernanceStore` loads, and what it keeps of a state that is saved: no
-- employee policies.
abbrev pub without_policies : State → State
without_policies s = with_policies [] s

-- `store.update` of that store: load, change, save
unfoldable pub update_store : (State → State) → State → State
update_store f s = without_policies (f (without_policies s))

-- `EmployeePolicyRepository` over that store, the only one there is
unfoldable pub stored_policies : PolicySource State
unfolding update_store
stored_policies = record {
  readonly_policy_source = false;
  get_by_employee_id =
      λ id. gets (λ s. find_by policy_employee id (without_policies s).employee_policies);
  save = λ policy. do
    modify (update_store (λ s. with_policies (upsert policy_employee policy s.employee_policies) s))
    pure policy;
}

-- What `AdminEmployeePolicyRepository` reads of an `EmployeeAdminRecord`.
pub record AdminEmployee : Type 0 where
  pub employee_id : String
  pub enabled : Option Bool
  pub role : String

-- `employee.enabled !== false`
abbrev pub is_not_disabled : AdminEmployee → Bool
is_not_disabled e = elim e.enabled [ none ↦ true | some b ↦ b ]

abbrev pub policy_from_admin_employee : Timestamp → AdminEmployee → EmployeePolicy
policy_from_admin_employee now e = record {
  employee_id = e.employee_id;
  role = e.role;
  permission_rules = [];
  created_at = now;
  updated_at = now;
}

abbrev pub admin_employee_id : AdminEmployee → String
admin_employee_id e = e.employee_id

-- The source reads the employees, which are its state, and never writes them.
abbrev pub enabled_policy : Timestamp → String → List AdminEmployee → Option EmployeePolicy
enabled_policy now id employees =
    Option.map (policy_from_admin_employee now)
      (find_by admin_employee_id id (filter is_not_disabled employees))

abbrev save_found :
    EmployeePolicy → Option EmployeePolicy → Exec PolicyError (List AdminEmployee) EmployeePolicy
save_found policy none = throw (unknown_employee policy.employee_id)
save_found policy (some existing) = pure existing

unfoldable pub admin_policies : Timestamp → PolicySource (List AdminEmployee)
admin_policies now = record {
  readonly_policy_source = true;
  get_by_employee_id = λ id. gets (enabled_policy now id);
  save = λ policy. do
    existing ← gets (enabled_policy now policy.employee_id)
    save_found policy existing;
}

abbrev pub has_no_rules : List PermissionRule → Bool
has_no_rules [] = true
has_no_rules (r ∷ rules) = false

abbrev pub refreshed : Timestamp → String → List PermissionRule → EmployeePolicy → EmployeePolicy
refreshed now role rules existing = record existing {
  role = role;
  permission_rules = if has_no_rules rules then existing.permission_rules else rules;
  updated_at = now;
}

abbrev pub new_policy : Timestamp → String → String → List PermissionRule → EmployeePolicy
new_policy now employee_id role rules = record {
  employee_id = employee_id;
  role = role;
  permission_rules = rules;
  created_at = now;
  updated_at = now;
}

-- Neither the rules nor the role have to be refreshed.
abbrev pub is_current :
    (List PermissionRule → String) → String → List PermissionRule → EmployeePolicy → Bool
is_current stringify role rules existing =
    (has_no_rules rules || stringify existing.permission_rules == stringify rules)
    && existing.role == role

module _ {S : Type 0} (stringify : List PermissionRule → String) (source : PolicySource S) where
  -- Save a policy and return it, whatever `save` returns.
  abbrev saved : EmployeePolicy → Exec PolicyError S EmployeePolicy
  saved policy = do returned ← source.save policy; pure policy

  -- The rest of `ensurePolicy`, for the policy that was found.
  unfoldable pub ensure_found :
      Timestamp
      → String
      → String
      → List PermissionRule
      → Option EmployeePolicy
      → Exec PolicyError S EmployeePolicy
  ensure_found now employee_id role rules none =
      choose source.readonly_policy_source (throw (no_enabled_employee employee_id))
        (saved (new_policy now employee_id role rules))
  ensure_found now employee_id role rules (some existing) =
      choose source.readonly_policy_source (pure existing) (
        choose (is_current stringify role rules existing) (pure existing)
          (saved (refreshed now role rules existing)))

  unfoldable pub ensure_policy :
      Timestamp → String → String → List PermissionRule → Exec PolicyError S EmployeePolicy
  unfolding ensure_found
  ensure_policy now employee_id role rules = do
    existing ← source.get_by_employee_id employee_id
    ensure_found now employee_id role rules existing

  unfoldable pub evaluate :
      Timestamp → RuntimeConfig → String → List PermissionRule → Exec PolicyError S PermissionRule
  unfolding ensure_policy
  evaluate now runtime action fallback_rules = do
    policy ← ensure_policy now runtime.employee_id runtime.role fallback_rules
    pure (evaluate_permission policy.permission_rules runtime action)
