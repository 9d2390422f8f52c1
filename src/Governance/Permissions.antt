-- ===== src/Governance/Permissions.antt =====
-- src/collaboration/policy/evaluate-permission.ts: which rule decides on an action.
pub mod Precedence
use tiny_office.Prelude.{
  String, Bool, Option, none, some, List, not, ◌&&◌, ◌==◌, find, first_some, or_else, is_some,
  is_text,
}
use tiny_office.Prelude.Text.{join}
use tiny_office.Prelude.{[], ◌∷◌}
use tiny_office.Governance.Domain.{PermissionRule, RuntimeConfig, deny}

-- The tests of the three searches.
abbrev pub is_for_employee : RuntimeConfig → String → PermissionRule → Bool
is_for_employee runtime action rule =
    rule.action_name == action && is_text rule.employee_id runtime.employee_id

abbrev pub is_for_role : RuntimeConfig → String → PermissionRule → Bool
is_for_role runtime action rule = rule.action_name == action && is_text rule.role runtime.role

abbrev pub is_for_everyone : String → PermissionRule → Bool
is_for_everyone action rule =
    rule.action_name == action && not (is_some rule.employee_id) && not (is_some rule.role)

abbrev pub denial : String → PermissionRule
denial action = record {
  employee_id = none;
  role = none;
  action_name = action;
  decision = deny;
  reason = some (join ("No permission rule matched for " ∷ action ∷ "." ∷ []));
}

-- The rule that is found, if one is.
unfoldable pub matching_rule : List PermissionRule → RuntimeConfig → String → Option PermissionRule
matching_rule rules runtime action =
    first_some (find (is_for_employee runtime action) rules)
      (first_some (find (is_for_role runtime action) rules) (find (is_for_everyone action) rules))

-- `evaluatePermission`
unfoldable pub evaluate_permission : List PermissionRule → RuntimeConfig → String → PermissionRule
unfolding matching_rule
evaluate_permission rules runtime action =
    or_else (matching_rule rules runtime action) (denial action)
