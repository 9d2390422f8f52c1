-- ===== src/Governance/Permissions/Precedence.antt =====
-- The searches of src/collaboration/policy/evaluate-permission.ts against one pass over the rules.
use tiny_office.Prelude.{
  ℕ, String, ◌≡◌, refl, Bool, List, [], ◌∷◌, ltb, find, first_some, or_else, if◌then◌else◌, arith,
}
use tiny_office.Governance.Domain.{PermissionRule, RuntimeConfig}
use tiny_office.Governance.Permissions.{
  is_for_employee, is_for_role, is_for_everyone, denial, matching_rule, evaluate_permission,
}

-- How closely a rule fits, by its three tests: 0 for the employee, 1 for the role, 2 for everyone,
-- 3 for no fit.
abbrev pub distance : Bool → Bool → Bool → ℕ
distance employee role everyone =
    if employee then 0 else if role then 1 else if everyone then 2 else 3

module _ {A : Type 0} (employee role everyone : A → Bool) where
  -- One pass: the closest rule so far, with its distance; on a tie the earlier one stays.
  unfoldable pub closest : ℕ → A → List A → A
  closest d best [] = best
  closest d best (rule ∷ rules) =
      let d' = distance (employee rule) (role rule) (everyone rule) in
      closest (if ltb d' d then d' else d) (if ltb d' d then rule else best) rules

  closest-employee : (best : A) (rules : List A) → closest 0 best rules ≡ best
  unfolding closest
  closest-employee best [] = refl
  closest-employee best (rule ∷ rules) = ground (arith, closest-employee best rules)

  closest-role :
      (best : A) (rules : List A) → closest 1 best rules ≡ or_else (find employee rules) best
  unfolding closest find
  closest-role best [] = refl
  closest-role best (rule ∷ rules) =
      ground (arith, closest-employee rule rules, closest-role best rules)

  closest-everyone :
      (best : A) (rules : List A)
      → closest 2 best rules ≡ or_else (first_some (find employee rules) (find role rules)) best
  unfolding closest find
  closest-everyone best [] = refl
  closest-everyone best (rule ∷ rules) =
      ground
        (arith, closest-employee rule rules, closest-role rule rules, closest-everyone best rules)

  closest-none :
      (best : A) (rules : List A)
      → closest 3 best rules
        ≡ or_else
            (first_some (find employee rules) (first_some (find role rules) (find everyone rules)))
            best
  unfolding closest find
  closest-none best [] = refl
  closest-none best (rule ∷ rules) = ground (
    arith,
    closest-employee rule rules,
    closest-role rule rules,
    closest-everyone rule rules,
    closest-none best rules,
  )

-- The three searches find the rule that one pass picks: the closest one, the earliest among equally
-- close ones, and a denial where no rule fits.
pub evaluate_permission-closest :
    (rules : List PermissionRule) (runtime : RuntimeConfig) (action : String)
    → evaluate_permission rules runtime action
      ≡ closest
          (is_for_employee runtime action)
          (is_for_role runtime action)
          (is_for_everyone action)
          3
          (denial action)
          rules
unfolding evaluate_permission matching_rule
evaluate_permission-closest rules runtime action =
    rw
      (closest-none (is_for_employee runtime action) (is_for_role runtime action)
        (is_for_everyone action) (denial action) rules)
      refl
