-- ===== src/Governance/Policies/Stored.antt =====
-- EmployeePolicyService and DurablePermissionService
-- (src/governance/services/company-governance-services.ts) over the PostgreSQL store, which keeps no
-- employee policies (src/governance/storage/postgres-company-governance-store.ts).
use tiny_office.Prelude.{String, ◌≡◌, refl, ap, List, [], ◌∷◌, find_by, upsert}
use tiny_office.Prelude.Exec.{ok, pure, gets, modify, choose, ◌>>=◌}
use tiny_office.Work.Domain.{Timestamp}
use tiny_office.Governance.Domain.{PermissionRule, RuntimeConfig, State}
use tiny_office.Governance.Permissions.{evaluate_permission}
use tiny_office.Governance.Policies.{
  without_policies, update_store, stored_policies, ensure_found, ensure_policy, evaluate,
}

-- A call of `ensurePolicy`.
pub record PolicyCall : Type 0 where
  pub now : Timestamp
  pub employee_id : String
  pub role : String
  pub rules : List PermissionRule

module _ (stringify : List PermissionRule → String) where
  unfoldable pub ensure_all : List PolicyCall → State → State
  unfolding ensure_policy stored_policies
  ensure_all [] s = s
  ensure_all (c ∷ calls) s =
      ensure_all calls
        (ensure_policy stringify stored_policies c.now c.employee_id c.role c.rules s).1

  ensure_all-kept :
      (calls : List PolicyCall) (s : State)
      → without_policies (ensure_all calls s) ≡ without_policies s
  unfolding ensure_all ensure_policy ensure_found stored_policies update_store find_by upsert choose
      gets modify pure ◌>>=◌
  ensure_all-kept [] s = refl
  ensure_all-kept (c ∷ calls) s = ensure_all-kept calls (without_policies s)

-- Over the governance store, a decision on an action is made by the fallback rules given with it alone:
-- whatever policies earlier calls have ensured, for the same employee or others, the decision is that
-- of the fallback rules, and no approval or grant has changed.
pub evaluate-forgets :
    (stringify : List PermissionRule → String) (calls : List PolicyCall) (now : Timestamp)
    (runtime : RuntimeConfig) (action : String) (fallback_rules : List PermissionRule) (s : State)
    → evaluate stringify stored_policies now runtime action fallback_rules
        (ensure_all stringify calls s)
      ≡ (ok (evaluate_permission fallback_rules runtime action), without_policies s)
unfolding evaluate ensure_policy ensure_found stored_policies update_store find_by upsert choose
    gets modify pure ◌>>=◌
evaluate-forgets stringify calls now runtime action fallback_rules s =
    ap (λ t. (ok (evaluate_permission fallback_rules runtime action), t))
      (ensure_all-kept stringify calls s)
