-- ===== src/Governance/Approvals/Spending.antt =====
-- How often a one-time grant can be consumed (ApprovalRepository.consumeOneTimeGrant).
use tiny_office.Prelude.{
  ℕ, suc, ◌≤◌, String, ◌≡◌, ◌≢◌, refl, sym, ap, ◌∙◌, subst, Bool, true, false, Option, none, some,
  List, [], ◌∷◌, ◌&&◌, false≢true, ◌==◌, eq_iff, inl, inr, arith, find_by, is_some, if◌then◌else◌,
  All, All-upsert, All-filter, All-map, All-find_by, find_by-key, find_by_unique, HasDistinctIds,
  Bool-cases,
}
use tiny_office.Prelude.Members.{All-upsert_others}
use tiny_office.Work.Domain.{Timestamp}
use tiny_office.Governance.Domain.{Grant, State}
use tiny_office.Governance.Approvals.{
  ApprovalEnvironment, grant_id, is_usable, consumed_grant, use_grant, consume_one_time_grant,
  is_of_other_member,
}
use tiny_office.Governance.Approvals.Calls.{
  Call, create, resolve, consume, cancel_context, cancel_member, revoke, state_after,
}
use tiny_office.Governance.Approvals.Grants.{state_after-grants, state_after-grants-HasDistinctIds}

-- No stored grant with this id can be consumed.
IsUnusable : String → Grant → Type 0
IsUnusable id g = g.id ≡ id → is_usable g ≡ false

IsSpent : String → State → Type 0
unfolding IsUnusable
IsSpent id s = All (IsUnusable id) s.approval_grants

consumed-IsUnusable : (t : Timestamp) (g : Grant) → is_usable (consumed_grant t g) ≡ false
consumed-IsUnusable t g = ground arith

state_after-IsSpent :
    (env : ApprovalEnvironment) (call : Call) (s : State) (id : String)
    → env.random_uuid ≢ id
    → IsSpent id s
    → IsSpent id (state_after env call s)
unfolding IsSpent IsUnusable
state_after-IsSpent env call s id n h =
    state_after-grants (All (IsUnusable id)) env s call h
      (λ g e.
        All-upsert grant_id (IsUnusable id) g s.approval_grants h (λ k. absurd (n (sym e ∙ k))))
      (λ t _ g _.
        All-upsert grant_id (IsUnusable id) (consumed_grant t g) s.approval_grants h
          (λ _. consumed-IsUnusable t g))
      (λ m. All-filter (IsUnusable id) (is_of_other_member m) s.approval_grants h)

-- Whether the call consumes the grant with this id.
abbrev pub consumes : String → Call → State → Bool
consumes id (consume id' consumed_at) s =
    id' == id && is_some (consume_one_time_grant id' consumed_at s).0
consumes id call s = false

-- How often the grant with this id is consumed in a sequence of calls.
unfoldable pub consumptions : String → List (ApprovalEnvironment × Call) → State → ℕ
consumptions id [] s = 0
consumptions id ((env, call) ∷ calls) s =
    let rest = consumptions id calls (state_after env call s) in
    if consumes id call s then suc rest else rest

unused :
    (t : Timestamp) (g : Grant) (s : State)
    → is_usable g ≡ false
    → use_grant t (some g) s ≡ (none, s)
unused t g s f = rw f refl

used-IsSpent :
    (t : Timestamp) (id : String) (s : State) (o : Option Grant)
    → HasDistinctIds grant_id s.approval_grants
    → find_by grant_id id s.approval_grants ≡ o
    → is_some (use_grant t o s).0 ≡ true
    → IsSpent id (use_grant t o s).1
unfolding IsSpent IsUnusable
used-IsSpent t id s none d e h = absurd (false≢true h)
used-IsSpent t id s (some g) d e h = elim (Bool-cases (is_usable g)) [
  | inl u ↦ rw u (
      All-upsert_others grant_id (IsUnusable id) (consumed_grant t g) s.approval_grants d
        (All-map (λ x. x.id ≡ id → x ≡ g) (λ x. x.id ≢ g.id → IsUnusable id x) s.approval_grants
          (λ x k n m. absurd (n (ap grant_id (k m))))
          (find_by_unique grant_id id s.approval_grants g d e))
        (λ _. consumed-IsUnusable t g))
  | inr f ↦ absurd (false≢true (ap is_some (sym (ap (λ r. r.0) (unused t g s f))) ∙ h))
]

unspent-used :
    (t : Timestamp) (id : String) (s : State) (o : Option Grant)
    → IsSpent id s
    → find_by grant_id id s.approval_grants ≡ o
    → is_some (use_grant t o s).0 ≡ false
unfolding IsSpent IsUnusable
unspent-used t id s none h e = refl
unspent-used t id s (some g) h e =
    ap (λ r. is_some r.0)
      (unused t g s (
        All-find_by grant_id (IsUnusable id) id s.approval_grants g h e
          (find_by-key grant_id id s.approval_grants g e)))

consumes-IsSpent :
    (env : ApprovalEnvironment) (call : Call) (s : State) (id : String)
    → HasDistinctIds grant_id s.approval_grants
    → consumes id call s ≡ true
    → IsSpent id (state_after env call s)
unfolding state_after consume_one_time_grant
consumes-IsSpent env (create input) s id d e = absurd (false≢true e)
consumes-IsSpent env (resolve id' resolution input) s id d e = absurd (false≢true e)
consumes-IsSpent env (consume id' t) s id d e = elim (Bool-cases (id' == id)) [
  | inl q ↦
      subst (λ i. IsSpent i (use_grant t (find_by grant_id id' s.approval_grants) s).1)
        ((eq_iff id' id).0 q)
        (used-IsSpent t id' s _ d refl
          (ap (λ b. b && is_some (consume_one_time_grant id' t s).0) (sym q) ∙ e))
  | inr n ↦
      absurd (false≢true (ap (λ b. b && is_some (consume_one_time_grant id' t s).0) (sym n) ∙ e))
]
consumes-IsSpent env (cancel_context kind id' reason) s id d e = absurd (false≢true e)
consumes-IsSpent env (cancel_member id' reason) s id d e = absurd (false≢true e)
consumes-IsSpent env (revoke id') s id d e = absurd (false≢true e)

unspent-consumes :
    (call : Call) (s : State) (id : String) → IsSpent id s → consumes id call s ≡ false
unfolding consume_one_time_grant
unspent-consumes (create input) s id h = refl
unspent-consumes (resolve id' resolution input) s id h = refl
unspent-consumes (consume id' t) s id h = elim (Bool-cases (id' == id)) [
  | inl q ↦
      rw q (unspent-used t id' s _ (subst (λ i. IsSpent i s) (sym ((eq_iff id' id).0 q)) h) refl)
  | inr n ↦ rw n refl
]
unspent-consumes (cancel_context kind id' reason) s id h = refl
unspent-consumes (cancel_member id' reason) s id h = refl
unspent-consumes (revoke id') s id h = refl

-- The calls draw other ids than this one.
abbrev pub DrawOthers : String → List (ApprovalEnvironment × Call) → Type 0
DrawOthers id calls = All (λ c. c.0.random_uuid ≢ id) calls

spent-consumptions :
    (id : String) (calls : List (ApprovalEnvironment × Call)) (s : State)
    → DrawOthers id calls
    → IsSpent id s
    → consumptions id calls s ≡ 0
unfolding consumptions
spent-consumptions id [] s o h = refl
spent-consumptions id ((env, call) ∷ calls) s (n, o) h =
    rw (unspent-consumes call s id h) (
      spent-consumptions id calls (state_after env call s) o
        (state_after-IsSpent env call s id n h))

-- Of a state whose grants have distinct ids, any sequence of calls that draw other ids than that of a
-- grant consumes the grant at most once.
pub consumptions-AtMostOnce :
    (id : String) (calls : List (ApprovalEnvironment × Call)) (s : State)
    → HasDistinctIds grant_id s.approval_grants
    → DrawOthers id calls
    → consumptions id calls s ≤ 1
unfolding consumptions
consumptions-AtMostOnce id [] s d o = ground arith
consumptions-AtMostOnce id ((env, call) ∷ calls) s d (n, o) =
    elim (Bool-cases (consumes id call s)) [
      | inl t ↦
          rw
            (
              t,
              spent-consumptions id calls (state_after env call s) o
                  (consumes-IsSpent env call s id d t),
            )
            (ground arith)
      | inr f ↦ rw f (
          consumptions-AtMostOnce id calls (state_after env call s)
            (state_after-grants-HasDistinctIds env call s d) o)
    ]
