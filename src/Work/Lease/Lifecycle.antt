-- ===== src/Work/Lease/Lifecycle.antt =====
-- How the status of a lease may change, and the writes of the lease repository.
pub mod Calls
use tiny_office.Prelude.{
  ◌⊎◌, ℕ, String, Ordering, ◌≡◌, ◌≢◌, refl, sym, subst, ap, Bool, true, false, Option, none, some,
  List, [], ◌∷◌, ◌&&◌, ◌||◌, not, arith, Bool-cases, inl, inr, ◌==◌, eq_iff, Option-cases, ◌∙◌,
  find_by, find_by_unique, find_by-upsert, find_by-key, head?, filter, sort, All, All-filter,
  All-sort, All-both, All-map, All-filter_test, All-upsert, All-find_by, upsert, HasDistinctIds,
  if◌then◌else◌,
}
use tiny_office.Prelude.Exec.{Result, ok, err, pure, gets, modify, require, guard, ◌>>=◌, ◌>>◌}
use tiny_office.Prelude.Exec.Ensures.{
  Ensures, Ensures-pure, Ensures-gets, Ensures-modify, Ensures-require, Ensures-guard, Ensures-bind,
  Ensures-map, Ensures-states,
}
use tiny_office.Work.Domain.{Timestamp}
use tiny_office.Work.Repository.{matches, truthy}
use tiny_office.Work.Lease.{
  LeaseStatus, pending, acknowledged, failed, canceled, LeaseRecord, Leases, LeaseEnvironment,
  LeaseInput, LeaseChange, LeaseError, Action, lease_id, same_lease_status, changed_lease,
  put_lease, create_lease, update_lease, get_latest_lease, list_leases, new_lease,
  create_pending_lease, update_optional_lease, keep_if, is_pending, already_pending,
  may_acknowledge, may_fail, may_cancel, acknowledgement, failure, cancellation,
  acknowledge_work_run_start, fail_pending_lease, cancel_latest_lease, fail_leases,
  mark_expired_pending_leases_failed,
}

-- The edges of the lifecycle. `failed` and `canceled` are final.
pub data Edge : LeaseStatus → LeaseStatus → Type 0 where
  start : Edge pending acknowledged
  fail : Edge pending failed
  cancel : Edge pending canceled
  stop : Edge acknowledged canceled

-- What a call may do to a stored lease: its status stays or follows one edge, and it stays with its
-- run, its assignee and its times.
pub record IsMoved (l l' : LeaseRecord) : Type 0 where
  pub status : (l'.status ≡ l.status) ⊎ Edge l.status l'.status
  pub run : l'.work_run_id ≡ l.work_run_id
  pub assignee : l'.assignee_member_id ≡ l.assignee_member_id
  pub dispatched : l'.dispatched_at ≡ l.dispatched_at
  pub expires : l'.expires_at ≡ l.expires_at

changed_lease-IsMoved :
    (l c : LeaseRecord) (change : LeaseChange)
    → IsMoved l c
    → Edge l.status change.status
    → IsMoved l (changed_lease change c)
unfolding changed_lease
changed_lease-IsMoved l c change m e = record {
  status = inr e;
  run = m.run;
  assignee = m.assignee;
  dispatched = m.dispatched;
  expires = m.expires;
}

-- `update_lease` throws, or it replaces the lease that it finds.
update_lease-cases :
    (id : String) (change : LeaseChange) (s : Leases)
    → ((update_lease id change s).1 ≡ s)
      ⊎ ((c : LeaseRecord) × (find_by lease_id id s ≡ some c)
          × ((update_lease id change s).1 ≡ upsert lease_id (changed_lease change c) s))
unfolding update_lease ◌>>=◌
update_lease-cases id change s = elim (Option-cases (find_by lease_id id s)) [
  | inl e ↦ inl (rw e)
  | inr (c, e) ↦ inr (c, e, rw e)
]

-- The lease with the id `k` was `l` when the call began.
module _ (k : String) (l : LeaseRecord) where
  pub Follows : Leases → Type 0
  Follows s = (l' : LeaseRecord) × (find_by lease_id k s ≡ some l') × IsMoved l l'

  -- A change to the lease `k`, if it is that lease, is along an edge.
  abbrev MayChange : LeaseChange → LeaseRecord → Type 0
  MayChange change a = a.id ≡ k → Edge l.status change.status

  upsert-Follows :
      (a : LeaseRecord) (s : Leases)
      → (a.id ≡ k → IsMoved l a)
      → Follows s
      → Follows (upsert lease_id a s)
  unfolding Follows
  upsert-Follows a s m (l', e, h) = elim (Bool-cases (a.id == k)) [
    | inl t ↦ (a, rw (find_by-upsert, t), m ((eq_iff a.id k).0 t))
    | inr f ↦ (l', rw (find_by-upsert, f) e, h)
  ]

  -- Two leases found under one id are one.
  found_alike :
      (id : String) (c l' : LeaseRecord) (s : Leases)
      → find_by lease_id id s ≡ some c
      → id ≡ k
      → find_by lease_id k s ≡ some l'
      → l' ≡ c
  found_alike id c l' s found m e = cc

  update_lease-Follows :
      (id : String) (change : LeaseChange) (s : Leases)
      → (id ≡ k → Edge l.status change.status)
      → Follows s
      → Follows (update_lease id change s).1
  unfolding Follows changed_lease
  update_lease-Follows id change s may (l', e, h) = elim (update_lease-cases id change s) [
    | inl same ↦ rw same (l', e, h)
    | inr (c, found, changed) ↦ rw changed (
        upsert-Follows (changed_lease change c) s
          (λ m.
            let same = sym (find_by-key lease_id id s c found) ∙ m in
            changed_lease-IsMoved l c change
              (subst (IsMoved l) (found_alike id c l' s found same e) h) (may same))
          (l', e, h))
  ]

  update_lease-Ensures :
      (id : String) (change : LeaseChange)
      → (id ≡ k → Edge l.status change.status)
      → Ensures Follows (update_lease id change) (λ _. Unit)
  update_lease-Ensures id change may =
      Ensures-states (update_lease id change) λ s h. update_lease-Follows id change s may h

  update_optional_lease-Ensures :
      (found : Option LeaseRecord) (change : LeaseChange)
      → ((a : LeaseRecord) → found ≡ some a → a.id ≡ k → Edge l.status change.status)
      → Ensures Follows (update_optional_lease found change) (λ _. Unit)
  unfolding update_optional_lease
  update_optional_lease-Ensures none change may = Ensures-pure none tt
  update_optional_lease-Ensures (some a) change may =
      Ensures-bind _ _ (update_lease-Ensures a.id change (may a refl))
        λ updated _. Ensures-pure (some updated) tt

  fail_leases-Ensures :
      (now : Timestamp) (reason : String) (ls : List LeaseRecord)
      → All (λ a. a.id ≡ k → Edge l.status failed) ls
      → Ensures Follows (fail_leases now reason ls) (λ _. Unit)
  unfolding fail_leases failure
  fail_leases-Ensures now reason [] may = Ensures-pure [] tt
  fail_leases-Ensures now reason (a ∷ ls) (q, may) =
      Ensures-bind _ _ (update_lease-Ensures a.id (failure now reason) q) λ updated _.
        Ensures-bind _ _ (fail_leases-Ensures now reason ls may)
          λ rest _. Ensures-pure (updated ∷ rest) tt
