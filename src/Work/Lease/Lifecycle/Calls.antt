-- ===== src/Work/Lease/Lifecycle/Calls.antt =====
-- The calls of src/work/work-dispatch-lease.ts, and what each may do to a stored lease.
use tiny_office.Prelude.{
  String, Ordering, ◌≡◌, ◌≢◌, refl, subst, ap, Bool, true, Option, none, some, List, [], ◌∷◌, ◌&&◌,
  ◌||◌, not, arith, inl, ◌==◌, find_by, find_by_unique, head?, filter, All, All-filter, All-sort,
  All-both, All-map, All-filter_test, upsert, HasDistinctIds,
}
use tiny_office.Prelude.Exec.{◌>>=◌}
use tiny_office.Prelude.Exec.Ensures.{
  Ensures-pure, Ensures-modify, Ensures-guard, Ensures-bind, Ensures-map,
}
use tiny_office.Work.Domain.{Timestamp}
use tiny_office.Work.Repository.{matches, truthy}
use tiny_office.Work.Lease.{
  LeaseStatus, pending, acknowledged, failed, canceled, LeaseRecord, Leases, LeaseEnvironment,
  LeaseInput, lease_id, same_lease_status, put_lease, create_lease, get_latest_lease, list_leases,
  new_lease, create_pending_lease, keep_if, is_pending, already_pending, may_acknowledge, may_fail,
  may_cancel, acknowledgement, failure, cancellation, acknowledge_work_run_start,
  fail_pending_lease, cancel_latest_lease, mark_expired_pending_leases_failed,
}
use tiny_office.Work.Lease.Lifecycle.{
  Edge, start, fail, cancel, stop, Follows, upsert-Follows, update_optional_lease-Ensures,
  fail_leases-Ensures,
}

head?-All :
    (P : LeaseRecord → Type 0) (ls : List LeaseRecord) (a : LeaseRecord)
    → All P ls
    → head? ls ≡ some a
    → P a
head?-All P [] a h e = cc
head?-All P (x ∷ xs) a (q, h) e = subst P (ap (λ o. package.mathlib.Core.Option.get_or o x) e) q

keep_if-some :
    (test : LeaseRecord → Bool) (o : Option LeaseRecord) (a : LeaseRecord)
    → keep_if test o ≡ some a
    → (o ≡ some a) × (test a ≡ true)
keep_if-some test none a e = cc
keep_if-some test (some l) a e = ground arith

acknowledged_from :
    (st : LeaseStatus) (b : Bool)
    → (same_lease_status st pending && b) ≡ true
    → Edge st acknowledged
acknowledged_from pending b e = start
acknowledged_from acknowledged b e = cc
acknowledged_from failed b e = cc
acknowledged_from canceled b e = cc

failed_from : (st : LeaseStatus) → same_lease_status st pending ≡ true → Edge st failed
failed_from pending e = fail
failed_from acknowledged e = cc
failed_from failed e = cc
failed_from canceled e = cc

canceled_from :
    (st : LeaseStatus)
    → (same_lease_status st pending || same_lease_status st acknowledged) ≡ true
    → Edge st canceled
canceled_from pending e = cancel
canceled_from acknowledged e = stop
canceled_from failed e = cc
canceled_from canceled e = cc

acknowledges :
    (l : LeaseRecord) (assignee : String)
    → may_acknowledge assignee l ≡ true
    → Edge l.status acknowledged
acknowledges l assignee e = acknowledged_from l.status (l.assignee_member_id == assignee) e

fails : (l : LeaseRecord) → may_fail l ≡ true → Edge l.status failed
fails l e = failed_from l.status e

cancels : (l : LeaseRecord) → may_cancel l ≡ true → Edge l.status canceled
cancels l e = canceled_from l.status e

module _ (k : String) (l : LeaseRecord) (s : Leases) (ids : HasDistinctIds lease_id s)
    (stored : find_by lease_id k s ≡ some l) where
  unmoved : Follows k l s
  unfolding Follows
  unmoved = (
    l,
    stored,
    record { status = inl refl; run = refl; assignee = refl; dispatched = refl; expires = refl },
  )

  get_latest_lease-same :
      (order : String → String → Ordering) (run : String) (a : LeaseRecord)
      → get_latest_lease order run s ≡ some a
      → a.id ≡ k
      → a ≡ l
  unfolding get_latest_lease
  get_latest_lease-same order run a e =
      head?-All (λ a. a.id ≡ k → a ≡ l) _ a
        (All-sort _ _ _ (All-filter _ _ _ (find_by_unique lease_id k s l ids stored))) e

  kept_latest :
      (order : String → String → Ordering) (run : String) (test : LeaseRecord → Bool)
      (a : LeaseRecord)
      → keep_if test (get_latest_lease order run s) ≡ some a
      → a.id ≡ k
      → test l ≡ true
  kept_latest order run test a e m =
      let (found, passed) = keep_if-some test (get_latest_lease order run s) a e in
      subst (λ b. test b ≡ true) (get_latest_lease-same order run a found m) passed

  acknowledge_work_run_start-Follows :
      (env : LeaseEnvironment) (run assignee : String)
      → Follows k l (acknowledge_work_run_start env run assignee s).1
  unfolding acknowledge_work_run_start acknowledgement ◌>>=◌
  acknowledge_work_run_start-Follows env run assignee =
      ((update_optional_lease-Ensures k l
          (keep_if (may_acknowledge assignee) (get_latest_lease env.order run s))
          (acknowledgement env.now)
          (λ a e m.
            acknowledges l assignee
              (kept_latest env.order run (may_acknowledge assignee) a e m))).at
        s unmoved).0

  fail_pending_lease-Follows :
      (env : LeaseEnvironment) (run reason : String)
      → Follows k l (fail_pending_lease env run reason s).1
  unfolding fail_pending_lease failure ◌>>=◌
  fail_pending_lease-Follows env run reason =
      ((update_optional_lease-Ensures k l (keep_if may_fail (get_latest_lease env.order run s))
          (failure env.now reason) (λ a e m. fails l (kept_latest env.order run may_fail a e m))).at
        s unmoved).0

  cancel_latest_lease-Follows :
      (env : LeaseEnvironment) (run reason : String)
      → Follows k l (cancel_latest_lease env run reason s).1
  unfolding cancel_latest_lease cancellation ◌>>=◌
  cancel_latest_lease-Follows env run reason =
      ((update_optional_lease-Ensures k l (keep_if may_cancel (get_latest_lease env.order run s))
          (cancellation env.now reason)
          (λ a e m. cancels l (kept_latest env.order run may_cancel a e m))).at
        s unmoved).0

  -- The leases that a pass over the expired ones will change.
  expired-MayFail :
      (order : String → String → Ordering) (now : Timestamp)
      → All
          (λ a. a.id ≡ k → Edge l.status failed)
          (list_leases order none (some pending) (some now) s)
  unfolding list_leases
  expired-MayFail order now =
      let of_run : List LeaseRecord =
        filter (λ a. matches (λ r. a.work_run_id == r) (truthy none)) s in
      let has_pending : LeaseRecord → Bool = λ a. same_lease_status a.status pending in
      All-sort _ _ _ (
        All-filter _ _ _ (
          All-map _ _ (filter has_pending of_run)
            (λ a (e, same) m.
              failed_from l.status
                (subst (λ b. same_lease_status b.status pending ≡ true) (same m) e))
            (All-both _ _ _ (All-filter_test has_pending of_run) (
              All-filter (λ a. a.id ≡ k → a ≡ l) _ _
                (All-filter _ _ _ (find_by_unique lease_id k s l ids stored))))))

  mark_expired_pending_leases_failed-Follows :
      (env : LeaseEnvironment) (reason : Option String)
      → Follows k l (mark_expired_pending_leases_failed env reason s).1
  unfolding mark_expired_pending_leases_failed ◌>>=◌
  mark_expired_pending_leases_failed-Follows env reason =
      ((fail_leases-Ensures k l env.now _ _ (expired-MayFail env.order env.now)).at s unmoved).0

  create_pending_lease-Follows :
      (env : LeaseEnvironment) (input : LeaseInput)
      → env.create_id "work-dispatch" ≢ k
      → Follows k l (create_pending_lease env input s).1
  unfolding create_pending_lease create_lease put_lease new_lease ◌>>=◌
  create_pending_lease-Follows env input fresh =
      ((Ensures-bind {P = Follows k l} {Q = λ _. Unit} {R = λ _. Unit} _ _
          (Ensures-map _
            (Ensures-guard (not (is_pending (get_latest_lease env.order input.work_run_id s)))
              (already_pending input.work_run_id))
            λ _ _. tt)
          λ _ _.
            Ensures-bind {Q = λ _. Unit} {R = λ _. Unit} _ _
              (Ensures-modify (upsert lease_id (new_lease env input))
                (λ s' h. upsert-Follows k l (new_lease env input) s' (λ m. absurd (fresh m)) h))
              λ _ _. Ensures-pure (new_lease env input) tt).at
        s unmoved).0

-- A call of the service.
pub data LeaseCall : Type 0 where
  create : LeaseInput → LeaseCall
  acknowledge fail_pending cancel_latest : (run text : String) → LeaseCall
  expire : Option String → LeaseCall

-- The leases after a call, whether it returned or threw.
unfoldable pub perform_lease_call : LeaseEnvironment → LeaseCall → Leases → Leases
perform_lease_call env (create input) s = (create_pending_lease env input s).1
perform_lease_call env (acknowledge run assignee) s =
    (acknowledge_work_run_start env run assignee s).1
perform_lease_call env (fail_pending run reason) s = (fail_pending_lease env run reason s).1
perform_lease_call env (cancel_latest run reason) s = (cancel_latest_lease env run reason s).1
perform_lease_call env (expire reason) s = (mark_expired_pending_leases_failed env reason s).1

-- Let the stored lease with the id `k` be `l`, let no two stored leases share an id, and let the
-- call draw an id other than `k`. Then after any call of the lease service, returned or thrown, a
-- lease is still stored under `k`, for the same run and assignee and with the same times, and its
-- status is the old one or one edge of the lifecycle away: pending to acknowledged, failed or
-- canceled, or acknowledged to canceled.
pub perform_lease_call-Follows :
    (env : LeaseEnvironment) (call : LeaseCall) (k : String) (l : LeaseRecord) (s : Leases)
    → HasDistinctIds lease_id s
    → find_by lease_id k s ≡ some l
    → env.create_id "work-dispatch" ≢ k
    → Follows k l (perform_lease_call env call s)
unfolding perform_lease_call
perform_lease_call-Follows env (create input) k l s ids e fresh =
    create_pending_lease-Follows k l s ids e env input fresh
perform_lease_call-Follows env (acknowledge run assignee) k l s ids e fresh =
    acknowledge_work_run_start-Follows k l s ids e env run assignee
perform_lease_call-Follows env (fail_pending run reason) k l s ids e fresh =
    fail_pending_lease-Follows k l s ids e env run reason
perform_lease_call-Follows env (cancel_latest run reason) k l s ids e fresh =
    cancel_latest_lease-Follows k l s ids e env run reason
perform_lease_call-Follows env (expire reason) k l s ids e fresh =
    mark_expired_pending_leases_failed-Follows k l s ids e env reason
