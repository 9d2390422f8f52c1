-- ===== src/Work/Lease/Creation.antt =====
-- What `createPendingLease` of src/work/work-dispatch-lease.ts does on each branch.
use tiny_office.Prelude.{◌≡◌, refl, false, upsert}
use tiny_office.Prelude.Exec.{ok, ◌>>=◌}
use tiny_office.Work.Lease.{
  Leases, LeaseEnvironment, LeaseInput, lease_id, get_latest_lease, is_pending, new_lease,
  put_lease, create_lease, create_pending_lease,
}

-- Where the run's latest lease is not pending, the new lease is stored and returned.
pub create_pending_lease-created :
    (env : LeaseEnvironment) (input : LeaseInput) (leases : Leases)
    → is_pending (get_latest_lease env.order input.work_run_id leases) ≡ false
    → create_pending_lease env input leases
      ≡ (ok (new_lease env input), upsert lease_id (new_lease env input) leases)
unfolding create_pending_lease create_lease put_lease ◌>>=◌
create_pending_lease-created env input leases e = rw e refl
