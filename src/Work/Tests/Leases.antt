-- ===== src/Work/Tests/Leases.antt =====
-- Tests of src/work/work-dispatch-lease.ts.
use tiny_office.Prelude.{Ordering, ◌≡◌, refl, none, some, [], ◌∷◌, find_by, eq_iff}
use mathlib.Core.Bool.{false≢true}
use tiny_office.Work.Lease.{LeaseRecord, LeaseStatus, LeaseEnvironment}
use tiny_office.Work.Lease.Lifecycle.{Follows}
use tiny_office.Work.Lease.Lifecycle.Calls.{expire, perform_lease_call, perform_lease_call-Follows}

abbrev pub clock : LeaseEnvironment
clock = record {
  now = 100;
  create_id = λ prefix. prefix;
  order = λ a b. Ordering.eq;
  lease_ttl_ms = 50;
}

abbrev old_lease : LeaseRecord
old_lease = record {
  id = "old";
  work_run_id = "draft";
  assignee_member_id = "ann";
  session_key = "ann:draft";
  status = LeaseStatus.pending;
  dispatched_at = 10;
  expires_at = 60;
  acknowledged_at = none;
  failed_at = none;
  canceled_at = none;
  failure_reason = none;
  retry_of_lease_id = none;
  created_by = "dispatcher";
  metadata = [];
}

old-found : find_by (λ (l : LeaseRecord). l.id) "old" (old_lease ∷ []) ≡ some old_lease
unfolding find_by
old-found = refl

perform_lease_call-Follows_example :
    Follows "old" old_lease (perform_lease_call clock (expire none) (old_lease ∷ []))
perform_lease_call-Follows_example =
    perform_lease_call-Follows clock (expire none) "old" old_lease (old_lease ∷ []) (tt, tt)
      old-found (λ e. false≢true ((eq_iff "work-dispatch" "old").1 e))
