-- ===== src/Work/Dispatcher/Outcomes.antt =====
-- How `dispatchNext` of src/work/work-dispatcher.ts ends.
use tiny_office.Prelude.{
  String, Ordering, ◌≡◌, refl, ap, sym, ◌∙◌, ◌⊎◌, inl, inr, Bool, true, false, Option, none, some,
  ◌||◌, is_some, upsert, if◌then◌else◌,
}
use tiny_office.Prelude.Exec.{ok, pure, ◌>>=◌}
use tiny_office.Work.Repository.{Repository}
use tiny_office.Work.Lease.{
  LeaseRecord, LeaseStatus, Leases, LeaseEnvironment, lease_id, same_lease_status, get_latest_lease,
  is_pending, new_lease,
}
use tiny_office.Work.Lease.Creation.{create_pending_lease-created}
use tiny_office.Work.Dispatcher.{
  Candidate, Dispatched, is_explicit_retry_lease, lease_verdict, pending_lease_of,
  find_next_dispatch_candidate, lease_request, lease_candidate, dispatch_candidate, dispatch_next,
}
use tiny_office.Work.Dispatcher.Fitness.{IsFit, find_next_dispatch_candidate-IsFit}

-- The verdict, with the answers to its tests.
verdict-none :
    (l : LeaseRecord) (explicit pending failed : Bool)
    → (if explicit then some (some l) else if pending || failed then none else some none)
      ≡ some none
    → pending ≡ false
verdict-none l true p f e = cc
verdict-none l false true f e = cc
verdict-none l false false f e = refl

-- A lease that leaves a run without an explicit retry is not pending.
lease_verdict-Unpending :
    (o : Option LeaseRecord) → lease_verdict o ≡ some none → is_pending o ≡ false
unfolding lease_verdict
lease_verdict-Unpending none e = refl
lease_verdict-Unpending (some l) e =
    verdict-none l (is_explicit_retry_lease l) (same_lease_status l.status LeaseStatus.pending)
      (same_lease_status l.status LeaseStatus.failed) e

-- A dispatch that hands out a run, and its lease.
pub record IsHandedOut (order : String → String → Ordering) (service : LeaseEnvironment)
    (s : Repository) (leases leases' : Leases) (d : Dispatched) : Type 0 where
  pub fit : IsFit order (some service) s leases d.candidate
  pub leased :
      ((is_some d.lease ≡ true) × (d.lease ≡ d.candidate.pending_lease) × (leases' ≡ leases))
      ⊎ ((l : LeaseRecord) × (d.lease ≡ some l)
          × (l.work_run_id ≡ d.candidate.run.id)
          × (l.assignee_member_id ≡ d.candidate.run.assignee_member_id)
          × (l.status ≡ LeaseStatus.pending)
          × (leases' ≡ upsert lease_id l leases))

module _ (order : String → String → Ordering) (env : LeaseEnvironment) (created_by : String)
    (s : Repository) (leases : Leases) where
  -- How a dispatch ends: with nothing to hand out and the leases as they were, or with a run.
  pub Outcome : Option Dispatched → Leases → Type 0
  Outcome r leases' =
      ((r ≡ none) × (leases' ≡ leases))
      ⊎ ((d : Dispatched) × (r ≡ some d) × IsHandedOut order env s leases leases' d)

  dispatch_fit :
      (c : Candidate) (p : Option LeaseRecord)
      → c.pending_lease ≡ p
      → IsFit order (some env) s leases c
      → (r : Option Dispatched) × (leases' : Leases) × ((lease_candidate (some env) created_by c p
              >>= λ l. pure (some (record { candidate = c; lease = l })))
            leases
          ≡ (ok r, leases'))
        × Outcome r leases'
  unfolding lease_candidate Outcome new_lease lease_request pending_lease_of ◌>>=◌
  dispatch_fit c (some l) e fit =
      (_, _, refl, inr (_, refl, record { fit = fit; leased = inl (refl, sym e, refl) }))
  dispatch_fit c none e fit =
      let unpending : is_pending (get_latest_lease env.order c.run.id leases) ≡ false =
        lease_verdict-Unpending (get_latest_lease env.order c.run.id leases)
          (fit.verdict ∙ ap some e) in
      rw (create_pending_lease-created env (lease_request created_by c) leases unpending) (
        _,
        _,
        refl,
        inr (
          _,
          refl,
          record { fit = fit; leased = inr (_, refl, refl, fit.addressed, refl, refl) },
        ),
      )

  dispatch_found :
      (found : Option Candidate)
      → ((c : Candidate) → found ≡ some c → IsFit order (some env) s leases c)
      → (r : Option Dispatched) × (leases' : Leases) × (dispatch_candidate
            (some env)
            created_by
            found
            leases
          ≡ (ok r, leases'))
        × Outcome r leases'
  unfolding dispatch_candidate Outcome ◌>>=◌
  dispatch_found none h = (none, leases, refl, inl (refl, refl))
  dispatch_found (some c) h = dispatch_fit c c.pending_lease refl (h c refl)

  -- A dispatch with a lease service returns, so the service never refuses the lease that it asks for.
  -- Either nothing is handed out and the leases are as they were, or a queued run is handed out whose
  -- assignee has no run in progress and whose latest lease lets it through. In the latter case its
  -- lease is the candidate's explicit retry and the leases are as they were, or it is a new pending
  -- lease of that run and assignee, which has been stored.
  pub dispatch_next-Outcome :
      (r : Option Dispatched) × (leases' : Leases) × (dispatch_next order
          (some env)
          created_by
          s
          leases
        ≡ (ok r, leases'))
      × Outcome r leases'
  unfolding dispatch_next
  dispatch_next-Outcome =
      dispatch_found (find_next_dispatch_candidate order (some env) s leases)
        (find_next_dispatch_candidate-IsFit order (some env) s leases)
