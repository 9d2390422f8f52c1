-- ===== src/Work/Dispatcher/Fitness.antt =====
-- Which run src/work/work-dispatcher.ts hands out.
use mathlib.Core.Option.{get_or}
use tiny_office.Prelude.{
  String, Ordering, ◌≡◌, refl, ap, sym, subst, ◌∙◌, ◌⊎◌, inl, inr, Bool, true, false, Option, none,
  some, List, [], ◌∷◌, first_some, find, head?, All, All-sort, All-filter_test, All-find, All-map,
  if◌then◌else◌,
}
use tiny_office.Work.Domain.{
  TaskRecord, RunRecord, RunStatus, queued, in_progress, blocked, done, failed, same_run_status,
}
use tiny_office.Work.Repository.{Repository, list_work_runs}
use tiny_office.Work.Lease.{LeaseRecord, Leases, LeaseEnvironment}
use tiny_office.Work.Dispatcher.{
  Candidate, is_assignee_idle, pending_lease_of, add_candidate, candidate_with, candidate_of,
  candidates, find_next_dispatch_candidate,
}

if-some :
    (b : Bool) (o : Option Candidate) (c : Candidate)
    → (if b then o else none) ≡ some c
    → (b ≡ true) × (o ≡ some c)
if-some true o c e = (refl, e)
if-some false o c e = cc

first_some-cases :
    (a b : Option Candidate) (c : Candidate) → first_some a b ≡ some c → (a ≡ some c) ⊎ (b ≡ some c)
first_some-cases none b c e = inr e
first_some-cases (some a) b c e = inl e

module _ (order : String → String → Ordering) (service : Option LeaseEnvironment) (s : Repository)
    (leases : Leases) where
  -- A queued run whose assignee has no run in progress, with the verdict on its latest lease.
  pub record IsFit (c : Candidate) : Type 0 where
    pub queued_run : c.run.status ≡ queued
    pub idle : is_assignee_idle order c.run.assignee_member_id s ≡ true
    pub verdict : pending_lease_of service c.run leases ≡ some c.pending_lease
    pub addressed : c.assignee_member_id ≡ c.run.assignee_member_id

  candidate_with-cases :
      (run : RunRecord) (v : Option (Option LeaseRecord)) (t : Option TaskRecord) (c : Candidate)
      → candidate_with run v t ≡ some c
      → (run ≡ c.run) × (v ≡ some c.pending_lease) × (c.assignee_member_id ≡ run.assignee_member_id)
  unfolding candidate_with
  candidate_with-cases run none t c e = cc
  candidate_with-cases run (some l) none c e = cc
  candidate_with-cases run (some l) (some task) c e = (
    ap (λ o. (get_or o c).run) e,
    ap (λ o. some (get_or o c).pending_lease) e,
    ap (λ o. (get_or o c).assignee_member_id) (sym e),
  )

  candidate_of-IsFit :
      (run : RunRecord) (c : Candidate)
      → run.status ≡ queued
      → candidate_of order service s leases run ≡ some c
      → IsFit c
  unfolding candidate_of
  candidate_of-IsFit run c q e =
      let (idle, chosen_one) = if-some (is_assignee_idle order run.assignee_member_id s) _ c e in
      let (same, verdict, addressed) = candidate_with-cases run _ _ c chosen_one in
      record {
        queued_run = subst (λ x. x.status ≡ queued) same q;
        idle = subst (λ x. is_assignee_idle order x.assignee_member_id s ≡ true) same idle;
        verdict =
            subst (λ x. pending_lease_of service x leases ≡ some c.pending_lease) same verdict;
        addressed = addressed ∙ ap (λ x. x.assignee_member_id) same;
      }

  added-IsFit :
      (o : Option Candidate) (cs : List Candidate)
      → ((c : Candidate) → o ≡ some c → IsFit c)
      → All IsFit cs
      → All IsFit (add_candidate o cs)
  added-IsFit none cs k h = h
  added-IsFit (some c) cs k h = (k c refl, h)

  candidates-IsFit :
      (runs : List RunRecord)
      → All (λ run. run.status ≡ queued) runs
      → All IsFit (candidates order service s leases runs)
  unfolding candidates
  candidates-IsFit [] h = tt
  candidates-IsFit (run ∷ runs) (q, h) =
      added-IsFit (candidate_of order service s leases run) _ (λ c e. candidate_of-IsFit run c q e)
        (candidates-IsFit runs h)

head_of-All :
    (P : Candidate → Type 0) (cs : List Candidate) (c : Candidate)
    → All P cs
    → head? cs ≡ some c
    → P c
head_of-All P [] c h e = cc
head_of-All P (x ∷ cs) c (p, h) e = subst P (ap (λ o. get_or o x) e) p

chosen :
    (P : Candidate → Type 0) (test : Candidate → Bool) (cs : List Candidate) (c : Candidate)
    → All P cs
    → first_some (find test cs) (head? cs) ≡ some c
    → P c
chosen P test cs c h e = elim (first_some-cases (find test cs) (head? cs) c e) [
  | inl f ↦ (All-find P test cs c h f).0
  | inr f ↦ head_of-All P cs c h f
]

is_queued : (st : RunStatus) → same_run_status st queued ≡ true → st ≡ queued
is_queued queued e = refl
is_queued in_progress e = cc
is_queued blocked e = cc
is_queued done e = cc
is_queued failed e = cc
is_queued RunStatus.canceled e = cc

queued_runs :
    (order : String → String → Ordering) (s : Repository)
    → All (λ run. run.status ≡ queued) (list_work_runs order none none (some queued) s)
unfolding list_work_runs
queued_runs order s = All-sort _ _ _ (
    All-map _ _ _ (λ run e. is_queued run.status e)
      (All-filter_test (λ run. same_run_status run.status queued) _))

-- The run that is handed out next is queued, its assignee has no run in progress, and the verdict on
-- its latest lease lets it through.
pub find_next_dispatch_candidate-IsFit :
    (order : String → String → Ordering) (service : Option LeaseEnvironment) (s : Repository)
    (leases : Leases) (c : Candidate)
    → find_next_dispatch_candidate order service s leases ≡ some c
    → IsFit order service s leases c
unfolding find_next_dispatch_candidate
find_next_dispatch_candidate-IsFit order service s leases c e =
    chosen (IsFit order service s leases) _ _ c
      (candidates-IsFit order service s leases _ (All-sort _ _ _ (queued_runs order s))) e
