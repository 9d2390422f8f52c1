-- ===== src/Intake/Interleaving.antt =====
-- Calls of IntakeEventService.ingest (src/intake/intake-event-service.ts) that run at the same time: each
-- reads the store and is checked, and later adds its record, in any order.
use tiny_office.Prelude.{
  ℕ, zero, suc, String, ◌≡◌, ◌≢◌, refl, sym, ◌∙◌, true, false, Option, none, some, List, [], ◌∷◌,
  ◌++◌, inl, inr, ◌==◌, eq_iff, find_by, All, All-append, HasDistinctIds, Bool-cases, Option-cases,
  false≢true,
}
use mathlib.Core.Option.{none-ne-some}
use tiny_office.Prelude.Json.{Json}
use tiny_office.Prelude.Exec.{Result, ok, err}
use tiny_office.Intake.{
  EventRecord, IntakeEnvironment, IntakeError, Prepared, known, ready, event_key, target_of,
  prepare, add_event,
}

-- The stored events and the records of the calls that have been checked, and not yet added theirs.
pub record Office : Type 0 where
  pub events : List EventRecord
  pub in_flight : List EventRecord

abbrev pub closed_office : Office
closed_office = record { events = []; in_flight = [] }

pub data Step : Type 0 where
  begin : IntakeEnvironment → Json → Step
  -- the n-th call in flight adds its record
  commit : ℕ → Step

abbrev pub taken_off : ℕ → List EventRecord → List EventRecord
taken_off n [] = []
taken_off zero (e ∷ rest) = rest
taken_off (suc n) (e ∷ rest) = e ∷ taken_off n rest

abbrev pub nth : ℕ → List EventRecord → Option EventRecord
nth n [] = none
nth zero (e ∷ rest) = some e
nth (suc n) (e ∷ rest) = nth n rest

abbrev pub begun : Result IntakeError Prepared → Office → Office
begun (ok (ready e)) o = record o { in_flight = o.in_flight ++ (e ∷ []) }
begun (ok (known receipt)) o = o
begun (err e) o = o

abbrev pub committed : ℕ → Option EventRecord → Office → Office
committed n none o = o
committed n (some e) o = record {
  events = add_event e o.events;
  in_flight = taken_off n o.in_flight;
}

unfoldable pub office_after : Step → Office → Office
unfolding prepare add_event
office_after (begin env raw) o = begun (prepare env raw o.events).0 o
office_after (commit n) o = committed n (nth n o.in_flight) o

unfoldable pub office_after_all : List Step → Office → Office
unfolding office_after
office_after_all [] o = o
office_after_all (s ∷ steps) o = office_after_all steps (office_after s o)

-- The record of an event that was routed to a member.
pub record IsRouted (e : EventRecord) : Type 0 where
  pub target : String
  pub named : target_of e.input ≡ some target
  pub result :
      e.result
      ≡ some record {
        kind = "intake_event_routed";
        category = e.input.category;
        target_member_id = target;
      }

pub record IsOrderly (o : Office) : Type 0 where
  pub distinct_keys : HasDistinctIds event_key o.events
  pub routed : All IsRouted o.events
  pub routed_in_flight : All IsRouted o.in_flight

found_first :
    (k : String) (e : EventRecord) (events : List EventRecord)
    → (event_key e == k) ≡ true
    → find_by event_key k (e ∷ events) ≡ some e
unfolding find_by
found_first k e events t = rw t refl

not_first :
    (k : String) (e : EventRecord) (events : List EventRecord)
    → (event_key e == k) ≡ false
    → find_by event_key k (e ∷ events) ≡ find_by event_key k events
unfolding find_by
not_first k e events f = rw f refl

find_by-none :
    (k : String) (events : List EventRecord)
    → find_by event_key k events ≡ none
    → All (λ e. event_key e ≢ k) events
unfolding find_by
find_by-none k [] h = tt
find_by-none k (e ∷ events) h = elim (Bool-cases (event_key e == k)) [
  | inl t ↦ absurd (none-ne-some e (sym h ∙ found_first k e events t))
  | inr f ↦ (
    λ same. false≢true (sym f ∙ (eq_iff (event_key e) k).1 same),
    find_by-none k events (sym (not_first k e events f) ∙ h),
  )
]

append-HasDistinctIds :
    (e : EventRecord) (events : List EventRecord)
    → HasDistinctIds event_key events
    → All (λ x. event_key x ≢ event_key e) events
    → HasDistinctIds event_key (events ++ (e ∷ []))
append-HasDistinctIds e [] h k = (tt, tt)
append-HasDistinctIds e (x ∷ events) (n, h) (m, k) = (
  All-append (λ y. event_key y ≢ event_key x) events (e ∷ []) n ((λ same. m (sym same)), tt),
  append-HasDistinctIds e events h k,
)

pub add_event-distinct :
    (e : EventRecord) (events : List EventRecord)
    → HasDistinctIds event_key events
    → HasDistinctIds event_key (add_event e events)
unfolding add_event
add_event-distinct e events h = elim (Option-cases (find_by event_key (event_key e) events)) [
  | inl n ↦ rw n (append-HasDistinctIds e events h (find_by-none (event_key e) events n))
  | inr (x, f) ↦ rw f h
]

pub add_event-All :
    (e : EventRecord) (events : List EventRecord)
    → All IsRouted events
    → IsRouted e
    → All IsRouted (add_event e events)
unfolding add_event
add_event-All e events h r = elim (Option-cases (find_by event_key (event_key e) events)) [
  | inl n ↦ rw n (All-append IsRouted events (e ∷ []) h (r, tt))
  | inr (x, f) ↦ rw f h
]
