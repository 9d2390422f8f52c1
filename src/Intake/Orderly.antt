-- ===== src/Intake/Orderly.antt =====
-- What holds of the stored events however calls of IntakeEventService.ingest
-- (src/intake/intake-event-service.ts) interleave.
use tiny_office.Prelude.{
  ℕ, zero, suc, String, ◌≡◌, refl, Option, none, some, List, [], ◌∷◌, All, All-append, subst,
}
use mathlib.Core.Option.{some-injective}
use tiny_office.Prelude.Json.{Json}
use tiny_office.Prelude.Exec.{Result, ok, err}
use tiny_office.Prelude.Exec.Ensures.{
  Ensures, Returns, Ensures-pure, Ensures-gets, Ensures-require, Ensures-guard, Ensures-bind,
  Ensures-states,
}
use tiny_office.Intake.{
  EventInput, EventRecord, IntakeEnvironment, IntakeError, Prepared, known, ready, event_record,
  target_of, prepare, prepare_new, checked, normalize_input,
}
use tiny_office.Intake.Interleaving.{
  Office, closed_office, Step, begin, commit, taken_off, nth, begun, committed, office_after,
  office_after_all, IsRouted, IsOrderly, add_event-distinct, add_event-All,
}

-- A prepared record is routed.
PreparedWell : Prepared → Type 0
PreparedWell (known receipt) = Unit
PreparedWell (ready e) = IsRouted e

event_record-IsRouted :
    (env : IntakeEnvironment) (input : EventInput) (target : String)
    → target_of input ≡ some target
    → IsRouted (event_record env input target)
event_record-IsRouted env input target e = record { target = target; named = e; result = refl }

prepare_new-Ensures :
    (env : IntakeEnvironment) (input : EventInput) (o : Option EventRecord)
    → Ensures (λ _. Unit) (prepare_new env input o) PreparedWell
unfolding prepare_new PreparedWell
prepare_new-Ensures env input (some e) = Ensures-pure _ tt
prepare_new-Ensures env input none =
    Ensures-bind _ _ (Ensures-require (target_of input) _ λ target e. e) λ target e.
      Ensures-bind _ _ (Ensures-guard _ _)
        λ _ _. Ensures-pure _ (event_record-IsRouted env input target e)

prepare-Ensures :
    (env : IntakeEnvironment) (raw : Json) → Ensures (λ _. Unit) (prepare env raw) PreparedWell
unfolding prepare
prepare-Ensures env raw =
    Ensures-bind _ _ (Ensures-states (checked (normalize_input raw tt).0) λ _ u. u) λ input _.
      Ensures-bind {Q = λ _. Unit} _ _ (Ensures-gets _ λ _ _. tt)
        λ existing _. prepare_new-Ensures env input existing

begun-IsOrderly :
    (r : Result IntakeError Prepared) (o : Office)
    → Returns PreparedWell r
    → IsOrderly o
    → IsOrderly (begun r o)
unfolding PreparedWell
begun-IsOrderly (ok (ready e)) o k h = record {
  distinct_keys = h.distinct_keys;
  routed = h.routed;
  routed_in_flight = All-append IsRouted o.in_flight (e ∷ []) h.routed_in_flight (k, tt);
}
begun-IsOrderly (ok (known receipt)) o k h = h
begun-IsOrderly (err e) o k h = h

nth-All :
    (n : ℕ) (events : List EventRecord) (e : EventRecord)
    → All IsRouted events
    → nth n events ≡ some e
    → IsRouted e
nth-All n [] e h k = cc
nth-All zero (x ∷ rest) e (p, h) k = subst IsRouted (some-injective x e k) p
nth-All (suc n) (x ∷ rest) e (p, h) k = nth-All n rest e h k

taken_off-All :
    (n : ℕ) (events : List EventRecord) → All IsRouted events → All IsRouted (taken_off n events)
taken_off-All n [] h = tt
taken_off-All zero (x ∷ rest) (p, h) = h
taken_off-All (suc n) (x ∷ rest) (p, h) = (p, taken_off-All n rest h)

committed-IsOrderly :
    (n : ℕ) (found : Option EventRecord) (o : Office)
    → ((e : EventRecord) → found ≡ some e → IsRouted e)
    → IsOrderly o
    → IsOrderly (committed n found o)
committed-IsOrderly n none o k h = h
committed-IsOrderly n (some e) o k h = record {
  distinct_keys = add_event-distinct e o.events h.distinct_keys;
  routed = add_event-All e o.events h.routed (k e refl);
  routed_in_flight = taken_off-All n o.in_flight h.routed_in_flight;
}

office_after-IsOrderly : (s : Step) (o : Office) → IsOrderly o → IsOrderly (office_after s o)
unfolding office_after
office_after-IsOrderly (begin env raw) o h =
    begun-IsOrderly (prepare env raw o.events).0 o ((prepare-Ensures env raw).at o.events tt).1 h
office_after-IsOrderly (commit n) o h =
    committed-IsOrderly n (nth n o.in_flight) o
      (λ e k. nth-All n o.in_flight e h.routed_in_flight k) h

kept-IsOrderly :
    (steps : List Step) (o : Office) → IsOrderly o → IsOrderly (office_after_all steps o)
unfolding office_after_all
kept-IsOrderly [] o h = h
kept-IsOrderly (s ∷ steps) o h =
    kept-IsOrderly steps (office_after s o) (office_after-IsOrderly s o h)

-- However calls of the intake service interleave, from the empty store, no two stored events share a
-- key, and every stored event names the member it was routed to, in its input and in its result.
pub office_after_all-IsOrderly :
    (steps : List Step) → IsOrderly (office_after_all steps closed_office)
office_after_all-IsOrderly steps =
    kept-IsOrderly steps closed_office
      record { distinct_keys = tt; routed = tt; routed_in_flight = tt }
