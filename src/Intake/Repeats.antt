-- ===== src/Intake/Repeats.antt =====
-- Events that are sent again (src/intake/intake-event-service.ts).
use mathlib.Core.Option.{none-ne-some}
use tiny_office.Prelude.{
  String, ◌≡◌, refl, sym, ap, ◌∙◌, true, none, some, List, [], ◌∷◌, ◌++◌, inl, inr, ◌==◌, eq_iff,
  find_by, Bool-cases, Option-cases, if◌then◌else◌,
}
use tiny_office.Prelude.Json.{Json}
use tiny_office.Prelude.Exec.{ok, pure, gets, modify, require, guard, ◌>>=◌}
use tiny_office.Intake.{
  EventInput, EventRecord, IntakeEnvironment, Receipt, duplicate, ready, event_key, idempotency_key,
  event_record, target_of, duplicate_receipt, processed_receipt, prepare, prepare_new,
  finish_ingest, ingest, add_event, normalize_input,
}

find_by-append :
    (k : String) (events : List EventRecord) (e : EventRecord)
    → find_by event_key k events ≡ none
    → event_key e ≡ k
    → find_by event_key k (events ++ (e ∷ [])) ≡ some e
unfolding find_by
find_by-append k [] e n same = rw ((eq_iff (event_key e) k).1 same) refl
find_by-append k (x ∷ events) e n same = elim (Bool-cases (event_key x == k)) [
  | inl t ↦
      absurd (none-ne-some x (sym n ∙ ap (λ b. if b then some x else find_by event_key k events) t))
  | inr f ↦ rw f (
      find_by-append k events e
        (sym (ap (λ b. if b then some x else find_by event_key k events) f) ∙ n) same)
]

-- A receipt, said to be for an event taken in before.
abbrev pub as_duplicate : Receipt → Receipt
as_duplicate r = record r { status = duplicate }

-- An event that has been stored under its key: taking it in again gives the receipt of that event.
stored-ingest :
    (env : IntakeEnvironment) (raw : Json) (input : EventInput) (e : EventRecord)
    (events : List EventRecord)
    → (normalize_input raw tt).0 ≡ ok input
    → find_by event_key (idempotency_key input) events ≡ some e
    → ingest env raw events ≡ (ok (duplicate_receipt e), events)
unfolding ingest prepare prepare_new finish_ingest gets pure ◌>>=◌
stored-ingest env raw input e events n f = rw (n, f) refl

-- The event is well formed and meant for an enabled member.
pub record IsAcceptable (env : IntakeEnvironment) (raw : Json) (input : EventInput) : Type 0 where
  pub target : String
  pub normal : (normalize_input raw tt).0 ≡ ok input
  pub named : target_of input ≡ some target
  pub enabled : env.validate_target_member_id target ≡ true

-- Two calls in a row: what the first returned and left, and the second.
pub record IsTakenOnce (env later : IntakeEnvironment) (raw : Json) (events : List EventRecord)
    : Type 0 where
  pub receipt : Receipt
  pub events_after : List EventRecord
  pub first : ingest env raw events ≡ (ok receipt, events_after)
  pub second : ingest later raw events_after ≡ (ok (as_duplicate receipt), events_after)

new-ingest :
    (env : IntakeEnvironment) (raw : Json) (input : EventInput) (events : List EventRecord)
    → (a : IsAcceptable env raw input) → find_by event_key (idempotency_key input) events ≡ none
    → ingest env raw events ≡ (
      ok (processed_receipt (event_record env input a.target)),
      events ++ (event_record env input a.target ∷ []),
    )
unfolding ingest prepare prepare_new finish_ingest add_event gets require guard modify pure ◌>>=◌
new-ingest env raw input events a n = rw (a.normal, n, a.named, a.enabled, n) refl

-- Taking in a well-formed event for an enabled member returns a receipt, and taking it in again, with
-- any clock and ids and whoever is enabled by then, returns the same receipt as a duplicate and changes
-- nothing.
pub ingest-twice :
    (env later : IntakeEnvironment) (raw : Json) (input : EventInput) (events : List EventRecord)
    → IsAcceptable env raw input
    → IsTakenOnce env later raw events
ingest-twice env later raw input events a =
    elim (Option-cases (find_by event_key (idempotency_key input) events)) [
      | inl n ↦ record {
        receipt = processed_receipt (event_record env input a.target);
        events_after = events ++ (event_record env input a.target ∷ []);
        first = new-ingest env raw input events a n;
        second = stored-ingest later raw input (event_record env input a.target) _ a.normal (
            find_by-append (idempotency_key input) events (event_record env input a.target) n refl);
      }
      | inr (e, f) ↦ record {
        receipt = duplicate_receipt e;
        events_after = events;
        first = stored-ingest env raw input e events a.normal f;
        second = stored-ingest later raw input e events a.normal f;
      }
    ]

new-prepare :
    (env : IntakeEnvironment) (raw : Json) (input : EventInput) (events : List EventRecord)
    → (a : IsAcceptable env raw input) → find_by event_key (idempotency_key input) events ≡ none
    → prepare env raw events ≡ (ok (ready (event_record env input a.target)), events)
unfolding prepare prepare_new gets require guard pure ◌>>=◌
new-prepare env raw input events a n = rw (a.normal, n, a.named, a.enabled) refl

-- Two calls on one shared store with one well-formed event for enabled members, whose key is not
-- stored, that both read the store before either adds its record: both return a receipt of a processed event, each with its
-- own id, and only the first record is stored.
pub ingest-race :
    (one two : IntakeEnvironment) (raw : Json) (input : EventInput) (events : List EventRecord)
    (a : IsAcceptable one raw input) (b : IsAcceptable two raw input)
    → find_by event_key (idempotency_key input) events ≡ none
    → let first = event_record one input a.target in
      let second = event_record two input b.target in
      (prepare one raw events ≡ (ok (ready first), events))
      × (prepare two raw events ≡ (ok (ready second), events))
      × (finish_ingest (ready first) events
          ≡ (ok (processed_receipt first), events ++ (first ∷ [])))
      × (finish_ingest (ready second) (events ++ (first ∷ []))
          ≡ (ok (processed_receipt second), events ++ (first ∷ [])))
unfolding finish_ingest add_event modify pure ◌>>=◌
ingest-race one two raw input events a b n = (
  new-prepare one raw input events a n,
  new-prepare two raw input events b n,
  rw n refl,
  rw (find_by-append (idempotency_key input) events (event_record one input a.target) n refl) refl,
)
