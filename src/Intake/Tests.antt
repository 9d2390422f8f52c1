-- ===== src/Intake/Tests.antt =====
-- Tests of src/intake/intake-event-service.ts.
use tiny_office.Prelude.{String, ◌≡◌, refl, true, none, some, List, [], ◌∷◌, find_by}
use tiny_office.Prelude.Text.{trim}
use tiny_office.Prelude.Json.{Json, object, string, field, end, get_member}
use tiny_office.Prelude.Exec.{ok, pure, require, ◌>>=◌}
use tiny_office.Intake.{
  EventInput, IntakeEnvironment, ready, prepare, finish_ingest, processed_receipt, require_string,
  normalize_input, event_record, idempotency_key, event_key,
}
use tiny_office.Intake.Interleaving.{
  Step, begin, commit, closed_office, office_after_all, IsOrderly,
}
use tiny_office.Intake.Orderly.{office_after_all-IsOrderly}
use tiny_office.Intake.Keys.{idempotency_key-shifted}
use tiny_office.Intake.Repeats.{IsAcceptable, IsTakenOnce, ingest-twice, ingest-race}

abbrev drawing_id : String → IntakeEnvironment
drawing_id id = record {
  received_at = "t1";
  processed_at = "t2";
  event_id = id;
  validate_target_member_id = λ m. true;
}

abbrev mail : Json
mail = object (
    field "schemaVersion" (string "1") (
      field "source" (string "imap") (
        field "sourceEventId" (string "42") (
          field "category" (string "mail")
            (field "routing" (object (field "targetMemberId" (string "ann") end)) end)))))

abbrev mail_input : EventInput
mail_input = record {
  schema_version = "1";
  source = "imap";
  source_event_id = "42";
  category = "mail";
  event_type = none;
  routing = some record { target_member_id = some "ann" };
  priority = none;
  occurred_at = none;
  summary = none;
  payload = Json.undefined;
  metadata = none;
}

mail_normal : (normalize_input mail tt).0 ≡ ok mail_input
unfolding normalize_input require_string get_member trim require pure ◌>>=◌
mail_normal = refl

mail-IsAcceptable : (id : String) → IsAcceptable (drawing_id id) mail mail_input
mail-IsAcceptable id = record { target = "ann"; normal = mail_normal; named = refl; enabled = refl }

ingest-twice_example : IsTakenOnce (drawing_id "e1") (drawing_id "e2") mail []
ingest-twice_example =
    ingest-twice (drawing_id "e1") (drawing_id "e2") mail mail_input [] (mail-IsAcceptable "e1")

nothing_stored : find_by event_key (idempotency_key mail_input) [] ≡ none
unfolding find_by
nothing_stored = refl

ingest-race_example :
    let first = event_record (drawing_id "e1") mail_input "ann" in
    let second = event_record (drawing_id "e2") mail_input "ann" in
    (prepare (drawing_id "e1") mail [] ≡ (ok (ready first), []))
    × (prepare (drawing_id "e2") mail [] ≡ (ok (ready second), []))
    × (finish_ingest (ready first) [] ≡ (ok (processed_receipt first), first ∷ []))
    × (finish_ingest (ready second) (first ∷ []) ≡ (ok (processed_receipt second), first ∷ []))
ingest-race_example =
    ingest-race (drawing_id "e1") (drawing_id "e2") mail mail_input []
      (record { target = "ann"; normal = mail_normal; named = refl; enabled = refl })
      (record { target = "ann"; normal = mail_normal; named = refl; enabled = refl }) nothing_stored

abbrev steps : List Step
steps = begin (drawing_id "e1") mail ∷ begin (drawing_id "e2") mail ∷ commit 1 ∷ commit 0 ∷ []

office_after_all-IsOrderly_example : IsOrderly (office_after_all steps closed_office)
office_after_all-IsOrderly_example = office_after_all-IsOrderly steps

idempotency_key-shifted_example :
    idempotency_key (record mail_input { category = "mail|eu" })
    ≡ idempotency_key (record mail_input { source = "eu|imap" })
idempotency_key-shifted_example = idempotency_key-shifted mail_input "eu"
