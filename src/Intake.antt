-- ===== src/Intake.antt =====
-- src/intake: events from outside, taken in once under their keys (intake-event-service.ts, domain.ts,
-- and the in-memory part of postgres-intake-event-store.ts).
pub mod Interleaving
pub mod Orderly
pub mod Repeats
pub mod Keys
pub mod Tests
use tiny_office.Prelude.{
  ℕ, String, Bool, true, false, Option, none, some, List, [], ◌∷◌, ◌++◌, not, ◌||◌, ◌==◌, find_by,
  is_some, if◌then◌else◌,
}
use tiny_office.Prelude.Text.{trim, join}
use tiny_office.Prelude.Json.{
  Json, undefined, null, bool, number, string, array, object, Fields, get_member,
}
use tiny_office.Prelude.Exec.{
  Result, ok, err, Exec, pure, throw, gets, modify, require, guard, ◌>>=◌, ◌>>◌,
}

-- `IntakePriority`
pub data Priority : Type 0 where
  low normal high urgent : Priority

-- `IntakeProcessingStatus`
pub data ProcessingStatus : Type 0 where
  processed rejected : ProcessingStatus

-- `IntakeRouting`
pub record Routing : Type 0 where
  pub target_member_id : Option String

-- `IntakeEventInput`
pub record EventInput : Type 0 where
  pub schema_version : String
  pub source : String
  pub source_event_id : String
  pub category : String
  pub event_type : Option String
  pub routing : Option Routing
  pub priority : Option Priority
  pub occurred_at : Option String
  pub summary : Option String
  pub payload : Json
  pub metadata : Option Fields

-- `IntakeProcessingResult`, with the keys that the service writes
pub record ProcessingResult : Type 0 where
  pub kind : String
  pub category : String
  pub target_member_id : String

-- `IntakeEventRecord`
pub record EventRecord : Type 0 where
  pub id : String
  pub received_at : String
  pub processed_at : Option String
  pub status : ProcessingStatus
  pub input : EventInput
  pub result : Option ProcessingResult
  pub error : Option String

pub data ReceiptStatus : Type 0 where
  processed_now duplicate : ReceiptStatus

-- `IntakeEventReceipt`
pub record Receipt : Type 0 where
  pub status : ReceiptStatus
  pub event_id : String
  pub category : String
  pub event_type : Option String
  pub result : Option ProcessingResult

pub data IntakeError : Type 0 where
  not_an_object bad_priority : IntakeError
  field_required : String → IntakeError
  not_enabled_member : String → IntakeError

-- What one call takes from outside: the clock at its two readings, the id that it draws, and the test
-- of members.
pub record IntakeEnvironment : Type 0 where
  pub received_at : String
  pub processed_at : String
  pub event_id : String
  pub validate_target_member_id : String → Bool

abbrev pub Intake : Type 0 → Type 0
Intake A = Exec IntakeError (List EventRecord) A

abbrev as_object : Json → Option Fields
as_object (object fields) = some fields
as_object undefined = none
as_object null = none
as_object (bool b) = none
as_object (number n) = none
as_object (string s) = none
as_object (array items) = none

abbrev pub optional_string : Json → Option String
optional_string (string s) = if trim s == "" then none else some s
optional_string (object fields) = none
optional_string undefined = none
optional_string null = none
optional_string (bool b) = none
optional_string (number n) = none
optional_string (array items) = none

abbrev pub priority_of : String → Option Priority
priority_of s =
    if s == "low"
    then some low
    else if s == "normal"
    then some normal
    else if s == "high"
    then some high
    else if s == "urgent"
    then some urgent
    else none

-- The check of an event, which reads no state.
abbrev pub Check : Type 0 → Type 0
Check A = Exec IntakeError Unit A

abbrev known_priority : Option Priority → Check (Option Priority)
known_priority none = throw bad_priority
known_priority (some p) = pure (some p)

abbrev check_priority : Json → Check (Option Priority)
check_priority undefined = pure none
check_priority (string s) = known_priority (priority_of s)
check_priority null = throw bad_priority
check_priority (bool b) = throw bad_priority
check_priority (number n) = throw bad_priority
check_priority (array items) = throw bad_priority
check_priority (object fields) = throw bad_priority

unfoldable pub require_string : Json → String → Check String
require_string value name = require (optional_string value) (field_required name)

abbrev routing_of : Option Fields → Option Routing
routing_of none = none
routing_of (some fields) =
    some record { target_member_id = optional_string (get_member "targetMemberId" fields) }

unfoldable pub normalize_input : Json → Check EventInput
unfolding require_string
normalize_input value = do
  input ← require (as_object value) not_an_object
  priority ← check_priority (get_member "priority" input)
  schema_version ← require_string (get_member "schemaVersion" input) "schemaVersion"
  source ← require_string (get_member "source" input) "source"
  source_event_id ← require_string (get_member "sourceEventId" input) "sourceEventId"
  category ← require_string (get_member "category" input) "category"
  pure record {
    schema_version = schema_version;
    source = source;
    source_event_id = source_event_id;
    category = category;
    event_type = optional_string (get_member "eventType" input);
    routing = routing_of (as_object (get_member "routing" input));
    priority = priority;
    occurred_at = optional_string (get_member "occurredAt" input);
    summary = optional_string (get_member "summary" input);
    payload = get_member "payload" input;
    metadata = as_object (get_member "metadata" input);
  }

unfoldable pub idempotency_key : EventInput → String
idempotency_key input =
    join (input.category ∷ "|" ∷ input.source ∷ "|" ∷ input.source_event_id ∷ [])

abbrev pub event_key : EventRecord → String
event_key e = idempotency_key e.input

abbrev pub target_of : EventInput → Option String
target_of input = elim input.routing [ none ↦ none | some r ↦ r.target_member_id ]

abbrev pub duplicate_receipt : EventRecord → Receipt
duplicate_receipt e = record {
  status = duplicate;
  event_id = e.id;
  category = e.input.category;
  event_type = e.input.event_type;
  result = e.result;
}

abbrev pub processed_receipt : EventRecord → Receipt
processed_receipt e = record (duplicate_receipt e) { status = processed_now }

abbrev pub event_record : IntakeEnvironment → EventInput → String → EventRecord
event_record env input target = record {
  id = env.event_id;
  received_at = env.received_at;
  processed_at = some env.processed_at;
  status = processed;
  input = input;
  result =
      some record {
        kind = "intake_event_routed";
        category = input.category;
        target_member_id = target;
      };
  error = none;
}

-- Where `ingest` stands before it updates the store: a receipt, or a record to add.
pub data Prepared : Type 0 where
  known : Receipt → Prepared
  ready : EventRecord → Prepared

abbrev pub checked : Result IntakeError EventInput → Intake EventInput
checked r s = (r, s)

unfoldable pub prepare_new : IntakeEnvironment → EventInput → Option EventRecord → Intake Prepared
prepare_new env input (some e) = pure (known (duplicate_receipt e))
prepare_new env input none = do
  target ← require (target_of input) (field_required "routing.targetMemberId")
  guard (env.validate_target_member_id target) (not_enabled_member target)
  pure (ready (event_record env input target))

unfoldable pub prepare : IntakeEnvironment → Json → Intake Prepared
unfolding prepare_new
prepare env raw = do
  input ← checked (normalize_input raw tt).0
  existing ← gets (find_by event_key (idempotency_key input))
  prepare_new env input existing

abbrev pub added : EventRecord → Option EventRecord → List EventRecord → List EventRecord
added e (some twin) events = events
added e none events = events ++ (e ∷ [])

-- `store.update(…)`: add the record unless one has its key.
unfoldable pub add_event : EventRecord → List EventRecord → List EventRecord
add_event e events = added e (find_by event_key (event_key e) events) events

unfoldable pub finish_ingest : Prepared → Intake Receipt
unfolding add_event
finish_ingest (known receipt) = pure receipt
finish_ingest (ready e) = do modify (add_event e); pure (processed_receipt e)

unfoldable pub ingest : IntakeEnvironment → Json → Intake Receipt
unfolding prepare finish_ingest
ingest env raw = do prepared ← prepare env raw; finish_ingest prepared
