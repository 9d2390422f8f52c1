-- ===== src/Chat/Dispatch/Tests.antt =====
-- Tests of src/runtime/realtime/tinyoffice-chat-dispatch-decision.ts.
use tiny_office.Prelude.{
  String, Ordering, ◌≡◌, refl, true, none, some, List, [], ◌∷◌, inl, filter, any,
}
use tiny_office.Prelude.Members.{IsIn}
use tiny_office.Prelude.Text.{trim}
use tiny_office.Prelude.Exec.{ok}
use tiny_office.Topics.Domain.{distinct}
use tiny_office.Chat.Dispatch.{
  chat_room_message, stable_random_topic_member, topic, DispatchInput, DispatchDecision, Hashing,
  unique_strings,
}
use tiny_office.Chat.Dispatch.Choice.{
  is_known, known_member_ids, other_participants, resolve_target_candidate, build_dispatches,
}
use tiny_office.Chat.Dispatch.Safety.{resolve_target_candidate-topic}
use tiny_office.Chat.Dispatch.Targets.{IsOneDecision}
use tiny_office.Chat.Dispatch.Answers.{IsWellFormed, build_dispatches-answers}

abbrev hashing : Hashing
hashing = record { digest_number = λ s. 7; order = λ a b. Ordering.eq }

abbrev hello : DispatchInput
hello = record {
  source = chat_room_message;
  company_id = "acme";
  room_id = "r";
  actor_member_id = some "ann";
  message_id = "m";
  body = " hello ";
  mentioned_member_ids = none;
  entry_id = none;
  conversation = record {
    company_id = "acme";
    conversation_id = "r";
    conversation_kind = topic;
    participants = "ann" ∷ "bob" ∷ "eve" ∷ [];
  };
  employee_ids = some ("bob" ∷ []);
  default_language = none;
  attempt_id = none;
}

hello-IsWellFormed : IsWellFormed hello
unfolding trim
hello-IsWellFormed = record {
  company = "acme";
  room = "r";
  actor = "ann";
  message_id = "m";
  message = "hello";
  company_given = refl;
  room_given = refl;
  actor_given = refl;
  message_id_given = refl;
  message_given = refl;
  same_company = refl;
  same_room = refl;
  decidable = tt;
  attempt = tt;
  entry = tt;
}

build_dispatches-answers_example :
    (ds : List DispatchDecision) × (build_dispatches hashing hello tt ≡ (ok ds, tt))
    × IsOneDecision hashing hello ds
build_dispatches-answers_example = build_dispatches-answers hashing hello hello-IsWellFormed

no_mention : unique_strings [] ≡ []
unfolding unique_strings distinct filter
no_mention = refl

bob_listens : IsIn "bob" (other_participants hello "ann")
unfolding unique_strings distinct filter trim
bob_listens = inl refl

bob_is_known : is_known (known_member_ids hello.employee_ids) "bob" ≡ true
unfolding filter trim any
bob_is_known = refl

resolve_target_candidate-topic_example :
    (x : String) × (resolve_target_candidate hashing hello "ann"
        (known_member_ids hello.employee_ids)
      ≡ some record { member_id = x; reason = stable_random_topic_member })
    × IsIn x (other_participants hello "ann")
    × (is_known (known_member_ids hello.employee_ids) x ≡ true)
resolve_target_candidate-topic_example =
    resolve_target_candidate-topic hashing hello "ann" (known_member_ids hello.employee_ids) "bob"
      no_mention refl bob_listens bob_is_known
