-- ===== src/Topics/Tests.antt =====
-- Tests of src/channel-topics.
use tiny_office.Prelude.{
  String, ◌≡◌, refl, sym, ◌⊎◌, inl, inr, Bool, true, false, ◌||◌, Option, none, some, List, [], ◌∷◌,
  find_by, filter, any, ◌==◌, if◌then◌else◌,
}
use mathlib.Core.Option.{some-injective}
use tiny_office.Prelude.Text.{trim}
use tiny_office.Prelude.Exec.{ok}
use tiny_office.Topics.Domain.{
  ChannelTopic, ChannelTopicState, TopicEnvironment, no_topics, distinct,
  normalize_channel_topic_input,
}
use tiny_office.Topics.Service.{
  topic_not_found, stored_topic, has_owned_topic_identity, save_topic, get_topic,
}
use tiny_office.Topics.Routing.{HandoffInput, includes, apply_handoff}
use tiny_office.Topics.Normal.{WritesIso, at_time, IsTimeOf, save_topic-get_topic}
use tiny_office.Topics.Handoffs.{
  found_broken, topic_at, refused, apply_handoff-refused, IsHandedOver, apply_handoff-accepted,
}
use tiny_office.Topics.Invariant.{
  AreTopicsSound, TopicCall, ensure, hand, topics_after_all, topics_after_all-AreTopicsSound,
}

abbrev clock : TopicEnvironment
clock = record { now = "now"; iso_text = some; suffix = "x" }

abbrev raw_topic : ChannelTopic
raw_topic = record {
  id = "t";
  room_id = some " r ";
  conversation_id = none;
  chat_entry_id = none;
  participant_ids = "bob" ∷ "ann" ∷ "bob" ∷ [];
  owner_id = "ann";
  last_activity_at = "before";
  seen_cursors = none;
}

abbrev stored : ChannelTopicState
stored = record { channel_topics = raw_topic ∷ []; handoffs = [] }

abbrev to_bob : HandoffInput
to_bob = record { topic_id = "t"; from_id = "ann"; to_id = "bob"; message = " please " }

normal_participants :
    (normalize_channel_topic_input clock raw_topic).participant_ids ≡ "ann" ∷ "bob" ∷ []
unfolding normalize_channel_topic_input distinct filter
normal_participants = refl

found : stored_topic "t" stored ≡ some raw_topic
unfolding find_by
found = refl

has_room : has_owned_topic_identity (normalize_channel_topic_input clock raw_topic) ≡ true
unfolding normalize_channel_topic_input trim
has_room = refl

bob_takes_part :
    includes (normalize_channel_topic_input clock raw_topic).participant_ids "bob" ≡ true
unfolding normalize_channel_topic_input distinct filter any
bob_takes_part = refl

ann_owns : ((normalize_channel_topic_input clock raw_topic).owner_id == "ann") ≡ true
unfolding normalize_channel_topic_input
ann_owns = refl

apply_handoff-accepted_example :
    IsHandedOver clock to_bob stored
      (normalize_channel_topic_input clock raw_topic)
      (apply_handoff clock to_bob stored)
apply_handoff-accepted_example =
    apply_handoff-accepted clock to_bob stored raw_topic found has_room ann_owns bob_takes_part refl

missing : found_broken to_bob (topic_at clock "t" no_topics) ≡ some (topic_not_found "t")
unfolding find_by
missing = refl

apply_handoff-refused_example :
    apply_handoff clock to_bob no_topics ≡ (refused (topic_not_found "t"), no_topics)
apply_handoff-refused_example =
    apply_handoff-refused clock to_bob no_topics (topic_not_found "t") missing

-- Two days that `Date` reads as dates and as its own texts.
abbrev first_day : String
first_day = "2026-03-01T00:00:00.000Z"

abbrev second_day : String
second_day = "2026-03-02T00:00:00.000Z"

abbrev read_day : String → Option String
read_day x =
    if x == "2026-03-01" || x == first_day
    then some first_day
    else (if x == second_day then some second_day else none)

abbrev writer : TopicEnvironment
writer = record { now = second_day; iso_text = read_day; suffix = "x" }

one_of :
    (a b : Bool) (y : String)
    → (if a then some first_day else (if b then some second_day else none)) ≡ some y
    → (y ≡ first_day) ⊎ (y ≡ second_day)
one_of true b y e = inl (sym (some-injective _ _ e))
one_of false true y e = inr (sym (some-injective _ _ e))
one_of false false y e = cc

read_day-cases : (x y : String) → read_day x ≡ some y → (y ≡ first_day) ⊎ (y ≡ second_day)
read_day-cases x y e = one_of (x == "2026-03-01" || x == first_day) (x == second_day) y e

read_day-WritesIso : WritesIso read_day
read_day-WritesIso = record {
  text = λ x y e. elim (read_day-cases x y e) [ inl h ↦ rw h refl | inr h ↦ rw h refl ];
  given = λ x y e. elim (read_day-cases x y e) [ inl h ↦ rw h refl | inr h ↦ rw h refl ];
}

abbrev dated_topic : ChannelTopic
dated_topic = record raw_topic { last_activity_at = "2026-03-01" }

writer_room : has_owned_topic_identity (normalize_channel_topic_input writer dated_topic) ≡ true
unfolding normalize_channel_topic_input trim
writer_room = refl

save_topic-get_topic_example :
    let saved = normalize_channel_topic_input writer dated_topic in
    let r = save_topic writer dated_topic no_topics in
    (r.0 ≡ ok saved)
    × (get_topic (at_time "2026-03-03T00:00:00.000Z" "y" writer) saved.id r.1
        ≡ (ok (some saved), r.1))
    × IsTimeOf writer "2026-03-01" saved.last_activity_at
save_topic-get_topic_example =
    save_topic-get_topic writer dated_topic no_topics "2026-03-03T00:00:00.000Z" "y"
      read_day-WritesIso refl writer_room

abbrev calls : List (TopicEnvironment × TopicCall)
calls =
    (
      clock,
      ensure record {
        channel_topic_id = "t";
        identity = record { room_id = some "r"; conversation_id = none; chat_entry_id = none };
        owner_id = "ann";
        participant_ids = "bob" ∷ [];
      },
    )
    ∷ (clock, hand to_bob)
    ∷ []

topics_after_all-AreTopicsSound_example : AreTopicsSound (topics_after_all calls no_topics)
topics_after_all-AreTopicsSound_example = topics_after_all-AreTopicsSound calls
