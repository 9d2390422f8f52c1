-- ===== src/Topics/Routing.antt =====
-- routeToParticipant and applyHandoff of src/channel-topics/services/channel-topic-service.ts.
use tiny_office.Prelude.{String, Bool, none, List, [], ◌∷◌, ◌++◌, ◌==◌, any}
use tiny_office.Prelude.Text.{trim, join}
use tiny_office.Prelude.Exec.{pure, require, guard, ◌>>=◌, ◌>>◌}
use tiny_office.Topics.Domain.{ChannelTopic, Handoff, TopicEnvironment}
use tiny_office.Topics.Service.{
  Topics, topic_not_found, not_owner, not_participant, Identity, unique, get_topic, append_handoff,
  EnsureInput, saved_topic, ensure_channel_topic,
}

pub record RouteInput : Type 0 where
  pub channel_topic_id : String
  pub identity : Identity
  pub target_participant_id : String
  pub participant_ids : List String

abbrev pub ensure_input : RouteInput → EnsureInput
ensure_input input = record {
  channel_topic_id = input.channel_topic_id;
  identity = input.identity;
  owner_id = input.target_participant_id;
  participant_ids = input.participant_ids;
}

abbrev pub routed_topic : TopicEnvironment → RouteInput → ChannelTopic → ChannelTopic
routed_topic env input t = record t {
  participant_ids =
      unique (t.participant_ids ++ (input.target_participant_id ∷ input.participant_ids));
  owner_id = input.target_participant_id;
  last_activity_at = env.now;
}

unfoldable pub route_to_participant : TopicEnvironment → RouteInput → Topics ChannelTopic
unfolding ensure_channel_topic saved_topic
route_to_participant env input = do
  t ← ensure_channel_topic env (ensure_input input)
  saved_topic env (routed_topic env input t)

pub record HandoffInput : Type 0 where
  pub topic_id : String
  pub from_id : String
  pub to_id : String
  pub message : String

pub record HandedOff : Type 0 where
  pub topic : ChannelTopic
  pub handoff : Handoff

-- `createHandoffId`
abbrev pub create_handoff_id : TopicEnvironment → HandoffInput → String
create_handoff_id env input =
    join (
      "handoff-" ∷ input.topic_id ∷ "-" ∷ input.from_id ∷ "-" ∷ input.to_id ∷ "-" ∷ env.suffix ∷ [])

abbrev pub new_handoff : TopicEnvironment → HandoffInput → ChannelTopic → Handoff
new_handoff env input t = record {
  id = create_handoff_id env input;
  topic_id = input.topic_id;
  room_id = t.room_id;
  conversation_id = t.conversation_id;
  chat_entry_id = t.chat_entry_id;
  action_id = none;
  from_id = input.from_id;
  to_id = input.to_id;
  message = trim input.message;
  created_at = env.now;
}

abbrev pub handed_topic : TopicEnvironment → HandoffInput → ChannelTopic → ChannelTopic
handed_topic env input t = record t { owner_id = input.to_id; last_activity_at = env.now }

-- `participantIds.includes(id)`
abbrev pub includes : List String → String → Bool
includes ids id = any (λ x. x == id) ids

unfoldable pub apply_handoff : TopicEnvironment → HandoffInput → Topics HandedOff
unfolding get_topic saved_topic append_handoff
apply_handoff env input = do
  found ← get_topic env input.topic_id
  topic ← require found (topic_not_found input.topic_id)
  guard (topic.owner_id == input.from_id) (not_owner topic.owner_id input.from_id)
  guard (includes topic.participant_ids input.to_id) (not_participant input.to_id)
  updated ← saved_topic env (handed_topic env input topic)
  appended ← append_handoff (new_handoff env input topic)
  pure record { topic = handed_topic env input topic; handoff = new_handoff env input topic }
