-- ===== src/Topics/Service.antt =====
-- src/channel-topics/repositories/channel-topic-repository.ts and
-- src/channel-topics/services/channel-topic-service.ts.
use mathlib.Core.Option
use tiny_office.Prelude.{
  String, Bool, true, false, Option, none, some, List, [], ◌∷◌, ◌++◌, not, ◌&&◌, ◌||◌, ◌==◌, filter,
  find_by, upsert, first_some, is_some, is_text,
}
use tiny_office.Prelude.Text.{trim, nonempty, optional_text}
use tiny_office.Prelude.Exec.{Exec, pure, gets, modify, choose, guard, ◌>>=◌, ◌>>◌}
use tiny_office.Topics.Domain.{
  ChannelTopic, Handoff, ChannelTopicState, TopicEnvironment, distinct,
  normalize_channel_topic_input,
}

pub data TopicError : Type 0 where
  no_identity : TopicError
  topic_not_found : String → TopicError
  not_owner : String → String → TopicError
  not_participant : String → TopicError

abbrev pub Topics : Type 0 → Type 0
Topics A = Exec TopicError ChannelTopicState A

abbrev pub topic_id : ChannelTopic → String
topic_id t = t.id

-- The repository.
abbrev option_text : Option String → Option String
option_text none = none
option_text (some s) = nonempty s

unfoldable pub normalize_handoff : Handoff → Handoff
normalize_handoff h = record h {
  room_id = option_text h.room_id;
  conversation_id = option_text h.conversation_id;
  chat_entry_id = option_text h.chat_entry_id;
  action_id = option_text h.action_id;
}

abbrev pub stored_topic : String → ChannelTopicState → Option ChannelTopic
stored_topic id s = find_by topic_id id s.channel_topics

unfoldable pub get_topic : TopicEnvironment → String → Topics (Option ChannelTopic)
get_topic env id = gets λ s. Option.map (normalize_channel_topic_input env) (stored_topic id s)

-- `hasOwnedTopicIdentity`: the ids of a normalised topic are not empty.
abbrev pub has_owned_topic_identity : ChannelTopic → Bool
has_owned_topic_identity t =
    is_some (first_some t.room_id (first_some t.conversation_id t.chat_entry_id))

abbrev pub put_topic : ChannelTopic → ChannelTopicState → ChannelTopicState
put_topic t s = record s { channel_topics = upsert topic_id t s.channel_topics }

unfoldable pub save_normalized : ChannelTopic → Topics ChannelTopic
save_normalized t = do guard (has_owned_topic_identity t) no_identity; modify (put_topic t); pure t

unfoldable pub save_topic : TopicEnvironment → ChannelTopic → Topics ChannelTopic
unfolding save_normalized
save_topic env topic = save_normalized (normalize_channel_topic_input env topic)

unfoldable pub append_handoff : Handoff → Topics Handoff
append_handoff h = do
  modify λ s. record s { handoffs = s.handoffs ++ (normalize_handoff h ∷ []) }
  pure (normalize_handoff h)

-- The service.
abbrev pub is_not_blank : String → Bool
is_not_blank value = not (trim value == "")

-- `unique`
abbrev pub unique : List String → List String
unique values = distinct (filter is_not_blank values)

pub record Identity : Type 0 where
  pub room_id : Option String
  pub conversation_id : Option String
  pub chat_entry_id : Option String

-- `a || b` where both may be undefined or empty
abbrev pub text_or_else : Option String → Option String → Option String
text_or_else a b = first_some (option_text a) b

abbrev pub identity_of : Identity → Identity
identity_of input =
    let room_id = optional_text (text_or_else input.room_id input.conversation_id) in
    record {
      room_id = room_id;
      conversation_id = optional_text (text_or_else input.conversation_id room_id);
      chat_entry_id = optional_text input.chat_entry_id;
    }

abbrev is_given : Identity → Bool
is_given i = is_some (first_some i.room_id (first_some i.conversation_id i.chat_entry_id))

unfoldable pub topic_identity_from : Identity → Topics Identity
topic_identity_from input = do
  guard (is_given (identity_of input)) no_identity
  pure (identity_of input)

-- `{ ...existing, ...mergeTopicIdentity(existing, next) }`
abbrev pub with_identity : Identity → ChannelTopic → ChannelTopic
with_identity next t = record t {
  room_id = first_some next.room_id t.room_id;
  conversation_id = first_some next.conversation_id t.conversation_id;
  chat_entry_id = first_some next.chat_entry_id t.chat_entry_id;
}

abbrev same_option : Option String → Option String → Bool
same_option none none = true
same_option none (some b) = false
same_option (some a) b = is_text b a

abbrev pub topic_identity_changed : ChannelTopic → ChannelTopic → Bool
topic_identity_changed left right =
    not (same_option left.room_id right.room_id)
    || not (same_option left.conversation_id right.conversation_id)
    || not (same_option left.chat_entry_id right.chat_entry_id)

-- The same texts at the same places.
abbrev pub same_texts : List String → List String → Bool
same_texts [] [] = true
same_texts [] (y ∷ ys) = false
same_texts (x ∷ xs) [] = false
same_texts (x ∷ xs) (y ∷ ys) = x == y && same_texts xs ys

pub record EnsureInput : Type 0 where
  pub channel_topic_id : String
  pub identity : Identity
  pub owner_id : String
  pub participant_ids : List String

abbrev pub new_topic : TopicEnvironment → EnsureInput → Identity → ChannelTopic
new_topic env input identity = record {
  id = input.channel_topic_id;
  room_id = identity.room_id;
  conversation_id = identity.conversation_id;
  chat_entry_id = identity.chat_entry_id;
  participant_ids = unique (input.owner_id ∷ input.participant_ids);
  owner_id = input.owner_id;
  last_activity_at = env.now;
  seen_cursors = none;
}

-- The topic with the participants and the identity added.
abbrev pub candidate_topic : EnsureInput → Identity → ChannelTopic → ChannelTopic
candidate_topic input identity existing = record (with_identity identity existing) {
  participant_ids = unique (existing.participant_ids ++ (input.owner_id ∷ input.participant_ids));
}

abbrev pub is_changed : ChannelTopic → ChannelTopic → Bool
is_changed existing candidate =
    not (same_texts candidate.participant_ids existing.participant_ids)
    || topic_identity_changed existing candidate

-- Save a topic and return it as it was before it is normalised.
unfoldable pub saved_topic : TopicEnvironment → ChannelTopic → Topics ChannelTopic
unfolding save_topic
saved_topic env topic = do normalized ← save_topic env topic; pure topic

-- The rest of `ensureChannelTopic`, for the topic that was found.
unfoldable pub ensure_topic :
    TopicEnvironment → EnsureInput → Identity → Option ChannelTopic → Topics ChannelTopic
unfolding saved_topic
ensure_topic env input identity none = saved_topic env (new_topic env input identity)
ensure_topic env input identity (some existing) =
    let candidate = candidate_topic input identity existing in
    choose (is_changed existing candidate)
      (saved_topic env (record candidate { last_activity_at = env.now })) (pure existing)

unfoldable pub ensure_channel_topic : TopicEnvironment → EnsureInput → Topics ChannelTopic
unfolding topic_identity_from get_topic ensure_topic
ensure_channel_topic env input = do
  identity ← topic_identity_from input.identity
  existing ← get_topic env input.channel_topic_id
  ensure_topic env input identity existing
