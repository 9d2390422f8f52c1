-- ===== src/Topics/Domain.antt =====
-- src/channel-topics/domain/channel-topic.ts, channel-topic-state.ts and
-- channel-topic-normalization.ts. The one value of `identitySource` is left out, and `updatedAt`, which
-- no stored topic has. Times are ISO texts.
use tiny_office.Prelude.{
  String, Bool, Option, none, some, List, [], ◌∷◌, not, ◌==◌, filter, or_else, first_some, is_some,
  if◌then◌else◌,
}
use tiny_office.Prelude.Text.{nonempty, optional_text}

-- `ChannelTopicSeenCursor`
pub record SeenCursor : Type 0 where
  pub post_id : Option String
  pub room_id : Option String
  pub message_id : Option String
  pub seen_at : String

-- A property of `seenCursors`.
pub record MemberCursor : Type 0 where
  pub member_id : String
  pub cursor : SeenCursor

pub record ChannelTopic : Type 0 where
  pub id : String
  pub room_id : Option String
  pub conversation_id : Option String
  pub chat_entry_id : Option String
  pub participant_ids : List String
  pub owner_id : String
  pub last_activity_at : String
  pub seen_cursors : Option (List MemberCursor)

pub record Handoff : Type 0 where
  pub id : String
  pub topic_id : String
  pub room_id : Option String
  pub conversation_id : Option String
  pub chat_entry_id : Option String
  pub action_id : Option String
  pub from_id : String
  pub to_id : String
  pub message : String
  pub created_at : String

pub record ChannelTopicState : Type 0 where
  pub channel_topics : List ChannelTopic
  pub handoffs : List Handoff

-- `createEmptyChannelTopicState`
abbrev pub no_topics : ChannelTopicState
no_topics = record { channel_topics = []; handoffs = [] }

-- The clock, and the ISO text of a time that `Date` reads, `none` for `NaN`. A call has one reading of
-- the clock, where the source reads it again for each time that it replaces.
pub record TopicEnvironment : Type 0 where
  pub now : String
  pub iso_text : String → Option String
  -- the end of a hand-over's id: the clock and a random text
  pub suffix : String

-- `new Set(values)` as an array: each value at its first place
abbrev pub is_not : String → String → Bool
is_not x y = not (y == x)

unfoldable pub distinct : List String → List String
distinct [] = []
distinct (x ∷ xs) = x ∷ filter (is_not x) (distinct xs)

-- `value || fallback`
abbrev pub text_or : String → String → String
text_or value fallback = if value == "" then fallback else value

abbrev pub iso_or_now : TopicEnvironment → Option String → String
iso_or_now env none = env.now
iso_or_now env (some value) = or_else (env.iso_text value) env.now

unfoldable pub normalize_timestamp : TopicEnvironment → String → String
normalize_timestamp env value = iso_or_now env (nonempty value)

abbrev pub has_identity : Option String → Option String → Option String → Bool
has_identity a b c = is_some (first_some a (first_some b c))

-- `normalizeSeenCursors`: a cursor without any id is dropped, and no cursors are no object.
unfoldable pub normalize_cursor_list : TopicEnvironment → List MemberCursor → List MemberCursor
unfolding normalize_timestamp
normalize_cursor_list env [] = []
normalize_cursor_list env (m ∷ rest) =
    let cursors = normalize_cursor_list env rest in
    let post_id = optional_text m.cursor.post_id in
    let room_id = optional_text m.cursor.room_id in
    let message_id = optional_text m.cursor.message_id in
    if has_identity post_id room_id message_id
    then record {
      member_id = m.member_id;
      cursor = record {
        post_id = post_id;
        room_id = room_id;
        message_id = message_id;
        seen_at = normalize_timestamp env m.cursor.seen_at;
      };
    }
      ∷ cursors
    else cursors

abbrev pub some_cursors : List MemberCursor → Option (List MemberCursor)
some_cursors [] = none
some_cursors (m ∷ rest) = some (m ∷ rest)

unfoldable pub normalize_seen_cursors :
    TopicEnvironment → Option (List MemberCursor) → Option (List MemberCursor)
unfolding normalize_cursor_list
normalize_seen_cursors env none = none
normalize_seen_cursors env (some cursors) = some_cursors (normalize_cursor_list env cursors)

unfoldable pub normalize_channel_topic_input : TopicEnvironment → ChannelTopic → ChannelTopic
unfolding normalize_timestamp normalize_seen_cursors distinct
normalize_channel_topic_input env topic =
    let owner_id = text_or topic.owner_id "unknown-owner" in
    let room_id = optional_text topic.room_id in
    record {
      id = text_or topic.id "unknown-topic";
      room_id = room_id;
      conversation_id = first_some (optional_text topic.conversation_id) room_id;
      chat_entry_id = optional_text topic.chat_entry_id;
      participant_ids = distinct (owner_id ∷ topic.participant_ids);
      owner_id = owner_id;
      last_activity_at = normalize_timestamp env topic.last_activity_at;
      seen_cursors = normalize_seen_cursors env topic.seen_cursors;
    }
