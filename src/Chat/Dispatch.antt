-- ===== src/Chat/Dispatch.antt =====
-- src/runtime/realtime/tinyoffice-chat-dispatch-decision.ts, with uniqueStrings and trimRequired of
-- tinyoffice-chat-turn-utils.ts. The sha256 digest and `localeCompare` are parameters. The search for
-- forbidden keys in the event is left out: no declared field has one.
pub mod Choice
pub mod Safety
pub mod Totality
pub mod Answers
pub mod Targets
pub mod Tests
use tiny_office.Prelude.{
  ℕ, zero, suc, ◌%◌, String, Ordering, Bool, true, false, Option, none, some, List, [], ◌∷◌, not,
  ◌&&◌, ◌||◌, ◌==◌, any, filter, head?, length, map, or_else, is_some, sort, if◌then◌else◌,
}
use tiny_office.Prelude.Text.{trim, nonempty, optional_text, join}
use tiny_office.Prelude.Exec.{
  Result, ok, err, Exec, pure, throw, require, guard, choose, ◌>>=◌, ◌>>◌,
}
use tiny_office.Topics.Domain.{distinct}
use tiny_office.Chat.Language.{resolve_preferred_language, prefers_chinese}

pub data DispatchSource : Type 0 where
  chat_entry chat_room_message : DispatchSource

pub data SceneType : Type 0 where
  chat_direct_room chat_topic_room : SceneType

pub data DispatchReason : Type 0 where
  mentioned_member direct_room_peer stable_random_topic_member formal_structured_handoff :
      DispatchReason

pub data IgnoredReason : Type 0 where
  actor_message_not_routable member_actor_missing_employee_binding no_target_member
        unknown_target_member :
      IgnoredReason

pub data ConversationKind : Type 0 where
  direct shared topic : ConversationKind

-- What the decision reads of `ConversationDto`: the participants by their member ids.
pub record Conversation : Type 0 where
  pub company_id : String
  pub conversation_id : String
  pub conversation_kind : ConversationKind
  pub participants : List String

pub record DispatchInput : Type 0 where
  pub source : DispatchSource
  pub company_id : String
  pub room_id : String
  pub actor_member_id : Option String
  pub message_id : String
  pub body : String
  pub mentioned_member_ids : Option (List String)
  pub entry_id : Option String
  pub conversation : Conversation
  pub employee_ids : Option (List String)
  pub default_language : Option String
  pub attempt_id : Option String

-- `inheritedImageMessageIds` is left out: the decision never sets it.
pub record DispatchReady : Type 0 where
  pub source : DispatchSource
  pub reason : DispatchReason
  pub event_key : String
  pub chain_id : String
  pub company_id : String
  pub room_id : String
  pub entry_id : Option String
  pub message_id : String
  pub actor_member_id : String
  pub target_member_id : String
  pub normalized_message : String
  pub preferred_language : String
  pub prefers_chinese : Bool
  pub scene_type : SceneType
  pub session_key : String

pub record DispatchIgnored : Type 0 where
  pub source : DispatchSource
  pub reason : IgnoredReason
  pub event_key : String
  pub company_id : String
  pub room_id : String
  pub message_id : String
  pub actor_member_id : String
  pub target_member_id : Option String

pub data DispatchDecision : Type 0 where
  routable : DispatchReady → DispatchDecision
  ignored : DispatchIgnored → DispatchDecision

pub data DispatchError : Type 0 where
  missing_field : String → DispatchError
  company_mismatch room_mismatch unsupported_kind : DispatchError

-- The digest's first number, and `localeCompare`.
pub record Hashing : Type 0 where
  pub digest_number : String → ℕ
  pub order : String → String → Ordering

-- A decision reads no state.
abbrev pub Decide : Type 0 → Type 0
Decide A = Exec DispatchError Unit A

unfoldable pub trim_required : Option String → String → Decide String
trim_required value field_name = require (optional_text value) (missing_field field_name)

abbrev pub is_given : String → Bool
is_given s = not (s == "")

-- `[...new Set(values.map((value) => value.trim()).filter(Boolean))]`
unfoldable pub unique_strings : List String → List String
unfolding distinct
unique_strings values = distinct (filter is_given (map trim values))

abbrev pub source_text : DispatchSource → String
source_text chat_entry = "chat_entry"
source_text chat_room_message = "chat_room_message"

abbrev pub scene_text : SceneType → String
scene_text chat_direct_room = "chat_direct_room"
scene_text chat_topic_room = "chat_topic_room"

abbrev pub scene_type_from_conversation : ConversationKind → Decide SceneType
scene_type_from_conversation direct = pure chat_direct_room
scene_type_from_conversation topic = pure chat_topic_room
scene_type_from_conversation shared = throw unsupported_kind

-- `...(value ? [trimRequired(value, name)] : [])`, with a colon before it
abbrev pub attempt_part : Option String → Decide String
attempt_part none = pure ""
attempt_part (some s) =
    choose (s == "") (pure "")
      (do t ← trim_required (some s) "attemptId"; pure (join (":" ∷ t ∷ [])))

unfoldable pub build_event_key : DispatchInput → String → Decide String
unfolding trim_required
build_event_key input target_member_id = do
  company_id ← trim_required (some input.company_id) "companyId"
  room_id ← trim_required (some input.room_id) "roomId"
  message_id ← trim_required (some input.message_id) "messageId"
  target ← trim_required (some target_member_id) "targetMemberId"
  attempt ← attempt_part input.attempt_id
  pure (
      join (
        "tinyoffice_chat:"
        ∷ source_text input.source
        ∷ ":"
        ∷ company_id
        ∷ ":"
        ∷ room_id
        ∷ ":"
        ∷ message_id
        ∷ ":"
        ∷ target
        ∷ attempt
        ∷ []))

unfoldable pub build_chain_id : DispatchInput → Decide String
unfolding trim_required
build_chain_id input = do
  company_id ← trim_required (some input.company_id) "companyId"
  room_id ← trim_required (some input.room_id) "roomId"
  message_id ← trim_required (some input.message_id) "messageId"
  attempt ← attempt_part input.attempt_id
  pure (
      join
        ("tinyoffice_chat_chain:" ∷ company_id ∷ ":" ∷ room_id ∷ ":" ∷ message_id ∷ attempt ∷ []))

pub record TargetCandidate : Type 0 where
  pub member_id : String
  pub reason : DispatchReason
