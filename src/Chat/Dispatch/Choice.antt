-- ===== src/Chat/Dispatch/Choice.antt =====
-- resolveTargetCandidate and buildTinyOfficeChatTurnDispatches of
-- src/runtime/realtime/tinyoffice-chat-dispatch-decision.ts.
use tiny_office.Prelude.{
  ℕ, zero, suc, ◌%◌, String, Bool, true, Option, none, some, List, [], ◌∷◌, not, ◌==◌, any, filter,
  head?, length, map, or_else, sort,
}
use tiny_office.Prelude.Text.{trim, join}
use tiny_office.Prelude.Exec.{pure, guard, choose, ◌>>=◌, ◌>>◌}
use tiny_office.Chat.Language.{resolve_preferred_language, prefers_chinese}
use tiny_office.Chat.Dispatch.{
  DispatchReason, mentioned_member, direct_room_peer, stable_random_topic_member, IgnoredReason,
  actor_message_not_routable, no_target_member, unknown_target_member, ConversationKind, direct,
  shared, topic, SceneType, DispatchInput, DispatchDecision, routable, ignored, company_mismatch,
  room_mismatch, Hashing, Decide, TargetCandidate, is_given, unique_strings, trim_required,
  scene_text, scene_type_from_conversation, build_event_key, build_chain_id,
}

abbrev pub includes_text : List String → String → Bool
includes_text ids id = any (λ x. x == id) ids

-- `knownMemberIds`
abbrev pub known_member_ids : Option (List String) → Option (List String)
known_member_ids none = none
known_member_ids (some ids) = some (filter is_given (map trim ids))

-- `!knownMemberIds || knownMemberIds.has(id)`
abbrev pub is_known : Option (List String) → String → Bool
is_known none id = true
is_known (some ids) id = includes_text ids id

abbrev pub is_other : String → String → Bool
is_other actor id = not (id == actor)

abbrev pub other_participants : DispatchInput → String → List String
other_participants input actor =
    filter (is_other actor) (unique_strings (filter is_given input.conversation.participants))

abbrev pub item_at : ℕ → List String → Option String
item_at n [] = none
item_at zero (x ∷ xs) = some x
item_at (suc n) (x ∷ xs) = item_at n xs

abbrev pub candidate_for : DispatchReason → Option String → Option TargetCandidate
candidate_for reason none = none
candidate_for reason (some id) = some record { member_id = id; reason = reason }

-- The number of the eligible member to take.
abbrev pub index_for : Hashing → DispatchInput → ℕ → ℕ
index_for h input n =
    h.digest_number (join (input.company_id ∷ ":" ∷ input.room_id ∷ ":" ∷ input.message_id ∷ []))
    % n

abbrev pub pick : Hashing → DispatchInput → List String → Option TargetCandidate
pick h input [] = none
pick h input (x ∷ xs) =
    candidate_for stable_random_topic_member
      (item_at (index_for h input (length (x ∷ xs))) (x ∷ xs))

abbrev pub peer_or_member :
    Hashing
    → DispatchInput
    → Option (List String)
    → ConversationKind
    → List String
    → Option TargetCandidate
peer_or_member h input known direct others = candidate_for direct_room_peer (head? others)
peer_or_member h input known shared others =
    pick h input (sort h.order (filter (is_known known) others))
peer_or_member h input known topic others =
    pick h input (sort h.order (filter (is_known known) others))

abbrev pub mentioned_or : List String → Option TargetCandidate → Option TargetCandidate
mentioned_or [] rest = rest
mentioned_or (id ∷ ids) rest = some record { member_id = id; reason = mentioned_member }

unfoldable pub resolve_target_candidate :
    Hashing → DispatchInput → String → Option (List String) → Option TargetCandidate
resolve_target_candidate h input actor known =
    mentioned_or (unique_strings (or_else input.mentioned_member_ids [])) (
      peer_or_member h input known input.conversation.conversation_kind
        (other_participants input actor))

-- `ignored`
unfoldable pub ignore :
    DispatchInput → IgnoredReason → Option String → Decide (List DispatchDecision)
unfolding build_event_key
ignore input reason target = do
  actor ← trim_required input.actor_member_id "actorMemberId"
  event_key ← build_event_key input (or_else target actor)
  company_id ← trim_required (some input.company_id) "companyId"
  room_id ← trim_required (some input.room_id) "roomId"
  message_id ← trim_required (some input.message_id) "messageId"
  pure (
      ignored record {
        source = input.source;
        reason = reason;
        event_key = event_key;
        company_id = company_id;
        room_id = room_id;
        message_id = message_id;
        actor_member_id = actor;
        target_member_id = target;
      }
      ∷ [])

-- The parts of an event that are given, trimmed.
pub record Turn : Type 0 where
  pub company_id : String
  pub room_id : String
  pub actor : String
  pub message_id : String
  pub message : String
  pub scene : SceneType

-- `...(input.entryId ? { entryId: trimRequired(input.entryId, "entryId") } : {})`
abbrev pub entry_part : Option String → Decide (Option String)
entry_part none = pure none
entry_part (some s) =
    choose (s == "") (pure none) (do t ← trim_required (some s) "entryId"; pure (some t))

unfoldable pub route : DispatchInput → Turn → TargetCandidate → Decide (List DispatchDecision)
unfolding build_event_key build_chain_id
route input turn candidate = do
  event_key ← build_event_key input candidate.member_id
  chain_id ← build_chain_id input
  entry_id ← entry_part input.entry_id
  pure (
      routable record {
        source = input.source;
        reason = candidate.reason;
        event_key = event_key;
        chain_id = chain_id;
        company_id = turn.company_id;
        room_id = turn.room_id;
        entry_id = entry_id;
        message_id = turn.message_id;
        actor_member_id = turn.actor;
        target_member_id = candidate.member_id;
        normalized_message = turn.message;
        preferred_language = resolve_preferred_language turn.message input.default_language;
        prefers_chinese =
            prefers_chinese (resolve_preferred_language turn.message input.default_language);
        scene_type = turn.scene;
        session_key =
            join (candidate.member_id ∷ "|" ∷ scene_text turn.scene ∷ "|" ∷ turn.room_id ∷ []);
      }
      ∷ [])

unfoldable pub decide_target :
    DispatchInput
    → Turn
    → Option (List String)
    → Option TargetCandidate
    → Decide (List DispatchDecision)
unfolding ignore route
decide_target input turn known none = ignore input no_target_member none
decide_target input turn known (some candidate) =
    choose (candidate.member_id == turn.actor)
      (ignore input actor_message_not_routable (some candidate.member_id))
      (choose (is_known known candidate.member_id) (route input turn candidate)
        (ignore input unknown_target_member (some candidate.member_id)))

unfoldable pub check_turn : DispatchInput → Decide Turn
unfolding trim_required
check_turn input = do
  company_id ← trim_required (some input.company_id) "companyId"
  room_id ← trim_required (some input.room_id) "roomId"
  actor ← trim_required input.actor_member_id "actorMemberId"
  message_id ← trim_required (some input.message_id) "messageId"
  message ← trim_required (some input.body) "body"
  guard (input.conversation.company_id == company_id) company_mismatch
  guard (input.conversation.conversation_id == room_id) room_mismatch
  scene ← scene_type_from_conversation input.conversation.conversation_kind
  pure record {
    company_id = company_id;
    room_id = room_id;
    actor = actor;
    message_id = message_id;
    message = message;
    scene = scene;
  }

-- `buildTinyOfficeChatTurnDispatches`
unfoldable pub build_dispatches : Hashing → DispatchInput → Decide (List DispatchDecision)
unfolding check_turn decide_target resolve_target_candidate
build_dispatches h input = do
  turn ← check_turn input
  let known = known_member_ids input.employee_ids
  decide_target input turn known (resolve_target_candidate h input turn.actor known)
