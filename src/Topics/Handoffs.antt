-- ===== src/Topics/Handoffs.antt =====
-- What applyHandoff (src/channel-topics/services/channel-topic-service.ts) does on each branch.
use mathlib.Core.Option
use mathlib.Core.Option.{some-injective, none-ne-some}
use tiny_office.Prelude.{
  String, ◌≡◌, refl, sym, ap, subst, first_some, ◌∙◌, Bool, true, false, Option, none, some, [],
  ◌∷◌, ◌++◌, inl, inr, ◌==◌, not, find_by-upsert_same, if◌then◌else◌, Option-cases, is_some,
}
use tiny_office.Prelude.Text.Trimming.{optional_text-twice}
use tiny_office.Topics.Normal.{conversation-twice, text_or-twice}
use tiny_office.Prelude.Exec.{Result, ok, err, pure, gets, modify, require, guard, ◌>>=◌, ◌>>◌}
use tiny_office.Topics.Domain.{
  ChannelTopic, ChannelTopicState, TopicEnvironment, distinct, text_or,
  normalize_channel_topic_input,
}
use tiny_office.Topics.Service.{
  TopicError, topic_not_found, not_owner, not_participant, topic_id, stored_topic, get_topic,
  has_owned_topic_identity, put_topic, save_normalized, save_topic, saved_topic, append_handoff,
  normalize_handoff,
}
use tiny_office.Topics.Routing.{
  HandoffInput, HandedOff, new_handoff, handed_topic, includes, apply_handoff,
}

-- The rule that a hand-over of a topic breaks first, if it breaks one.
abbrev pub broken_rule : HandoffInput → ChannelTopic → Option TopicError
broken_rule input t =
    if not (t.owner_id == input.from_id)
    then some (not_owner t.owner_id input.from_id)
    else if not (includes t.participant_ids input.to_id)
    then some (not_participant input.to_id)
    else none

abbrev pub found_broken : HandoffInput → Option ChannelTopic → Option TopicError
found_broken input none = some (topic_not_found input.topic_id)
found_broken input (some t) = broken_rule input t

-- The topic that the service works on: the stored one, normalised.
abbrev pub topic_at : TopicEnvironment → String → ChannelTopicState → Option ChannelTopic
topic_at env id s = Option.map (normalize_channel_topic_input env) (stored_topic id s)

abbrev pub refused : TopicError → Result TopicError HandedOff
refused e = err e

-- The run up to the writes, for a topic that was found, by the two tests on it.
module _ (env : TopicEnvironment) (input : HandoffInput) (s : ChannelTopicState)
    (t : ChannelTopic) where
  stored-run : Bool → Bool → Result TopicError HandedOff × ChannelTopicState
  stored-run a b =
      ((do
        guard a (not_owner t.owner_id input.from_id)
        guard b (not_participant input.to_id)
        updated ← saved_topic env (handed_topic env input t)
        appended ← append_handoff (new_handoff env input t)
        pure record { topic = handed_topic env input t; handoff = new_handoff env input t })
        s)

  stored-refused :
      (a b : Bool) (e : TopicError)
      → (if not a
          then some (not_owner t.owner_id input.from_id)
          else if not b
          then some (not_participant input.to_id)
          else none)
        ≡ some e
      → stored-run a b ≡ (refused e, s)
  unfolding stored-run guard ◌>>=◌
  stored-refused false b e h = ap (λ x. (refused x, s)) (some-injective _ e h)
  stored-refused true false e h = ap (λ x. (refused x, s)) (some-injective _ e h)
  stored-refused true true e h = absurd (none-ne-some e h)

  found-run :
      topic_at env input.topic_id s ≡ some t
      → apply_handoff env input s
        ≡ stored-run (t.owner_id == input.from_id) (includes t.participant_ids input.to_id)
  unfolding stored-run apply_handoff get_topic gets require guard ◌>>=◌
  found-run found = rw found refl

-- A hand-over that breaks a rule (the topic is missing, the sender is not its owner, or the receiver
-- does not take part) throws the error of the first rule broken and changes nothing.
pub apply_handoff-refused :
    (env : TopicEnvironment) (input : HandoffInput) (s : ChannelTopicState) (e : TopicError)
    → found_broken input (topic_at env input.topic_id s) ≡ some e
    → apply_handoff env input s ≡ (refused e, s)
unfolding apply_handoff get_topic gets require ◌>>=◌
apply_handoff-refused env input s e h = elim (Option-cases (topic_at env input.topic_id s)) [
  | inl n ↦
      rw n (ap (λ x. (refused x, s)) (some-injective _ e (ap (found_broken input) (sym n) ∙ h)))
  | inr (t, found) ↦
      found-run env input s t found
      ∙ stored-refused env input s t (t.owner_id == input.from_id)
          (includes t.participant_ids input.to_id) e (ap (found_broken input) (sym found) ∙ h)
]

saved-run :
    (env : TopicEnvironment) (t : ChannelTopic) (s : ChannelTopicState)
    → has_owned_topic_identity (normalize_channel_topic_input env t) ≡ true
    → saved_topic env t s ≡ (ok t, put_topic (normalize_channel_topic_input env t) s)
unfolding saved_topic save_topic save_normalized guard modify pure ◌>>=◌
saved-run env t s e = rw e refl

stored-accepted :
    (env : TopicEnvironment) (input : HandoffInput) (s : ChannelTopicState) (t : ChannelTopic)
    → has_owned_topic_identity (normalize_channel_topic_input env (handed_topic env input t)) ≡ true
    → stored-run env input s t true true ≡ (
      ok record { topic = handed_topic env input t; handoff = new_handoff env input t },
      record (put_topic (normalize_channel_topic_input env (handed_topic env input t)) s) {
        handoffs = s.handoffs ++ (normalize_handoff (new_handoff env input t) ∷ []);
      },
    )
unfolding stored-run guard append_handoff modify pure ◌>>=◌
stored-accepted env input s t e = rw (saved-run env (handed_topic env input t) s e) refl

identity-handed :
    (env : TopicEnvironment) (input : HandoffInput) (raw : ChannelTopic)
    → let t = normalize_channel_topic_input env raw in
      has_owned_topic_identity (normalize_channel_topic_input env (handed_topic env input t))
      ≡ has_owned_topic_identity t
unfolding normalize_channel_topic_input
identity-handed env input raw i = is_some (
    first_some (optional_text-twice raw.room_id i) (
      first_some (conversation-twice raw.conversation_id raw.room_id i)
        (optional_text-twice raw.chat_entry_id i)))

-- What a hand-over of the topic `t` leaves.
pub record IsHandedOver (env : TopicEnvironment) (input : HandoffInput) (s : ChannelTopicState)
    (t : ChannelTopic) (r : Result TopicError HandedOff × ChannelTopicState) : Type 0 where
  pub result :
      r.0 ≡ ok record { topic = handed_topic env input t; handoff = new_handoff env input t }
  pub topic : ChannelTopic
  pub stored : stored_topic t.id r.1 ≡ some topic
  pub owner : topic.owner_id ≡ input.to_id
  pub participants : topic.participant_ids ≡ distinct (input.to_id ∷ t.participant_ids)
  pub handoffs : r.1.handoffs ≡ s.handoffs ++ (normalize_handoff (new_handoff env input t) ∷ [])

handed-IsHandedOver :
    (env : TopicEnvironment) (input : HandoffInput) (s : ChannelTopicState) (raw : ChannelTopic)
    → (input.to_id == "") ≡ false
    → let t = normalize_channel_topic_input env raw in
      IsHandedOver env input s t (
        ok record { topic = handed_topic env input t; handoff = new_handoff env input t },
        record (put_topic (normalize_channel_topic_input env (handed_topic env input t)) s) {
          handoffs = s.handoffs ++ (normalize_handoff (new_handoff env input t) ∷ []);
        },
      )
unfolding normalize_channel_topic_input
handed-IsHandedOver env input s raw given = record {
  result = refl;
  topic = _;
  stored =
      find_by-upsert_same topic_id (text_or raw.id "unknown-topic")
        (normalize_channel_topic_input env
          (handed_topic env input (normalize_channel_topic_input env raw)))
        s.channel_topics (text_or-twice raw.id "unknown-topic" refl);
  owner = rw given refl;
  participants = rw given refl;
  handoffs = refl;
}

-- A hand-over of a stored topic with an identity by its owner to a participant, whose id is not empty,
-- returns; the topic is stored with the receiver as its owner and the same participants,
-- the receiver first, and one hand-over is added at the end.
pub apply_handoff-accepted :
    (env : TopicEnvironment) (input : HandoffInput) (s : ChannelTopicState) (raw : ChannelTopic)
    → stored_topic input.topic_id s ≡ some raw
    → has_owned_topic_identity (normalize_channel_topic_input env raw) ≡ true
    → ((normalize_channel_topic_input env raw).owner_id == input.from_id) ≡ true
    → includes (normalize_channel_topic_input env raw).participant_ids input.to_id ≡ true
    → (input.to_id == "") ≡ false
    → IsHandedOver env input s (normalize_channel_topic_input env raw) (apply_handoff env input s)
apply_handoff-accepted env input s raw found identified owner member given =
    let t = normalize_channel_topic_input env raw in
    subst (IsHandedOver env input s t)
      (sym (
        found-run env input s t (ap (Option.map (normalize_channel_topic_input env)) found)
        ∙ ap (λ b. stored-run env input s t b (includes t.participant_ids input.to_id)) owner
        ∙ ap (stored-run env input s t true) member
        ∙ stored-accepted env input s t (identity-handed env input raw ∙ identified)))
      (handed-IsHandedOver env input s raw given)
