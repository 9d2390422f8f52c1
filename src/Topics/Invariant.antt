-- ===== src/Topics/Invariant.antt =====
-- The invariant of stored channel topics over the calls of ChannelTopicService
-- (src/channel-topics/services/channel-topic-service.ts).
use tiny_office.Prelude.{
  String, ◌≡◌, refl, true, Option, none, some, List, [], ◌∷◌, All, All-upsert, HasDistinctIds,
  upsert-HasDistinctIds,
}
use tiny_office.Prelude.Exec.Ensures.{
  Ensures, Ensures-pure, Ensures-gets, Ensures-modify, Ensures-guard, Ensures-require,
  Ensures-choose, Ensures-bind,
}
use tiny_office.Topics.Domain.{
  ChannelTopic, Handoff, ChannelTopicState, TopicEnvironment, no_topics, distinct, text_or,
  normalize_channel_topic_input,
}
use tiny_office.Topics.Service.{
  no_identity, Topics, topic_id, has_owned_topic_identity, put_topic, save_normalized, save_topic,
  saved_topic, get_topic, append_handoff, EnsureInput, Identity, topic_identity_from, ensure_topic,
  ensure_channel_topic,
}
use tiny_office.Topics.Routing.{
  RouteInput, route_to_participant, HandoffInput, apply_handoff, routed_topic, ensure_input,
}
use tiny_office.Topics.Participants.{AreDistinct, distinct-AreDistinct}

-- The owner is the first participant, no participant occurs twice, and the topic has an identity.
pub record IsTopicSound (t : ChannelTopic) : Type 0 where
  pub others : List String
  pub owner_first : t.participant_ids ≡ t.owner_id ∷ others
  pub distinct_participants : AreDistinct t.participant_ids
  pub identified : has_owned_topic_identity t ≡ true

pub record AreTopicsSound (s : ChannelTopicState) : Type 0 where
  pub distinct_ids : HasDistinctIds topic_id s.channel_topics
  pub topics : All IsTopicSound s.channel_topics

normalized-IsTopicSound :
    (env : TopicEnvironment) (t : ChannelTopic)
    → has_owned_topic_identity (normalize_channel_topic_input env t) ≡ true
    → IsTopicSound (normalize_channel_topic_input env t)
unfolding normalize_channel_topic_input distinct
normalized-IsTopicSound env t e = record {
  others = _;
  owner_first = refl;
  distinct_participants =
      distinct-AreDistinct (text_or t.owner_id "unknown-owner" ∷ t.participant_ids);
  identified = e;
}

put_topic-AreTopicsSound :
    (t : ChannelTopic) (s : ChannelTopicState)
    → IsTopicSound t
    → AreTopicsSound s
    → AreTopicsSound (put_topic t s)
put_topic-AreTopicsSound t s k h = record {
  distinct_ids = upsert-HasDistinctIds topic_id t s.channel_topics h.distinct_ids;
  topics = All-upsert topic_id IsTopicSound t s.channel_topics h.topics k;
}

Keeps : {A : Type 0} → Topics A → Type 0
Keeps m = Ensures AreTopicsSound m (λ _. Unit)

save_topic-Keeps : (env : TopicEnvironment) (t : ChannelTopic) → Keeps (save_topic env t)
unfolding Keeps save_topic save_normalized
save_topic-Keeps env t = Ensures-bind _ _ (Ensures-guard _ no_identity) λ _ e.
    Ensures-bind _ _
      (Ensures-modify _ λ s h. put_topic-AreTopicsSound _ s (normalized-IsTopicSound env t e) h)
      λ _ _. Ensures-pure _ tt

saved_topic-Keeps : (env : TopicEnvironment) (t : ChannelTopic) → Keeps (saved_topic env t)
unfolding Keeps saved_topic
saved_topic-Keeps env t = Ensures-bind _ _ (save_topic-Keeps env t) λ _ _. Ensures-pure t tt

ensure_topic-Keeps :
    (env : TopicEnvironment) (input : EnsureInput) (identity : Identity) (o : Option ChannelTopic)
    → Keeps (ensure_topic env input identity o)
unfolding Keeps ensure_topic
ensure_topic-Keeps env input identity none = saved_topic-Keeps env _
ensure_topic-Keeps env input identity (some existing) =
    Ensures-choose _ _ _ (λ _. saved_topic-Keeps env _) (λ _. Ensures-pure existing tt)

get_topic-Keeps : (env : TopicEnvironment) (id : String) → Keeps (get_topic env id)
unfolding Keeps get_topic
get_topic-Keeps env id = Ensures-gets _ λ _ _. tt

ensure_channel_topic-Keeps :
    (env : TopicEnvironment) (input : EnsureInput) → Keeps (ensure_channel_topic env input)
unfolding Keeps ensure_channel_topic topic_identity_from
ensure_channel_topic-Keeps env input =
    Ensures-bind {Q = λ _. Unit} _ _
      (Ensures-bind _ _ (Ensures-guard _ no_identity) λ _ _. Ensures-pure _ tt)
      λ identity _.
        Ensures-bind _ _ (get_topic-Keeps env input.channel_topic_id)
          λ existing _. ensure_topic-Keeps env input identity existing

route_to_participant-Keeps :
    (env : TopicEnvironment) (input : RouteInput) → Keeps (route_to_participant env input)
unfolding Keeps route_to_participant
route_to_participant-Keeps env input =
    Ensures-bind _ _ (ensure_channel_topic-Keeps env (ensure_input input))
      λ t _. saved_topic-Keeps env (routed_topic env input t)

append_handoff-Keeps : (h : Handoff) → Keeps (append_handoff h)
unfolding Keeps append_handoff
append_handoff-Keeps h =
    Ensures-bind _ _
      (Ensures-modify _ λ s k. record { distinct_ids = k.distinct_ids; topics = k.topics })
      λ _ _. Ensures-pure _ tt

apply_handoff-Keeps :
    (env : TopicEnvironment) (input : HandoffInput) → Keeps (apply_handoff env input)
unfolding Keeps apply_handoff
apply_handoff-Keeps env input = Ensures-bind _ _ (get_topic-Keeps env input.topic_id) λ found _.
    Ensures-bind {Q = λ _. Unit} _ _ (Ensures-require found _ λ _ _. tt) λ topic _.
      Ensures-bind _ _ (Ensures-guard _ _) λ _ _. Ensures-bind _ _ (Ensures-guard _ _) λ _ _.
        Ensures-bind _ _ (saved_topic-Keeps env _)
          λ _ _. Ensures-bind _ _ (append_handoff-Keeps _) λ _ _. Ensures-pure _ tt

pub data TopicCall : Type 0 where
  ensure : EnsureInput → TopicCall
  rerouted : RouteInput → TopicCall
  hand : HandoffInput → TopicCall

-- The state after a call, whether it returned or threw.
unfoldable pub topics_after : TopicEnvironment → TopicCall → ChannelTopicState → ChannelTopicState
topics_after env (ensure input) s = (ensure_channel_topic env input s).1
topics_after env (rerouted input) s = (route_to_participant env input s).1
topics_after env (hand input) s = (apply_handoff env input s).1

unfoldable pub topics_after_all :
    List (TopicEnvironment × TopicCall) → ChannelTopicState → ChannelTopicState
unfolding topics_after
topics_after_all [] s = s
topics_after_all ((env, call) ∷ calls) s = topics_after_all calls (topics_after env call s)

topics_after-AreTopicsSound :
    (env : TopicEnvironment) (call : TopicCall) (s : ChannelTopicState)
    → AreTopicsSound s
    → AreTopicsSound (topics_after env call s)
unfolding topics_after Keeps
topics_after-AreTopicsSound env (ensure input) s h =
    ((ensure_channel_topic-Keeps env input).at s h).0
topics_after-AreTopicsSound env (rerouted input) s h =
    ((route_to_participant-Keeps env input).at s h).0
topics_after-AreTopicsSound env (hand input) s h = ((apply_handoff-Keeps env input).at s h).0

kept_all :
    (calls : List (TopicEnvironment × TopicCall)) (s : ChannelTopicState)
    → AreTopicsSound s
    → AreTopicsSound (topics_after_all calls s)
unfolding topics_after_all
kept_all [] s h = h
kept_all ((env, call) ∷ calls) s h =
    kept_all calls (topics_after env call s) (topics_after-AreTopicsSound env call s h)

-- After any sequence of calls of the channel topic service from the empty store, returned or thrown,
-- ids are distinct, and every topic has an identity, participants without repetition, and its owner
-- as the first of them.
pub topics_after_all-AreTopicsSound :
    (calls : List (TopicEnvironment × TopicCall))
    → AreTopicsSound (topics_after_all calls no_topics)
topics_after_all-AreTopicsSound calls =
    kept_all calls no_topics record { distinct_ids = tt; topics = tt }
