-- ===== src/Topics/Normal.antt =====
-- The normal form of a channel topic (src/channel-topics/domain/channel-topic-normalization.ts).
use mathlib.Core.Option
use tiny_office.Prelude.{
  String, ◌≡◌, refl, sym, ap, ◌∙◌, true, false, Option, none, some, List, [], ◌∷◌, ◌⊎◌, inl, inr,
  ◌==◌, or_else, first_some, find_by-upsert_same, Bool-cases, Option-cases,
}
use tiny_office.Prelude.Text.{optional_text}
use tiny_office.Prelude.Text.Trimming.{optional_text-twice}
use tiny_office.Prelude.Exec.{ok, pure, gets, modify, guard, ◌>>=◌}
use tiny_office.Topics.Domain.{
  MemberCursor, ChannelTopic, ChannelTopicState, TopicEnvironment, distinct, text_or, has_identity,
  some_cursors, normalize_timestamp, normalize_cursor_list, normalize_seen_cursors,
  normalize_channel_topic_input,
}
use tiny_office.Topics.Service.{
  topic_id, has_owned_topic_identity, put_topic, save_normalized, save_topic, get_topic,
}
use tiny_office.Topics.Participants.{distinct-repeat}

-- What `Date` promises of the reading of times: the text that it writes for a time is not empty and is
-- the text of that time.
pub record WritesIso (iso_text : String → Option String) : Type 0 where
  pub text : (x y : String) → iso_text x ≡ some y → iso_text y ≡ some y
  pub given : (x y : String) → iso_text x ≡ some y → (y == "") ≡ false

-- The clock gives texts that `Date` writes.
abbrev pub IsClock : TopicEnvironment → Type 0
IsClock env = env.iso_text env.now ≡ some env.now

-- The environment of a later call: another clock, and another text for ids.
abbrev pub at_time : String → String → TopicEnvironment → TopicEnvironment
at_time now suffix env = record { now = now; iso_text = env.iso_text; suffix = suffix }

same-first : (o : Option String) → first_some o o ≡ o
same-first none = refl
same-first (some x) = refl

pub conversation-twice :
    (c r : Option String)
    → first_some
        (optional_text (first_some (optional_text c) (optional_text r)))
        (optional_text (optional_text r))
      ≡ first_some (optional_text c) (optional_text r)
conversation-twice c r = elim (Option-cases (optional_text c)) [
  | inl e ↦ rw e (rw (optional_text-twice r) (same-first (optional_text r)))
  | inr (x, e) ↦ rw e (
      ap (λ o. first_some o (optional_text (optional_text r)))
        (ap optional_text (sym e) ∙ optional_text-twice c ∙ e))
]

pub text_or-twice : (x y : String) → (y == "") ≡ false → text_or (text_or x y) y ≡ text_or x y
text_or-twice x y g = elim (Bool-cases (x == "")) [
  | inl t ↦ rw t (rw g refl)
  | inr f ↦ rw f (rw f refl)
]

module _ (env : TopicEnvironment) (dates : WritesIso env.iso_text) (clock : IsClock env)
    (later suffix : String) where
  settled :
      (y : String)
      → env.iso_text y ≡ some y
      → (y == "") ≡ false
      → normalize_timestamp (at_time later suffix env) y ≡ y
  unfolding normalize_timestamp
  settled y t g = rw (g, t) refl

  read-twice :
      (x : String)
      → normalize_timestamp (at_time later suffix env) (or_else (env.iso_text x) env.now)
        ≡ or_else (env.iso_text x) env.now
  read-twice x = elim (Option-cases (env.iso_text x)) [
    | inl e ↦ rw e (settled env.now clock (dates.given env.now env.now clock))
    | inr (y, e) ↦ rw e (settled y (dates.text x y e) (dates.given x y e))
  ]

  normalize_timestamp-twice :
      (x : String)
      → normalize_timestamp (at_time later suffix env) (normalize_timestamp env x)
        ≡ normalize_timestamp env x
  unfolding normalize_timestamp
  normalize_timestamp-twice x = elim (Bool-cases (x == "")) [
    | inl t ↦ rw t (settled env.now clock (dates.given env.now env.now clock))
    | inr f ↦ rw f (read-twice x)
  ]

  normalize_cursor_list-twice :
      (cursors : List MemberCursor)
      → normalize_cursor_list (at_time later suffix env) (normalize_cursor_list env cursors)
        ≡ normalize_cursor_list env cursors
  unfolding normalize_cursor_list
  normalize_cursor_list-twice [] = refl
  normalize_cursor_list-twice (m ∷ rest) =
      elim (Bool-cases (
        has_identity (optional_text m.cursor.post_id) (optional_text m.cursor.room_id)
          (optional_text m.cursor.message_id))) [
            | inl t ↦ rw t (
                rw
                  (
                    optional_text-twice m.cursor.post_id,
                    optional_text-twice m.cursor.room_id,
                    optional_text-twice m.cursor.message_id,
                    t,
                    normalize_timestamp-twice m.cursor.seen_at,
                    normalize_cursor_list-twice rest,
                  )
                  refl)
            | inr f ↦ rw f (normalize_cursor_list-twice rest)
          ]

  some_cursors-twice :
      (cursors : List MemberCursor)
      → normalize_cursor_list (at_time later suffix env) cursors ≡ cursors
      → normalize_seen_cursors (at_time later suffix env) (some_cursors cursors)
        ≡ some_cursors cursors
  unfolding normalize_seen_cursors
  some_cursors-twice [] h = refl
  some_cursors-twice (m ∷ rest) h = rw h refl

  normalize_seen_cursors-twice :
      (o : Option (List MemberCursor))
      → normalize_seen_cursors (at_time later suffix env) (normalize_seen_cursors env o)
        ≡ normalize_seen_cursors env o
  unfolding normalize_seen_cursors
  normalize_seen_cursors-twice none = refl
  normalize_seen_cursors-twice (some cursors) =
      some_cursors-twice (normalize_cursor_list env cursors) (normalize_cursor_list-twice cursors)

  participants-twice :
      (owner : String) (ids : List String)
      → distinct (
          text_or (text_or owner "unknown-owner") "unknown-owner"
          ∷ distinct (text_or owner "unknown-owner" ∷ ids))
        ≡ distinct (text_or owner "unknown-owner" ∷ ids)
  participants-twice owner ids =
      rw (text_or-twice owner "unknown-owner" refl)
        (distinct-repeat (text_or owner "unknown-owner") ids)

  -- Normalising a topic again, at any time, changes nothing.
  pub normalize_channel_topic_input-twice :
      (t : ChannelTopic)
      → normalize_channel_topic_input
          (at_time later suffix env)
          (normalize_channel_topic_input env t)
        ≡ normalize_channel_topic_input env t
  unfolding normalize_channel_topic_input
  normalize_channel_topic_input-twice t = λ i. record {
    id = text_or-twice t.id "unknown-topic" refl i;
    room_id = optional_text-twice t.room_id i;
    conversation_id = conversation-twice t.conversation_id t.room_id i;
    chat_entry_id = optional_text-twice t.chat_entry_id i;
    participant_ids = participants-twice t.owner_id t.participant_ids i;
    owner_id = text_or-twice t.owner_id "unknown-owner" refl i;
    last_activity_at = normalize_timestamp-twice t.last_activity_at i;
    seen_cursors = normalize_seen_cursors-twice t.seen_cursors i;
  }

-- `y` is the text of the time that `Date` reads in `x`, or, when it reads none, the clock's.
abbrev pub IsTimeOf : TopicEnvironment → String → String → Type 0
IsTimeOf env x y =
    (((x == "") ≡ false) × (env.iso_text x ≡ some y))
    ⊎ ((((x == "") ≡ true) ⊎ (env.iso_text x ≡ none)) × (y ≡ env.now))

normalize_timestamp-IsTimeOf :
    (env : TopicEnvironment) (x : String) → IsTimeOf env x (normalize_timestamp env x)
unfolding normalize_timestamp
normalize_timestamp-IsTimeOf env x = elim (Bool-cases (x == "")) [
  | inl t ↦ inr (inl t, rw t refl)
  | inr f ↦ elim (Option-cases (env.iso_text x)) [
    | inl e ↦ inr (inr e, rw (f, e) refl)
    | inr (y, e) ↦ inl (f, rw (f, e) refl)
  ]
]

-- A topic with an identity is saved at one reading of the clock, and read at any other, when the clock
-- and the reader of times write ISO texts. The call returns the topic as it is read back; if the time
-- of its last activity is a time that `Date` reads, that time is the one kept, and else the time of the
-- save is.
pub save_topic-get_topic :
    (env : TopicEnvironment) (t : ChannelTopic) (s : ChannelTopicState) (later suffix : String)
    → WritesIso env.iso_text
    → IsClock env
    → has_owned_topic_identity (normalize_channel_topic_input env t) ≡ true
    → let saved = normalize_channel_topic_input env t in
      let r = save_topic env t s in
      (r.0 ≡ ok saved)
      × (get_topic (at_time later suffix env) saved.id r.1 ≡ (ok (some saved), r.1))
      × IsTimeOf env t.last_activity_at saved.last_activity_at
unfolding save_topic save_normalized get_topic guard modify pure gets ◌>>=◌
    normalize_channel_topic_input
save_topic-get_topic env t s later suffix dates clock e =
    let saved = normalize_channel_topic_input env t in
    rw e (
      refl,
      ap
            (λ o. (
              ok (Option.map (normalize_channel_topic_input (at_time later suffix env)) o),
              put_topic saved s,
            ))
            (find_by-upsert_same topic_id saved.id saved s.channel_topics refl)
          ∙ ap (λ n. (ok (some n), put_topic saved s))
              (normalize_channel_topic_input-twice env dates clock later suffix t),
      normalize_timestamp-IsTimeOf env t.last_activity_at,
    )
