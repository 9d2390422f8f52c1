-- ===== src/Chat/Dispatch/Safety.antt =====
-- Whom a chat message is handed to (src/runtime/realtime/tinyoffice-chat-dispatch-decision.ts).
use tiny_office.Prelude.{
  ℕ, zero, suc, ◌<◌, String, ◌≡◌, refl, ap, ◌∙◌, true, Option, some, List, [], ◌∷◌, filter, length,
  or_else, sort, All, All-sort, All-filter, All-filter_test, All-both, arith,
}
use tiny_office.Prelude.Members.{IsIn, All-IsIn, IsIn-filter, IsIn-sort}
use tiny_office.Chat.Dispatch.{
  stable_random_topic_member, topic, DispatchInput, Hashing, unique_strings,
}
use tiny_office.Chat.Dispatch.Choice.{
  is_known, other_participants, item_at, candidate_for, index_for, pick, peer_or_member,
  mentioned_or, resolve_target_candidate,
}

module _ (P : String → Type 0) where
  item_at-All :
      (n : ℕ) (xs : List String)
      → n < length xs
      → All P xs
      → (x : String) × (item_at n xs ≡ some x) × P x
  item_at-All n [] l h = absurd (ground arith)
  item_at-All zero (x ∷ xs) l (p, h) = (x, refl, p)
  item_at-All (suc n) (x ∷ xs) l (p, h) = item_at-All n xs (ground arith) h

  index_for-Bounded :
      (h : Hashing) (input : DispatchInput) (n : ℕ) → index_for h input (suc n) < suc n
  index_for-Bounded h input n = ground arith

  pub pick-All :
      (h : Hashing) (input : DispatchInput) (a : String) (xs : List String)
      → IsIn a xs
      → All P xs
      → (x : String) × (pick h input xs
          ≡ some record { member_id = x; reason = stable_random_topic_member })
        × P x
  pick-All h input a [] m k = absurd m
  pick-All h input a (x ∷ xs) m k =
      let (y, e, p) =
        item_at-All (index_for h input (length (x ∷ xs))) (x ∷ xs)
          (index_for-Bounded h input (length xs)) k in
      (y, ap (candidate_for stable_random_topic_member) e, p)

-- In a topic room, a message that mentions no one is offered to a known participant other than its
-- actor, whatever the digest is, whenever there is one.
pub resolve_target_candidate-topic :
    (h : Hashing) (input : DispatchInput) (actor : String) (known : Option (List String))
    (a : String)
    → unique_strings (or_else input.mentioned_member_ids []) ≡ []
    → input.conversation.conversation_kind ≡ topic
    → IsIn a (other_participants input actor)
    → is_known known a ≡ true
    → (x : String) × (resolve_target_candidate h input actor known
        ≡ some record { member_id = x; reason = stable_random_topic_member })
      × IsIn x (other_participants input actor)
      × (is_known known x ≡ true)
unfolding resolve_target_candidate
resolve_target_candidate-topic h input actor known a quiet kind m k =
    let others = other_participants input actor in
    let eligible = filter (is_known known) others in
    let (x, e, p) =
      pick-All (λ y. IsIn y others × (is_known known y ≡ true)) h input a (sort h.order eligible)
        (IsIn-sort h.order a eligible (IsIn-filter (is_known known) a others k m))
        (All-sort h.order (λ y. IsIn y others × (is_known known y ≡ true)) eligible
          (All-both (λ y. IsIn y others) (λ y. is_known known y ≡ true) eligible
            (All-filter (λ y. IsIn y others) (is_known known) others (All-IsIn others))
            (All-filter_test (is_known known) others))) in
    (
      x,
      ap
            (λ ids.
              mentioned_or ids
                (peer_or_member h input known input.conversation.conversation_kind others))
            quiet
          ∙ ap (λ kind. peer_or_member h input known kind others) kind
          ∙ e,
      p.0,
      p.1,
    )
