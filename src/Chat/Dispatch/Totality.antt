-- ===== src/Chat/Dispatch/Totality.antt =====
-- When buildTinyOfficeChatTurnDispatches (src/runtime/realtime/tinyoffice-chat-dispatch-decision.ts)
-- returns.
use mathlib.Core.Option.{some-injective, none-ne-some}
use tiny_office.Prelude.{
  String, ◌≡◌, refl, sym, ap, subst, ◌∙◌, true, Option, none, some, List, [], ◌∷◌, inl, inr, ◌==◌,
  not, or_else, filter, head?, map, All, All-filter, All-filter_test, All-both, All-map, All-sort,
  Bool-cases, false≢true,
}
use tiny_office.Prelude.Text.{trim, optional_text, nonempty}
use tiny_office.Prelude.Text.Trimming.{trim-twice}
use tiny_office.Topics.Domain.{distinct, is_not}
use tiny_office.Chat.Dispatch.{
  DispatchInput, Hashing, TargetCandidate, DispatchReason, mentioned_member, direct_room_peer,
  stable_random_topic_member, ConversationKind, direct, topic, shared, is_given, unique_strings,
}
use tiny_office.Chat.Dispatch.Choice.{
  is_known, is_other, other_participants, candidate_for, pick, peer_or_member, mentioned_or,
  resolve_target_candidate,
}
use tiny_office.Chat.Dispatch.Safety.{pick-All}

-- A text that is trimmed and not empty.
abbrev pub IsTrimmed : String → Type 0
IsTrimmed x = optional_text (some x) ≡ some x

distinct-All : (P : String → Type 0) (xs : List String) → All P xs → All P (distinct xs)
unfolding distinct
distinct-All P [] h = tt
distinct-All P (x ∷ xs) (p, h) = (p, All-filter P (is_not x) (distinct xs) (distinct-All P xs h))

trimmed-All : (values : List String) → All (λ x. trim x ≡ x) (map trim values)
trimmed-All [] = tt
trimmed-All (v ∷ values) = (trim-twice v, trimmed-All values)

given-IsTrimmed : (x : String) → (trim x ≡ x) × (is_given x ≡ true) → IsTrimmed x
given-IsTrimmed x (t, g) = elim (Bool-cases (x == "")) [
  | inl e ↦ absurd (false≢true (sym (ap not e) ∙ g))
  | inr f ↦ ap nonempty t ∙ rw f refl
]

unique_strings-All : (values : List String) → All IsTrimmed (unique_strings values)
unfolding unique_strings
unique_strings-All values = distinct-All IsTrimmed (filter is_given (map trim values)) (
    All-map _ IsTrimmed _ given-IsTrimmed (
      All-both (λ x. trim x ≡ x) (λ x. is_given x ≡ true) (filter is_given (map trim values))
        (All-filter (λ x. trim x ≡ x) is_given (map trim values) (trimmed-All values))
        (All-filter_test is_given (map trim values))))

-- A candidate's id is trimmed and not empty.
OfTrimmed : Option TargetCandidate → Type 0
OfTrimmed o = (c : TargetCandidate) → o ≡ some c → IsTrimmed c.member_id

some-OfTrimmed :
    (reason : DispatchReason) (x : String)
    → IsTrimmed x
    → OfTrimmed (some record { member_id = x; reason = reason })
unfolding OfTrimmed
some-OfTrimmed reason x t c e = subst (λ k. IsTrimmed k.member_id) (some-injective _ c e) t

none-OfTrimmed : OfTrimmed none
unfolding OfTrimmed
none-OfTrimmed c e = absurd (none-ne-some c e)

head-OfTrimmed :
    (xs : List String) → All IsTrimmed xs → OfTrimmed (candidate_for direct_room_peer (head? xs))
head-OfTrimmed [] h = none-OfTrimmed
head-OfTrimmed (x ∷ xs) (t, h) = some-OfTrimmed direct_room_peer x t

pick-OfTrimmed :
    (h : Hashing) (input : DispatchInput) (xs : List String)
    → All IsTrimmed xs
    → OfTrimmed (pick h input xs)
pick-OfTrimmed h input [] k = none-OfTrimmed
pick-OfTrimmed h input (x ∷ xs) k =
    let (y, e, t) = pick-All IsTrimmed h input x (x ∷ xs) (inl refl) k in
    subst OfTrimmed (sym e) (some-OfTrimmed stable_random_topic_member y t)

peer-OfTrimmed :
    (h : Hashing) (input : DispatchInput) (known : Option (List String)) (kind : ConversationKind)
    (others : List String)
    → All IsTrimmed others
    → OfTrimmed (peer_or_member h input known kind others)
peer-OfTrimmed h input known direct others k = head-OfTrimmed others k
peer-OfTrimmed h input known shared others k =
    pick-OfTrimmed h input _
      (All-sort h.order IsTrimmed _ (All-filter IsTrimmed (is_known known) others k))
peer-OfTrimmed h input known topic others k =
    pick-OfTrimmed h input _
      (All-sort h.order IsTrimmed _ (All-filter IsTrimmed (is_known known) others k))

mentioned-OfTrimmed :
    (ids : List String) (o : Option TargetCandidate)
    → All IsTrimmed ids
    → OfTrimmed o
    → OfTrimmed (mentioned_or ids o)
mentioned-OfTrimmed [] o k h = h
mentioned-OfTrimmed (x ∷ ids) o (t, k) h = some-OfTrimmed mentioned_member x t

pub resolve_target_candidate-IsTrimmed :
    (h : Hashing) (input : DispatchInput) (actor : String) (known : Option (List String))
    (c : TargetCandidate)
    → resolve_target_candidate h input actor known ≡ some c
    → IsTrimmed c.member_id
unfolding resolve_target_candidate OfTrimmed
resolve_target_candidate-IsTrimmed h input actor known =
    mentioned-OfTrimmed _ _ (unique_strings-All (or_else input.mentioned_member_ids [])) (
      peer-OfTrimmed h input known input.conversation.conversation_kind
        (other_participants input actor)
        (All-filter IsTrimmed (is_other actor) _ (unique_strings-All _)))
