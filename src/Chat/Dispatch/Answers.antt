-- ===== src/Chat/Dispatch/Answers.antt =====
-- Well-formed messages are decided on (buildTinyOfficeChatTurnDispatches of
-- src/runtime/realtime/tinyoffice-chat-dispatch-decision.ts never throws for them).
use tiny_office.Prelude.{
  String, ◌≡◌, refl, sym, ap, subst, ◌∙◌, true, Option, none, some, List, ◌==◌, or_else,
}
use tiny_office.Prelude.Text.{optional_text}
use tiny_office.Prelude.Exec.{ok}
use tiny_office.Prelude.Text.Trimming.{optional_text-twice}
use tiny_office.Prelude.Exec.Ensures.{Returns}
use tiny_office.Prelude.Exec.Succeeds.{
  Succeeds, Succeeds-pure, Succeeds-choose, Succeeds-require, Succeeds-guard, Succeeds-bind,
}
use tiny_office.Chat.Dispatch.{
  DispatchInput, DispatchDecision, IgnoredReason, no_target_member, actor_message_not_routable,
  unknown_target_member, Hashing, TargetCandidate, ConversationKind, direct, topic, shared, Decide,
  missing_field, company_mismatch, room_mismatch, trim_required, attempt_part,
  scene_type_from_conversation, build_event_key, build_chain_id,
}
use tiny_office.Chat.Dispatch.Choice.{
  known_member_ids, ignore, Turn, entry_part, route, decide_target, check_turn, build_dispatches,
}
use tiny_office.Chat.Dispatch.Totality.{IsTrimmed, resolve_target_candidate-IsTrimmed}
use tiny_office.Chat.Dispatch.Targets.{IsOneDecision, build_dispatches-IsOneDecision}

-- An optional text that is not blank when it is given.
abbrev pub IsNotBlank : Option String → Type 0
IsNotBlank none = Unit
IsNotBlank (some s) = (t : String) × (optional_text (some s) ≡ some t)

abbrev pub IsOpen : ConversationKind → Type 0
IsOpen direct = Unit
IsOpen topic = Unit
IsOpen shared = ⊥

pub record IsWellFormed (input : DispatchInput) : Type 0 where
  pub company : String
  pub room : String
  pub actor : String
  pub message_id : String
  pub message : String
  pub company_given : optional_text (some input.company_id) ≡ some company
  pub room_given : optional_text (some input.room_id) ≡ some room
  pub actor_given : optional_text input.actor_member_id ≡ some actor
  pub message_id_given : optional_text (some input.message_id) ≡ some message_id
  pub message_given : optional_text (some input.body) ≡ some message
  pub same_company : (input.conversation.company_id == company) ≡ true
  pub same_room : (input.conversation.conversation_id == room) ≡ true
  pub decidable : IsOpen input.conversation.conversation_kind
  pub attempt : IsNotBlank input.attempt_id
  pub entry : IsNotBlank input.entry_id

Total : {A : Type 0} → Decide A → Type 0
Total m = Succeeds (λ _. Unit) m (λ _. Unit)

trim-Total :
    (value : Option String) (name : String) (t : String)
    → optional_text value ≡ some t
    → Succeeds (λ _. Unit) (trim_required value name) (λ x. x ≡ t)
unfolding trim_required
trim-Total value name t e = Succeeds-require (optional_text value) (missing_field name) t e

attempt-Total : (o : Option String) → IsNotBlank o → Total (attempt_part o)
unfolding Total
attempt-Total none k = Succeeds-pure "" tt
attempt-Total (some s) (t, e) =
    Succeeds-choose (s == "") _ _ (λ _. Succeeds-pure "" tt)
      (λ _. Succeeds-bind _ _ (trim-Total (some s) "attemptId" t e) λ x _. Succeeds-pure _ tt)

entry-Total : (o : Option String) → IsNotBlank o → Total (entry_part o)
unfolding Total
entry-Total none k = Succeeds-pure none tt
entry-Total (some s) (t, e) =
    Succeeds-choose (s == "") _ _ (λ _. Succeeds-pure none tt)
      (λ _. Succeeds-bind _ _ (trim-Total (some s) "entryId" t e) λ x _. Succeeds-pure _ tt)

scene-Total : (kind : ConversationKind) → IsOpen kind → Total (scene_type_from_conversation kind)
unfolding Total
scene-Total direct k = Succeeds-pure _ tt
scene-Total topic k = Succeeds-pure _ tt
scene-Total shared k = absurd k

module _ (input : DispatchInput) (w : IsWellFormed input) where
  Given : Option String → String → String → Type 0
  Given value name t = Succeeds (λ _. Unit) (trim_required value name) (λ x. x ≡ t)

  company-Total : Given (some input.company_id) "companyId" w.company
  unfolding Given
  company-Total = trim-Total (some input.company_id) "companyId" w.company w.company_given

  room-Total : Given (some input.room_id) "roomId" w.room
  unfolding Given
  room-Total = trim-Total (some input.room_id) "roomId" w.room w.room_given

  actor-Total : Given input.actor_member_id "actorMemberId" w.actor
  unfolding Given
  actor-Total = trim-Total input.actor_member_id "actorMemberId" w.actor w.actor_given

  message_id-Total : Given (some input.message_id) "messageId" w.message_id
  unfolding Given
  message_id-Total = trim-Total (some input.message_id) "messageId" w.message_id w.message_id_given

  key-Total : (target : String) → IsTrimmed target → Total (build_event_key input target)
  unfolding Total Given build_event_key
  key-Total target t = Succeeds-bind _ _ company-Total λ _ _. Succeeds-bind _ _ room-Total λ _ _.
      Succeeds-bind _ _ message_id-Total λ _ _.
        Succeeds-bind _ _ (trim-Total (some target) "targetMemberId" target t) λ _ _.
          Succeeds-bind _ _ (attempt-Total input.attempt_id w.attempt) λ _ _. Succeeds-pure _ tt

  chain-Total : Total (build_chain_id input)
  unfolding Total Given build_chain_id
  chain-Total = Succeeds-bind _ _ company-Total λ _ _. Succeeds-bind _ _ room-Total λ _ _.
      Succeeds-bind _ _ message_id-Total λ _ _.
        Succeeds-bind _ _ (attempt-Total input.attempt_id w.attempt) λ _ _. Succeeds-pure _ tt

  -- The actor's id is trimmed and not empty.
  actor-IsTrimmed : IsTrimmed w.actor
  actor-IsTrimmed =
      ap optional_text (sym w.actor_given)
      ∙ optional_text-twice input.actor_member_id
      ∙ w.actor_given

  ignore-Total :
      (reason : IgnoredReason) (target : Option String)
      → IsTrimmed (or_else target w.actor)
      → Total (ignore input reason target)
  unfolding Total Given ignore
  ignore-Total reason target t = Succeeds-bind _ _ actor-Total λ actor e.
      Succeeds-bind _ _
        (key-Total (or_else target actor) (subst (λ a. IsTrimmed (or_else target a)) (sym e) t))
        λ _ _. Succeeds-bind _ _ company-Total λ _ _.
          Succeeds-bind _ _ room-Total
            λ _ _. Succeeds-bind _ _ message_id-Total λ _ _. Succeeds-pure _ tt

  route-Total :
      (turn : Turn) (c : TargetCandidate) → IsTrimmed c.member_id → Total (route input turn c)
  unfolding Total route
  route-Total turn c t = Succeeds-bind _ _ (key-Total c.member_id t) λ _ _.
      Succeeds-bind _ _ chain-Total
        λ _ _. Succeeds-bind _ _ (entry-Total input.entry_id w.entry) λ _ _. Succeeds-pure _ tt

  decide-Total :
      (turn : Turn) (known : Option (List String)) (o : Option TargetCandidate)
      → ((c : TargetCandidate) → o ≡ some c → IsTrimmed c.member_id)
      → Total (decide_target input turn known o)
  unfolding Total decide_target
  decide-Total turn known none t = ignore-Total no_target_member none actor-IsTrimmed
  decide-Total turn known (some c) t =
      Succeeds-choose _ _ _
        (λ _. ignore-Total actor_message_not_routable (some c.member_id) (t c refl))
        (λ _.
          Succeeds-choose _ _ _ (λ _. route-Total turn c (t c refl))
            (λ _. ignore-Total unknown_target_member (some c.member_id) (t c refl)))

  check-Total : Total (check_turn input)
  unfolding Total Given check_turn
  check-Total = Succeeds-bind _ _ company-Total λ company c. Succeeds-bind _ _ room-Total λ room r.
      Succeeds-bind _ _ actor-Total λ _ _. Succeeds-bind _ _ message_id-Total λ _ _.
        Succeeds-bind _ _ (trim-Total (some input.body) "body" w.message w.message_given) λ _ _.
          Succeeds-bind _ _
            (Succeeds-guard _ company_mismatch
              (ap (λ x. input.conversation.company_id == x) c ∙ w.same_company))
            λ _ _.
              Succeeds-bind _ _
                (Succeeds-guard _ room_mismatch
                  (ap (λ x. input.conversation.conversation_id == x) r ∙ w.same_room))
                λ _ _.
                  Succeeds-bind _ _ (scene-Total input.conversation.conversation_kind w.decidable)
                    λ _ _. Succeeds-pure _ tt

  build-Total : (h : Hashing) → Total (build_dispatches h input)
  unfolding Total build_dispatches
  build-Total h = Succeeds-bind _ _ check-Total λ turn _.
      decide-Total turn (known_member_ids input.employee_ids) _ (
        resolve_target_candidate-IsTrimmed h input turn.actor (known_member_ids input.employee_ids))

-- A message with its ids and its text, in the direct or topic room of its company that it names, gets
-- exactly one decision. If it is handed on, it goes to the candidate for its actor, who is another
-- member than the actor and a known one, in the room and the company of the conversation.
pub build_dispatches-answers :
    (h : Hashing) (input : DispatchInput)
    → IsWellFormed input
    → (ds : List DispatchDecision) × (build_dispatches h input tt ≡ (ok ds, tt))
      × IsOneDecision h input ds
unfolding Total
build_dispatches-answers h input w =
    let e = (build-Total input w h).at tt tt in
    (
      e.value,
      e.run,
      subst (λ r. Returns (IsOneDecision h input) r.0) e.run
          (build_dispatches-IsOneDecision h input),
    )
