-- ===== src/Chat/Dispatch/Targets.antt =====
-- What a decision of buildTinyOfficeChatTurnDispatches
-- (src/runtime/realtime/tinyoffice-chat-dispatch-decision.ts) promises.
use tiny_office.Prelude.{
  String, ◌≡◌, refl, true, false, Option, none, some, List, [], ◌∷◌, ◌==◌, or_else, eq_iff,
}
use tiny_office.Prelude.Text.{optional_text}
use tiny_office.Prelude.Exec.Ensures.{
  Ensures, Returns, Ensures-pure, Ensures-require, Ensures-guard, Ensures-choose, Ensures-bind,
  Ensures-states,
}
use tiny_office.Chat.Dispatch.{
  DispatchInput, DispatchReady, DispatchDecision, routable, ignored, Hashing, TargetCandidate,
  IgnoredReason, Decide, scene_type_from_conversation, missing_field, company_mismatch,
  room_mismatch, trim_required, build_event_key, build_chain_id, no_target_member,
  actor_message_not_routable, unknown_target_member,
}
use tiny_office.Chat.Dispatch.Choice.{
  known_member_ids, is_known, resolve_target_candidate, ignore, Turn, entry_part, route,
  decide_target, check_turn, build_dispatches,
}

-- A message that is handed on goes to the candidate for its actor, who is known and not the actor.
pub record IsWellAimed (h : Hashing) (input : DispatchInput) (r : DispatchReady) : Type 0 where
  pub actor : optional_text input.actor_member_id ≡ some r.actor_member_id
  pub chosen :
      resolve_target_candidate h input r.actor_member_id (known_member_ids input.employee_ids)
      ≡ some record { member_id = r.target_member_id; reason = r.reason }
  pub other : (r.target_member_id == r.actor_member_id) ≡ false
  pub known : is_known (known_member_ids input.employee_ids) r.target_member_id ≡ true
  pub room : input.conversation.conversation_id ≡ r.room_id
  pub company : input.conversation.company_id ≡ r.company_id

abbrev pub IsSafeDecision : Hashing → DispatchInput → DispatchDecision → Type 0
IsSafeDecision h input (routable r) = IsWellAimed h input r
IsSafeDecision h input (ignored i) = Unit

-- Exactly one decision, and a safe one.
pub record IsOneDecision (h : Hashing) (input : DispatchInput) (ds : List DispatchDecision)
    : Type 0 where
  pub decision : DispatchDecision
  pub only : ds ≡ decision ∷ []
  pub safe : IsSafeDecision h input decision

Any : {A : Type 0} → Decide A → Type 0
Any m = Ensures (λ _. Unit) m (λ _. Unit)

anything : {A : Type 0} (m : Decide A) → Any m
unfolding Any
anything m = Ensures-states m (λ s u. u)

-- What the checks of a turn establish.
record IsChecked (input : DispatchInput) (turn : Turn) : Type 0 where
  pub actor : optional_text input.actor_member_id ≡ some turn.actor
  pub room : input.conversation.conversation_id ≡ turn.room_id
  pub company : input.conversation.company_id ≡ turn.company_id

check_turn-Ensures :
    (input : DispatchInput) → Ensures (λ _. Unit) (check_turn input) (IsChecked input)
unfolding check_turn trim_required Any
check_turn-Ensures input =
    Ensures-bind _ _ (anything (trim_required (some input.company_id) "companyId")) λ company_id _.
      Ensures-bind _ _ (anything (trim_required (some input.room_id) "roomId")) λ room_id _.
        Ensures-bind _ _
          (Ensures-require (optional_text input.actor_member_id) (missing_field "actorMemberId")
            λ a e. e)
          λ actor e.
            Ensures-bind _ _ (anything (trim_required (some input.message_id) "messageId"))
              λ message_id _.
                Ensures-bind _ _ (anything (trim_required (some input.body) "body")) λ message _.
                  Ensures-bind _ _ (Ensures-guard _ company_mismatch) λ _ c.
                    Ensures-bind _ _ (Ensures-guard _ room_mismatch) λ _ r.
                      Ensures-bind _ _
                        (anything
                          (scene_type_from_conversation input.conversation.conversation_kind))
                        λ scene _.
                          Ensures-pure _ record {
                            actor = e;
                            room = (eq_iff _ _).0 r;
                            company = (eq_iff _ _).0 c;
                          }

module _ (h : Hashing) (input : DispatchInput) where
  Good : Decide (List DispatchDecision) → Type 0
  Good m = Ensures (λ _. Unit) m (IsOneDecision h input)

  ignore-Good :
      (reason : IgnoredReason) (target : Option String) → Good (ignore input reason target)
  unfolding Good ignore Any
  ignore-Good reason target =
      Ensures-bind _ _ (anything (trim_required input.actor_member_id "actorMemberId")) λ actor _.
        Ensures-bind _ _ (anything (build_event_key input (or_else target actor))) λ event_key _.
          Ensures-bind _ _ (anything (trim_required (some input.company_id) "companyId"))
            λ company_id _.
              Ensures-bind _ _ (anything (trim_required (some input.room_id) "roomId")) λ room_id _.
                Ensures-bind _ _ (anything (trim_required (some input.message_id) "messageId"))
                  λ message_id _.
                    Ensures-pure _ record { decision = ignored _; only = refl; safe = tt }

  route-Good :
      (turn : Turn) (c : TargetCandidate)
      → IsChecked input turn
      → resolve_target_candidate h input turn.actor (known_member_ids input.employee_ids) ≡ some c
      → (c.member_id == turn.actor) ≡ false
      → is_known (known_member_ids input.employee_ids) c.member_id ≡ true
      → Good (route input turn c)
  unfolding Good route Any
  route-Good turn c t e o k =
      Ensures-bind _ _ (anything (build_event_key input c.member_id)) λ event_key _.
        Ensures-bind _ _ (anything (build_chain_id input)) λ chain_id _.
          Ensures-bind _ _ (anything (entry_part input.entry_id)) λ entry_id _.
            Ensures-pure _ record {
              decision = routable _;
              only = refl;
              safe = record {
                actor = t.actor;
                chosen = e;
                other = o;
                known = k;
                room = t.room;
                company = t.company;
              };
            }

  decide_target-Good :
      (turn : Turn) (o : Option TargetCandidate)
      → IsChecked input turn
      → resolve_target_candidate h input turn.actor (known_member_ids input.employee_ids) ≡ o
      → Good (decide_target input turn (known_member_ids input.employee_ids) o)
  unfolding Good decide_target
  decide_target-Good turn none t e = ignore-Good no_target_member none
  decide_target-Good turn (some c) t e =
      Ensures-choose _ _ _ (λ _. ignore-Good actor_message_not_routable (some c.member_id))
        λ o.
          Ensures-choose _ _ _ (λ k. route-Good turn c t e o k)
            (λ _. ignore-Good unknown_target_member (some c.member_id))

dispatches-Good : (h : Hashing) (input : DispatchInput) → Good h input (build_dispatches h input)
unfolding Good build_dispatches
dispatches-Good h input =
    Ensures-bind _ _ (check_turn-Ensures input) λ turn t. decide_target-Good h input turn _ t refl

-- A message of a chat that can be decided on gets exactly one decision. If it is handed on, it goes
-- to the candidate for its actor, who is another member than the actor and a known one, in the room
-- and the company of the conversation.
pub build_dispatches-IsOneDecision :
    (h : Hashing) (input : DispatchInput)
    → Returns (IsOneDecision h input) (build_dispatches h input tt).0
unfolding Good
build_dispatches-IsOneDecision h input = ((dispatches-Good h input).at tt tt).1
