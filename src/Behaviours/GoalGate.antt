-- ===== src/Behaviours/GoalGate.antt =====
-- app/execution/behaviours/goal_confirmation_gate.py: the gate that has an operator confirm that
-- the mission's goal is met.
pub mod Ticks
pub mod Laws
use hmta_service.Prelude.{
  ℕ, ◌+◌, ◌-◌, String, Option, none, some, Bool, true, false, not, ◌&&◌, List, [], ◌∷◌, ◌++◌, ◌==◌,
  nat_eq, ltb, if◌then◌else◌,
}
use hmta_service.Command.{
  AbstractCommand, CommandState, completed, failed, ResolveResult, resolved, refused,
  CommandResolver, Translators,
}
use hmta_service.Command.Status.{or_default, get_status, cancel}
use hmta_service.Command.Resolver.{resolve}
use hmta_service.Behaviours.{
  Input, answer_id, Status, success, running, invalid, Value, flag, count, value_eq, is_truthy,
  Condition, MissionGoal, ReviewSession, Blackboard, bb_get, bb_set,
}

pub data Phase : Type 0 where
  monitoring confirming : Phase

-- The gate's settings and state. `id` stands for the node's identifier.
pub record Gate : Type 0 where
  pub id : String
  pub human_supervisor_id : String
  pub timeout_sec : ℕ
  pub has_resolver : Bool
  pub has_oracle : Bool
  pub phase : Phase
  pub directive_id : Option String
  pub confirm_start : ℕ
  pub rejected_count : ℕ
  pub review_session_id : Option (String × ℕ)

-- A judgment that the gate passes to the oracle: the entity, the key, and whether it is confirmed.
pub record Judgment : Type 0 where
  pub entity : String
  pub key : String
  pub confirmed : Bool

-- What a tick changes beside the gate.
pub record World (Params Payload : Type 0) : Type 0 where
  pub bb : Blackboard
  pub resolver : CommandResolver Params Payload
  pub judgments : List Judgment

unfoldable pub initialise : Gate → Gate
initialise g = record g {
  phase = monitoring;
  directive_id = none;
  rejected_count = 0;
  review_session_id = none;
}

abbrev pub confirmed_key : String
confirmed_key = "mission_goal_confirmed"

abbrev pub rejected_key : String
rejected_key = "mission_goal_rejected_count"

-- `_open_review_session`
unfoldable pub open_review_session : ℕ → Gate → Blackboard → Gate × Blackboard
open_review_session now g bb = (
  record g { review_session_id = some (g.id, g.rejected_count) },
  record bb {
    sessions =
        bb.sessions
        ++ record {
          id = (g.id, g.rejected_count);
          entity_id = g.human_supervisor_id;
          started_at = now;
          ended_at = none;
          status = "waiting";
        }
          ∷ [];
  },
)

abbrev is_waiting : String × ℕ → ReviewSession → Bool
is_waiting (gate, n) s =
    s.id.0 == gate && nat_eq s.id.1 n && elim s.ended_at [ none ↦ true | some _ ↦ false ]

unfoldable pub end_session : String × ℕ → String → ℕ → List ReviewSession → List ReviewSession
end_session id outcome now [] = []
end_session id outcome now (s ∷ rest) =
    if is_waiting id s
    then record s { ended_at = some now; status = outcome } ∷ rest
    else s ∷ end_session id outcome now rest

-- `_close_review_session`
unfoldable pub close_review_session : String → ℕ → Gate → Blackboard → Gate × Blackboard
unfolding end_session
close_review_session outcome now g bb = elim g.review_session_id [
  | none ↦ (g, bb)
  | some id ↦ (
    record g { review_session_id = none },
    record bb { sessions = end_session id outcome now bb.sessions },
  )
]

abbrev pub judge :
    {Params Payload : Type 0} → Gate → String → Bool → World Params Payload → World Params Payload
judge g key confirmed w =
    if g.has_oracle && not (w.bb.detecting_entity == "")
    then record w {
      judgments =
          w.judgments
          ++ record { entity = w.bb.detecting_entity; key = key; confirmed = confirmed } ∷ [];
    }
    else w

abbrev pub reset_key : String → Blackboard → Blackboard
reset_key key bb = if key == "" then bb else bb_set key (flag false) bb

-- The condition that the gate waits for, if it has to wait at all.
unfoldable pub pending : Blackboard → Option Condition
pending bb = elim bb.mission_goal [
  | none ↦ none
  | some goal ↦
      if or_default goal.requires_confirmation true && not (is_truthy (bb_get bb confirmed_key))
      then goal.success_condition
      else none
]
