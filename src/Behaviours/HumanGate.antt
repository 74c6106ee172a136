-- ===== src/Behaviours/HumanGate.antt =====
-- app/execution/behaviours/human_gate.py: a directive to a human, and the wait for the answer.
pub mod Ticks
pub mod Laws
pub mod Ends
use hmta_service.Prelude.{
  ℕ, ◌+◌, ◌-◌, ◌*◌, String, Option, none, some, Bool, true, false, not, ◌&&◌, List, [], ◌∷◌, ◌++◌,
  ◌==◌, nat_eq, ltb, leb, any, elem, if◌then◌else◌,
}
use hmta_service.Prelude.Dict.{lookup, put, remove}
use hmta_service.Prelude.Text.{concat}
use hmta_service.Command.{
  AbstractCommand, CommandState, completed, failed, CommandResolver, Translators,
}
use hmta_service.Command.Status.{get_status, cancel}
use hmta_service.Command.Resolver.{resolve}
use hmta_service.Behaviours.{
  Status, success, failure, running, invalid, Input, answer_id, Value, text, is_truthy, Waypoint,
  ParamResponse, Blackboard, plain_set, plain_pop,
}

-- The gate's settings and state. `suffix` is the part of the node's identifier that its commands
-- carry; `has_reason` tells whether "reason" is among the parameters.
pub record HumanGate (Params : Type 0) : Type 0 where
  pub suffix : String
  pub entity_id : String
  pub intent : String
  pub params : Params
  pub has_reason : Bool
  pub timeout_sec : ℕ
  pub max_retries : ℕ
  pub has_resolver : Bool
  pub has_zenoh : Bool
  pub directive_id : Option String
  pub start_time : ℕ
  pub retry_count : ℕ
  pub reminders_sent : List ℕ

-- What a tick changes beside the gate; a reminder goes to an entity, with the seconds that remain.
pub record Outside (Params Payload : Type 0) : Type 0 where
  pub bb : Blackboard
  pub resolver : CommandResolver Params Payload
  pub reminders : List (String × ℕ)

-- `_REMINDER_INTERVALS`, in percent.
abbrev pub reminder_intervals : List (ℕ × ℕ)
reminder_intervals = (0, 50) ∷ (1, 75) ∷ (2, 90) ∷ []

abbrev pub waypoint_intents : List String
waypoint_intents =
    "path_planning" ∷ "plan_path" ∷ "plan_route" ∷ "remote_control" ∷ "remote_operate" ∷ []

-- `_send_reminder`
abbrev pub send_reminder :
    {Params Payload : Type 0}
    → ℕ
    → HumanGate Params
    → Outside Params Payload
    → Outside Params Payload
send_reminder remaining g w =
    if g.has_zenoh then record w { reminders = w.reminders ++ (g.entity_id, remaining) ∷ [] } else w

-- The waypoints of a response: those at the top, else those under `params`.
abbrev pub or_else : List Waypoint → List Waypoint → List Waypoint
or_else [] others = others
or_else (w ∷ ws) others = w ∷ ws

abbrev pub response_waypoints : ParamResponse → List Waypoint
response_waypoints response = or_else response.waypoints response.params_waypoints
