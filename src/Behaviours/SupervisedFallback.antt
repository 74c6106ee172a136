-- ===== src/Behaviours/SupervisedFallback.antt =====
-- app/execution/behaviours/supervised_fallback.py: a child that runs on its own, and a human who
-- plans a path where it fails.
pub mod Ticks
pub mod Laws
use hmta_service.Prelude.{
  ℕ, ◌+◌, ◌-◌, String, Option, none, some, Bool, true, false, not, ◌&&◌, List, [], ◌∷◌, ◌==◌, ltb,
  leb, if◌then◌else◌,
}
use hmta_service.Prelude.Dict.{lookup, remove}
use hmta_service.Prelude.Text.{concat}
use hmta_service.Command.{
  AbstractCommand, CommandState, completed, failed, CommandStatus, CommandResolver, Translators,
}
use hmta_service.Command.Status.{or_default, get_status, cancel}
use hmta_service.Command.Resolver.{resolve}
use hmta_service.Behaviours.{
  Status, success, failure, running, invalid, Input, answer_id, text, Waypoint, ParamResponse,
  Blackboard, plain_set,
}
use hmta_service.Behaviours.HumanGate.{response_waypoints}

-- The entities of a subtree of behaviours; the empty text stands for a node without one.
mutual
  pub data Subtree : Type 0 where
    node : String → Forest → Subtree

  pub data Forest : Type 0 where
    no_children : Forest
    add_child : Subtree → Forest → Forest

-- `_find_entity`: the first entity, from the top, that is not the human's.
abbrev pub or_found : Option String → Option String → Option String
or_found (some e) other = some e
or_found none other = other

unfoldable mutual
  pub find_entity : String → Subtree → Option String
  find_entity human (node e children) =
      let below = find_in human children in
      if not (e == "") && not (e == human) then some e else below

  pub find_in : String → Forest → Option String
  find_in human no_children = none
  find_in human (add_child t rest) = or_found (find_entity human t) (find_in human rest)

-- `_get_robot_entity_id`
unfoldable pub get_robot_entity_id : String → Subtree → String
unfolding find_entity
get_robot_entity_id human t = or_default (find_entity human t) "unknown"

pub data FallbackPhase : Type 0 where
  autonomous human_gate follow_path : FallbackPhase

-- The decorator's settings and state. `child` is the state of the subtree that it drives.
pub record Fallback (Child : Type 0) : Type 0 where
  pub suffix : String
  pub human_entity_id : String
  pub subtree : Subtree
  pub max_retries : ℕ
  pub timeout_sec : ℕ
  pub has_resolver : Bool
  pub child : Child
  pub phase : FallbackPhase
  pub retry_count : ℕ
  pub directive_id : Option String
  pub follow_cmd_id : Option String
  pub gate_start : ℕ
  pub follow_start : ℕ
  pub failure_reason : String

-- What a tick changes beside the decorator and its child.
pub record Surroundings (Params Payload : Type 0) : Type 0 where
  pub bb : Blackboard
  pub resolver : CommandResolver Params Payload

-- The child's tick: its status and its feedback message; and the two clocks of a tick.
pub record ChildTick (Child World : Type 0) : Type 0 where
  pub status : Status
  pub feedback_message : String
  pub after : Child
  pub world : World

pub record Clocks : Type 0 where
  pub input : Input  -- `time.monotonic`, and the id of a command
  pub wall : ℕ  -- `time.time`

abbrev pub non_blank : String → String → String
non_blank s other = if s == "" then other else s

abbrev pub waypoints_of : Option ParamResponse → List Waypoint
waypoints_of none = []
waypoints_of (some response) = response_waypoints response

abbrev pub reason_of : Option String → String
reason_of none = "follow_by_path failed"
reason_of (some error) = non_blank error "follow_by_path failed"
