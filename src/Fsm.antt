-- ===== src/Fsm.antt =====
-- app/execution/fsm: the state machines of robots and humans as tables, and the manager that holds
-- one for each entity.
pub mod Manager
pub mod Laws
pub mod Tracks
pub mod Reachable
use hmta_service.Prelude.{
  String, Option, none, some, Bool, true, false, ◌&&◌, List, [], ◌∷◌, ◌++◌, ◌==◌, ◌≡◌,
  if◌then◌else◌,
}
use hmta_service.Prelude.Options.{◌>>=◌}

-- One `source.to(target)` of an event.
pub record Transition : Type 0 where
  pub event : String
  pub source : String
  pub target : String

-- A subclass of the library's `StateMachine`.
pub record Machine : Type 0 where
  pub initial : String
  pub states : List String
  pub transitions : List Transition

-- An event with several sources, `a.to(t) | b.to(t) | …`.
abbrev pub from_all : String → List String → String → List Transition
from_all event [] target = []
from_all event (s ∷ ss) target =
    record { event = event; source = s; target = target } ∷ from_all event ss target

abbrev pub from : String → String → String → List Transition
from event source target = from_all event (source ∷ []) target

-- `RobotFSM`
abbrev pub robot_fsm : Machine
robot_fsm = record {
  initial = "idle";
  states =
      "idle" ∷ "moving" ∷ "scanning" ∷ "target_marked" ∷ "disarming" ∷ "stuck" ∷ "sensor_fault"
      ∷ "battery_low" ∷ "offline" ∷ [];
  transitions =
      from "move_command" "idle" "moving"
      ++ from "waypoint_reached" "moving" "idle"
      ++ from "scan_command" "idle" "scanning"
      ++ from "scan_complete" "scanning" "idle"
      ++ from "explosive_detected" "scanning" "target_marked"
      ++ from "disarm_command" "target_marked" "disarming"
      ++ from "disarm_complete" "disarming" "idle"
      ++ from "navigation_failed" "moving" "stuck"
      ++ from "stuck_resolved" "stuck" "idle"
      ++ from "sensor_repaired" "sensor_fault" "idle"
      ++ from "battery_recovered" "battery_low" "idle"
      ++ from_all "sensor_failure" ("idle" ∷ "moving" ∷ "scanning" ∷ []) "sensor_fault"
      ++ from_all "battery_low_event" ("idle" ∷ "moving" ∷ "scanning" ∷ []) "battery_low"
      ++ from_all "comm_lost"
          ("idle" ∷ "moving" ∷ "scanning" ∷ "target_marked" ∷ "disarming" ∷ "stuck" ∷ "battery_low"
            ∷ [])
          "offline"
      ++ from "comm_restored" "offline" "idle";
}

-- `HumanFSM`
abbrev pub human_fsm : Machine
human_fsm = record {
  initial = "idle";
  states =
      "idle" ∷ "briefed" ∷ "deciding" ∷ "executing" ∷ "reporting" ∷ "overloaded" ∷ "fatigued"
      ∷ "unresponsive" ∷ [];
  transitions =
      from "directive_received" "idle" "briefed"
      ++ from "briefing_acknowledged" "briefed" "deciding"
      ++ from "decision_made" "deciding" "executing"
      ++ from "task_reported" "executing" "reporting"
      ++ from "report_submitted" "reporting" "idle"
      ++ from "approval_requested" "idle" "deciding"
      ++ from "approval_given" "deciding" "idle"
      ++ from_all "overloaded_event" ("idle" ∷ "briefed" ∷ "deciding" ∷ "executing" ∷ [])
          "overloaded"
      ++ from_all "fatigue_detected" ("idle" ∷ "executing" ∷ []) "fatigued"
      ++ from_all "no_response" ("briefed" ∷ "deciding" ∷ []) "unresponsive"
      ++ from_all "recovered" ("unresponsive" ∷ "overloaded" ∷ "fatigued" ∷ []) "idle";
}

-- The target that the table declares for an event in a state.
unfoldable pub find_target : String → String → List Transition → Option String
find_target state event [] = none
find_target state event (t ∷ ts) =
    if t.event == event && t.source == state then some t.target else find_target state event ts

abbrev pub declared : Machine → String → String → Option String
declared m state event = find_target state event m.transitions

-- What the library documents of `send`: it takes the declared transition, and raises an exception,
-- here `none`, if there is none.
pub record IsStateMachine (send : Machine → String → String → Option String) : Type 0 where
  pub takes :
      (m : Machine) (state event target : String)
      → declared m state event ≡ some target
      → send m state event ≡ some target
  pub refuses :
      (m : Machine) (state event : String)
      → declared m state event ≡ none
      → send m state event ≡ none

-- The state after a row of declared events.
unfoldable pub run : Machine → List String → String → Option String
run m [] state = some state
run m (event ∷ events) state = declared m state event >>= λ target. run m events target
