-- ===== src/Behaviours/CommandAction.antt =====
-- app/execution/behaviours/command_action.py: the leaf that sends one command, after its parameters
-- are there, or sweeps a zone waypoint by waypoint.
pub mod Zones
pub mod Sweep
pub mod Starts
pub mod Ticks
pub mod Ends
pub mod Sweeps
pub mod Cleared
pub mod Skips
use hmta_service.Prelude.{[], ℕ, String, Option, Bool, List, ◌∷◌}
use hmta_service.Behaviours.{Datum, Blackboard, Waypoint}
use hmta_service.Prelude.Dict.{Dict}
use hmta_service.Command.{CommandResolver}

pub data ActionState : Type 0 where
  resolving waiting_params executing sweeping error : ActionState

-- A cell of the grid that a sweep covers.
pub record Cell : Type 0 where
  pub row : ℕ
  pub col : ℕ
  pub cx : ℕ
  pub cy : ℕ
  pub scanned : Bool

-- The leaf's settings and state; `node_id` is "py-" and the node's identifier.
pub record CommandAction : Type 0 where
  pub intent : String
  pub entity_id : String
  pub short_id : String
  pub params : Dict Datum
  pub has_resolver : Bool
  pub has_bridge : Bool
  pub command_id : Option String
  pub state : ActionState
  pub wait_start : ℕ
  pub exec_start : ℕ
  pub pending_human : List String
  pub sweep_waypoints : List Waypoint
  pub sweep_index : ℕ
  pub sweep_grid_cells : List Cell
  pub sweep_last_pub : ℕ

-- What the leaf publishes: a request for parameters, the grid (whether only the scanned cells), and
-- that the coverage of the zones has changed.
pub data Report : Type 0 where
  param_request : List String → Report
  scan_grid : Bool → List Cell → Report
  zone_coverage : Report

-- A zone's waypoints and cells, as the blackboard has them.
pub record ScanPlan : Type 0 where
  pub scan_waypoints : List Waypoint
  pub grid_cells : List Cell

pub record ActionWorld (Params Payload : Type 0) : Type 0 where
  pub bb : Blackboard
  pub scan_plans : Dict ScanPlan
  pub answers : Dict (Dict Datum)  -- `param_response/{node}`, by the node's identifier
  pub resolver : CommandResolver Params Payload
  pub reports : List Report

-- The clock of a tick, and the ids of the commands that it may send.
pub record Ticking : Type 0 where
  pub now : ℕ
  pub fresh_id : ℕ → String

abbrev pub param_wait_timeout_sec : ℕ
param_wait_timeout_sec = 120

abbrev pub fallback_execution_timeout : ℕ
fallback_execution_timeout = 120

abbrev pub sweep_timeout_sec : ℕ
sweep_timeout_sec = 30

abbrev pub default_execution_timeout : Dict ℕ
default_execution_timeout =
    ("navigate", 120)
    ∷ ("move", 120)
    ∷ ("navigation", 120)
    ∷ ("patrol", 300)
    ∷ ("follow_by_path", 300)
    ∷ ("scan", 30)
    ∷ ("detect", 30)
    ∷ ("wait", 600)
    ∷ ("halt", 600)
    ∷ ("disarm", 120)
    ∷ ("mark_target", 60)
    ∷ []

abbrev pub navigation_intents : List String
navigation_intents = "navigate" ∷ "navigation" ∷ "move" ∷ "patrol" ∷ "follow_by_path" ∷ []

abbrev pub scan_intents : List String
scan_intents = "scan" ∷ "detect" ∷ []
