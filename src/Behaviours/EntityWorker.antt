-- ===== src/Behaviours/EntityWorker.antt =====
-- app/execution/behaviours/entity_worker.py: the worker of one machine. It picks tasks off the
-- shared queue, has them carried out step by step, and asks a human where that fails.
pub mod Goal
pub mod Queue
pub mod Steps
pub mod Moves
pub mod Executing
pub mod Fallback
pub mod Ticks
pub mod Finds
pub mod Writes
pub mod Halts
pub mod Turns
pub mod Waits
pub mod Evolution
pub mod Picks
pub mod Sorting
pub mod Starts
pub mod Fleet
pub mod Begun
pub mod Begins
pub mod Runs
pub mod Deadlines
pub mod Log
use hmta_service.Prelude.{
  ℕ, String, Option, none, some, Bool, List, [], ◌∷◌, ◌++◌, ltb, length, take_last, if◌then◌else◌,
}
use hmta_service.Prelude.Dict.{Dict}
use hmta_service.Command.{CommandResolver}
use hmta_service.Behaviours.{Waypoint, Datum, Task, Blackboard}

pub data WorkerPhase : Type 0 where
  idle executing human_fallback : WorkerPhase

-- An entry of the transition log.
pub record Transition : Type 0 where
  pub ts : ℕ
  pub from_phase : WorkerPhase
  pub to_phase : WorkerPhase
  pub trigger : String
  pub task_id : Option String
  pub step : Option (ℕ × ℕ)
  pub stolen_from : Option String

-- The worker's settings and state. The current task is an entry of the queue, which the worker
-- shares: it is read there, by its id, and the copy serves only if the queue has lost it.
pub record EntityWorker : Type 0 where
  pub entity_id : String
  pub human_supervisor_id : String
  pub fallback_timeout : ℕ
  pub work_stealing_enabled : Bool
  pub has_resolver : Bool
  pub has_zenoh : Bool
  pub phase : WorkerPhase
  pub current_task : Option Task
  pub command_id : Option String
  pub fallback_start : ℕ
  pub exec_start : ℕ
  pub exec_steps : List String
  pub step_index : ℕ
  pub transition_log : List Transition

-- The parameters of a request for a human's help.
pub record AssistRequest : Type 0 where
  pub task_id : String
  pub task_intent : String
  pub failing_step : String
  pub step_progress : ℕ × ℕ
  pub task_params : Dict Datum
  pub required_capabilities : List String
  pub entity : String
  pub reason : String

-- The parameters of the worker's commands.
pub data CommandParams : Type 0 where
  own : Dict Datum → CommandParams
  waypoints : List Waypoint → CommandParams
  target : Datum → CommandParams
  assist : AssistRequest → CommandParams

-- What the worker itself publishes on the bus.
pub data Event : Type 0 where
  stop : String → Event
  work_stealing : (entity task stolen_from intent : String) (timestamp : ℕ) → Event

-- What a tick changes beside the worker.
pub record WorkerWorld (Payload : Type 0) : Type 0 where
  pub bb : Blackboard
  pub resolver : CommandResolver CommandParams Payload
  pub events : List Event

abbrev pub human_fallback_timeout_sec : ℕ
human_fallback_timeout_sec = 180

abbrev pub command_timeout_sec : ℕ
command_timeout_sec = 120

abbrev pub max_transition_log : ℕ
max_transition_log = 50

-- `_record_transition`
unfoldable pub record_transition : Transition → EntityWorker → EntityWorker
record_transition entry w =
    let log = w.transition_log ++ entry ∷ [] in
    record w {
      transition_log =
          if ltb max_transition_log (length log) then take_last max_transition_log log else log;
    }

-- An entry that names no more than a task.
abbrev pub passes :
    ℕ → WorkerPhase → WorkerPhase → String → Option String → EntityWorker → EntityWorker
passes wall source goal trigger task_id w =
    record_transition
      (record {
        ts = wall;
        from_phase = source;
        to_phase = goal;
        trigger = trigger;
        task_id = task_id;
        step = none;
        stolen_from = none;
      })
      w

abbrev reset : EntityWorker → EntityWorker
reset w = record w {
  phase = idle;
  current_task = none;
  command_id = none;
  exec_steps = [];
  step_index = 0;
}

abbrev noted_reset : ℕ → WorkerPhase → EntityWorker → EntityWorker
noted_reset wall idle w = w
noted_reset wall old w = passes wall old idle "initialise" none w

unfoldable pub initialise : ℕ → EntityWorker → EntityWorker
unfolding record_transition
initialise wall w = noted_reset wall w.phase (reset w)
