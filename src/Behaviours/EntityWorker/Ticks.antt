-- ===== src/Behaviours/EntityWorker/Ticks.antt =====
-- The tick of the worker: the choice of a task, and the other phases.
use hmta_service.Prelude.{ℕ, ◌-◌, String, Option, none, some, Bool, List, length, if◌then◌else◌}
use hmta_service.Command.{Translators}
use hmta_service.Behaviours.{Status, success, running, Datum, Task, Blackboard}
use hmta_service.Behaviours.SupervisedFallback.{Clocks}
use hmta_service.Behaviours.EntityWorker.{
  EntityWorker, WorkerWorld, WorkerPhase, idle, executing, human_fallback, CommandParams,
  Transition,
}
use hmta_service.Behaviours.EntityWorker.Goal.{is_detection_active}
use hmta_service.Behaviours.EntityWorker.Queue.{pick_next_task}
use hmta_service.Behaviours.EntityWorker.Steps.{build_exec_steps, dispatch_step}
use hmta_service.Behaviours.EntityWorker.Moves.{first_step, progress, mark}
use hmta_service.Behaviours.EntityWorker.Executing.{handle_executing}
use hmta_service.Behaviours.EntityWorker.Fallback.{handle_human_fallback}

-- `get_state_snapshot`; the elapsed times are in whole units.
pub record Snapshot : Type 0 where
  pub entity_id : String
  pub phase : WorkerPhase
  pub current_task_id : Option String
  pub exec_steps : List String
  pub step_index : ℕ
  pub detection_halted : Bool
  pub fallback_elapsed_sec : Option ℕ
  pub exec_elapsed_sec : Option ℕ
  pub transition_log : List Transition

abbrev in_fallback : WorkerPhase → ℕ → Option ℕ
in_fallback human_fallback n = some n
in_fallback _ n = none

abbrev in_execution : WorkerPhase → ℕ → Option ℕ
in_execution executing n = some n
in_execution _ n = none

abbrev id_of : Option Task → Option String
id_of none = none
id_of (some t) = some t.id

unfoldable pub get_state_snapshot : ℕ → Blackboard → EntityWorker → Snapshot
get_state_snapshot now bb w = record {
  entity_id = w.entity_id;
  phase = w.phase;
  current_task_id = id_of w.current_task;
  exec_steps = w.exec_steps;
  step_index = w.step_index;
  detection_halted = is_detection_active bb;
  fallback_elapsed_sec = in_fallback w.phase (now - w.fallback_start);
  exec_elapsed_sec = in_execution w.phase (now - w.exec_start);
  transition_log = w.transition_log;
}

abbrev pub goes_on :
    {Payload : Type 0}
    → EntityWorker × WorkerWorld Payload
    → Status × EntityWorker × WorkerWorld Payload
goes_on (w, s) = (running, w, s)

module _ {Payload : Type 0} (tx : Translators CommandParams Payload)
    (zone_target : Blackboard → Datum → Datum) (c : Clocks) where
  abbrev pub picked :
      Task
      → EntityWorker
      → WorkerWorld Payload × Option String
      → Status × EntityWorker × WorkerWorld Payload
  picked t w (s, none) = (
    running,
    record w { current_task = none },
    mark c.wall t.id "failed" (some "dispatch_error") none s,
  )
  picked t w (s, some id) = (
    running,
    progress c.wall idle executing "task_picked" t (1, length w.exec_steps)
        (record w { command_id = some id; phase = executing }),
    s,
  )

  unfoldable pub begin :
      Option Task × EntityWorker × WorkerWorld Payload → Status × EntityWorker × WorkerWorld Payload
  unfolding build_exec_steps dispatch_step
  begin (none, w, s) = (success, w, s)
  begin (some t, w, s) =
      let w1 : EntityWorker = record w {
        current_task = some t;
        exec_start = c.input.now;
        exec_steps = build_exec_steps t;
        step_index = 0;
      } in
      picked t w1 (
        dispatch_step tx zone_target c.input.fresh_id w1 t (first_step w1.exec_steps)
          (mark c.wall t.id "executing" none none s))

module _ {Payload : Type 0} (tx : Translators CommandParams Payload)
    (zone_target : Blackboard → Datum → Datum) (proximity : String → Blackboard → Task → ℕ)
    (c : Clocks) where
  -- `_handle_idle`
  unfoldable pub handle_idle :
      EntityWorker → WorkerWorld Payload → Status × EntityWorker × WorkerWorld Payload
  unfolding begin pick_next_task
  handle_idle w s =
      if is_detection_active s.bb
      then (running, w, s)
      else begin tx zone_target c (pick_next_task proximity c.wall w s)

  abbrev pub in_phase :
      WorkerPhase → EntityWorker → WorkerWorld Payload → Status × EntityWorker × WorkerWorld Payload
  in_phase idle w s = handle_idle w s
  in_phase executing w s = goes_on (handle_executing tx zone_target c w s)
  in_phase human_fallback w s = goes_on (handle_human_fallback tx zone_target c w s)

  unfoldable pub update :
      EntityWorker → WorkerWorld Payload → Status × EntityWorker × WorkerWorld Payload
  update w s = in_phase w.phase w s
