-- ===== src/Behaviours/EntityWorker/Moves.antt =====
-- What the ticks of the worker share: the end of a turn, the writes, the halt for a detection.
use hmta_service.Prelude.{ℕ, String, Option, none, some, List, [], ◌∷◌, ◌++◌, if◌then◌else◌}
use hmta_service.Behaviours.{Task}
use hmta_service.Behaviours.EntityWorker.{
  EntityWorker, WorkerWorld, WorkerPhase, idle, stop, record_transition, passes,
}
use hmta_service.Behaviours.EntityWorker.Queue.{on_task, update_task_status}
use hmta_service.Behaviours.EntityWorker.Steps.{cancel_command}

abbrev pub first_step : List String → String
first_step [] = ""
first_step (s ∷ ss) = s

-- The end of a task's turn: noted, and back to idle.
abbrev pub leave : ℕ → WorkerPhase → String → Task → EntityWorker → EntityWorker
leave wall source trigger t w = record (passes wall source idle trigger (some t.id) w) {
  phase = idle;
  current_task = none;
  command_id = none;
}

abbrev pub progress :
    ℕ → WorkerPhase → WorkerPhase → String → Task → ℕ × ℕ → EntityWorker → EntityWorker
progress wall source goal trigger t step w =
    record_transition
      (record {
        ts = wall;
        from_phase = source;
        to_phase = goal;
        trigger = trigger;
        task_id = some t.id;
        step = some step;
        stolen_from = none;
      })
      w

abbrev pub revert : Task → Task
revert t = record t { failure_reason = none; completed_at = none }

module _ {Payload : Type 0} where
  abbrev pub mark :
      ℕ → String → String → Option String → Option ℕ → WorkerWorld Payload → WorkerWorld Payload
  mark wall id status reason elapsed s = record s {
    bb = update_task_status wall id status reason elapsed s.bb;
  }

  abbrev pub edit : String → (Task → Task) → WorkerWorld Payload → WorkerWorld Payload
  edit id f s = record s { bb = on_task id f s.bb }

  -- `_halt_for_detection`, for a worker with a task.
  unfoldable pub halt_for_detection :
      ℕ → Task → EntityWorker → WorkerWorld Payload → EntityWorker × WorkerWorld Payload
  unfolding update_task_status record_transition
  halt_for_detection wall t w s =
      let s1 = cancel_command w s in
      let s2 : WorkerWorld Payload = record s1 {
        events = if w.has_zenoh then s1.events ++ stop w.entity_id ∷ [] else s1.events;
      } in
      (
        passes wall w.phase idle "detection_halt" (some t.id) (record w {
          phase = idle;
          current_task = none;
          command_id = none;
          exec_steps = [];
          step_index = 0;
        }),
        edit t.id revert (mark wall t.id "pending" none none s2),
      )
