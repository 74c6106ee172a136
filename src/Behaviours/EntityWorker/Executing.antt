-- ===== src/Behaviours/EntityWorker/Executing.antt =====
-- The worker's tick while it executes a task (`_handle_executing`).
use hmta_service.Prelude.{
  ◌+◌, ◌-◌, ◌*◌, String, Option, none, some, Bool, true, false, ltb, length, get_elem?,
  if◌then◌else◌,
}
use hmta_service.Command.{Translators}
use hmta_service.Behaviours.{Datum, Task, Blackboard}
use hmta_service.Behaviours.SupervisedFallback.{Clocks}
use hmta_service.Behaviours.EntityWorker.{
  record_transition, EntityWorker, WorkerWorld, idle, executing, human_fallback, CommandParams,
  passes, command_timeout_sec,
}
use hmta_service.Behaviours.EntityWorker.Goal.{is_detection_active, write_task_effects}
use hmta_service.Behaviours.EntityWorker.Queue.{find_task, task_of, is_terminal, update_task_status}
use hmta_service.Behaviours.EntityWorker.Steps.{
  given, Poll, succeeded, broken, open_still, should_escalate_to_human, write_intervention_reason,
  poll_command_result, cancel_command, dispatch_step, dispatch_human_fallback_directive,
}
use hmta_service.Behaviours.EntityWorker.Moves.{leave, progress, mark, edit, halt_for_detection}

module _ {Payload : Type 0} (tx : Translators CommandParams Payload)
    (zone_target : Blackboard → Datum → Datum) (c : Clocks) where
  abbrev pub advanced :
      Task → EntityWorker → WorkerWorld Payload × Option String → EntityWorker × WorkerWorld Payload
  advanced t w (s, none) = (
    record (progress c.wall executing idle "dispatch_error_step" t
        (w.step_index + 1, length w.exec_steps) w) {
          phase = idle;
          current_task = none;
          command_id = none;
        },
    mark c.wall t.id "failed" (some "dispatch_error_step") none s,
  )
  advanced t w (s, some id) = (
    progress c.wall executing executing "step_advance" t (w.step_index + 1, length w.exec_steps)
        (record w { command_id = some id }),
    s,
  )

  -- A step is done: the next one is sent, or the task is completed.
  unfoldable pub next_step :
      Task → EntityWorker → WorkerWorld Payload → EntityWorker × WorkerWorld Payload
  unfolding dispatch_step update_task_status
  next_step t w s =
      let w1 : EntityWorker = record w { step_index = w.step_index + 1 } in
      elim (get_elem? w1.exec_steps w1.step_index) [
        | some step ↦ advanced t w1 (dispatch_step tx zone_target c.input.fresh_id w1 t step s)
        | none ↦
            let done =
              mark c.wall t.id "completed" none (some ((c.input.now - w.exec_start) * 1000)) s in
            (
              leave c.wall executing "all_steps_completed" t w1,
              record done { bb = write_task_effects c.wall w t done.bb },
            )
      ]

  abbrev pub counted : Task → Task
  counted t = record t { human_intervention_count = t.human_intervention_count + 1 }

  abbrev trouble : Bool → String
  trouble timed_out = if timed_out then "command_timeout" else "execution_failure"

  -- A command has failed, or its time is up: a human is asked, or the task fails.
  unfoldable pub give_up_step :
      Bool → Task → EntityWorker → WorkerWorld Payload → EntityWorker × WorkerWorld Payload
  unfolding write_intervention_reason dispatch_human_fallback_directive
  give_up_step timed_out t w s =
      if should_escalate_to_human w t
      then (let w1 : EntityWorker = record w {
        phase = human_fallback;
        fallback_start = c.input.now;
      } in
          let (w2, s2) =
            dispatch_human_fallback_directive tx c.input.fresh_id w1 t
              (edit t.id (λ u. write_intervention_reason w timed_out (counted u)) s) in
          (
            passes c.wall executing human_fallback
                (if timed_out then "escalate_timeout" else "escalate_failure") (some t.id) w2,
            s2,
          ))
      else (
        leave c.wall executing (trouble timed_out) t w,
        mark c.wall t.id "failed" (some (trouble timed_out))
            (some ((c.input.now - w.exec_start) * 1000)) s,
      )

  unfoldable pub polled :
      Poll → Task → EntityWorker → WorkerWorld Payload → EntityWorker × WorkerWorld Payload
  unfolding next_step give_up_step
  polled succeeded t w s = next_step t w s
  polled broken t w s = give_up_step false t w s
  polled open_still t w s =
      if ltb command_timeout_sec (c.input.now - w.exec_start)
      then give_up_step true t w s
      else (w, s)

  unfoldable pub watch :
      Task → String → EntityWorker → WorkerWorld Payload → EntityWorker × WorkerWorld Payload
  unfolding polled halt_for_detection poll_command_result task_of
  watch t id w s =
      if is_terminal (find_task s.bb.task_queue t.id)
      then (leave c.wall executing "external_terminate" t w, cancel_command w s)
      else if is_detection_active s.bb
      then halt_for_detection c.wall t w s
      else polled (poll_command_result w s id) (task_of s.bb t) w s

  abbrev pub with_command :
      Option Task
      → Option String
      → EntityWorker
      → WorkerWorld Payload
      → EntityWorker × WorkerWorld Payload
  with_command (some t) (some id) w s = watch t id w s
  with_command _ _ w s =
      (record (passes c.wall executing idle "no_task_or_cmd" none w) { phase = idle }, s)

  -- `_handle_executing`
  unfoldable pub handle_executing :
      EntityWorker → WorkerWorld Payload → EntityWorker × WorkerWorld Payload
  unfolding watch record_transition
  handle_executing w s = with_command w.current_task (given w.command_id) w s
