-- ===== src/Behaviours/EntityWorker/Fallback.antt =====
-- The worker's tick while it waits for a human (`_handle_human_fallback`).
use hmta_service.Prelude.{ℕ, ◌+◌, ◌-◌, ◌*◌, String, Option, none, some, ◌==◌, leb, if◌then◌else◌}
use hmta_service.Prelude.Dict.{update_all}
use hmta_service.Command.{Translators}
use hmta_service.Behaviours.{Datum, HumanAnswer, Task, Blackboard}
use hmta_service.Behaviours.SupervisedFallback.{Clocks}
use hmta_service.Behaviours.EntityWorker.{
  record_transition, EntityWorker, WorkerWorld, idle, executing, human_fallback, CommandParams,
  passes,
}
use hmta_service.Behaviours.EntityWorker.Goal.{is_detection_active}
use hmta_service.Behaviours.EntityWorker.Queue.{
  task_of, update_task_status, read_task_human_response, clear_task_human_response,
}
use hmta_service.Behaviours.EntityWorker.Steps.{build_exec_steps, dispatch_step}
use hmta_service.Behaviours.EntityWorker.Moves.{first_step, leave, mark, edit, halt_for_detection}

module _ {Payload : Type 0} (tx : Translators CommandParams Payload)
    (zone_target : Blackboard → Datum → Datum) (c : Clocks) where
  abbrev fallback_ms : EntityWorker → ℕ
  fallback_ms w = (c.input.now - w.fallback_start) * 1000

  abbrev pub responded : EntityWorker → Task → Task
  responded w t = record t {
    human_intervention_ms = t.human_intervention_ms + fallback_ms w;
    human_response_count = t.human_response_count + 1;
  }

  abbrev pub timed_out : EntityWorker → Task → Task
  timed_out w t = record t {
    human_intervention_ms = t.human_intervention_ms + fallback_ms w;
    human_timeout_count = t.human_timeout_count + 1;
  }

  abbrev pub cleared : Task → WorkerWorld Payload → WorkerWorld Payload
  cleared t s = record s { bb = clear_task_human_response t.id s.bb }

  unfoldable pub skip :
      Task → EntityWorker → WorkerWorld Payload → EntityWorker × WorkerWorld Payload
  unfolding update_task_status clear_task_human_response
  skip t w s = (
    leave c.wall human_fallback "operator_skipped" t w,
    cleared t
        (mark c.wall t.id "skipped" (some "operator_skipped") none (edit t.id (responded w) s)),
  )

  abbrev pub retried :
      Task → EntityWorker → WorkerWorld Payload × Option String → EntityWorker × WorkerWorld Payload
  retried t w (s, none) = (
    leave c.wall human_fallback "redispatch_error" t w,
    mark c.wall t.id "failed" (some "redispatch_error") none s,
  )
  retried t w (s, some id) = (
    passes c.wall human_fallback executing "retry_with_params" (some t.id)
        (record w { command_id = some id; phase = executing }),
    s,
  )

  abbrev pub merged : HumanAnswer → EntityWorker → Task → Task
  merged answer w t = record (responded w t) { params = update_all t.params answer.params }

  unfoldable pub retry :
      HumanAnswer → Task → EntityWorker → WorkerWorld Payload → EntityWorker × WorkerWorld Payload
  unfolding update_task_status clear_task_human_response dispatch_step build_exec_steps
  retry answer t w s =
      let t1 = merged answer w t in
      let s1 = mark c.wall t.id "executing" none none (cleared t (edit t.id (merged answer w) s)) in
      let w1 : EntityWorker = record w {
        exec_start = c.input.now;
        exec_steps = build_exec_steps t1;
        step_index = 0;
      } in
      retried t w1
        (dispatch_step tx zone_target c.input.fresh_id w1 t1 (first_step w1.exec_steps) s1)

  unfoldable pub answered :
      Option HumanAnswer
      → Task
      → EntityWorker
      → WorkerWorld Payload
      → EntityWorker × WorkerWorld Payload
  unfolding skip retry
  answered (some answer) t w s =
      if answer.decision == "skip" then skip t w s else retry answer t w s
  answered none t w s =
      if leb w.fallback_timeout (c.input.now - w.fallback_start)
      then (
        leave c.wall human_fallback "fallback_timeout" t w,
        mark c.wall t.id "failed" (some "human_fallback_timeout") none (edit t.id (timed_out w) s),
      )
      else (w, s)

  abbrev pub with_task :
      Option Task → EntityWorker → WorkerWorld Payload → EntityWorker × WorkerWorld Payload
  with_task none w s =
      (record (passes c.wall human_fallback idle "no_task" none w) { phase = idle }, s)
  with_task (some t) w s =
      if is_detection_active s.bb
      then halt_for_detection c.wall t w s
      else answered (read_task_human_response t.id s.bb) (task_of s.bb t) w s

  -- `_handle_human_fallback`
  unfoldable pub handle_human_fallback :
      EntityWorker → WorkerWorld Payload → EntityWorker × WorkerWorld Payload
  unfolding answered halt_for_detection read_task_human_response task_of record_transition
  handle_human_fallback w s = with_task w.current_task w s
