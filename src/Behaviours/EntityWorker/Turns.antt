-- ===== src/Behaviours/EntityWorker/Turns.antt =====
-- The ticks of a worker that has a task: it goes on with the task or lets it go, and what it writes
-- to the queue is an edit of the task's entry.
use hmta_service.Prelude.{
  sym, subst, if◌then◌else◌, ◌*◌, ◌-◌, ◌∙◌, ◌+◌, get_elem?, ltb, false, Option-cases, Bool, String,
  Option, none, some, true, List, ◌≡◌, inl, inr, refl, ap, Bool-cases,
}
use hmta_service.Command.{Translators}
use hmta_service.Behaviours.{Datum, Task, Blackboard}
use hmta_service.Behaviours.SupervisedFallback.{Clocks}
use hmta_service.Behaviours.EntityWorker.{
  command_timeout_sec, human_fallback, EntityWorker, WorkerWorld, executing, CommandParams,
  record_transition,
}
use hmta_service.Behaviours.EntityWorker.Goal.{is_detection_active, write_task_effects}
use hmta_service.Behaviours.EntityWorker.Queue.{
  task_of, find_task, is_terminal, write_status, update_task_status,
}
use hmta_service.Behaviours.EntityWorker.Steps.{
  given, poll_command_result, should_escalate_to_human, Poll, write_intervention_reason,
  dispatch_step,
}
use hmta_service.Behaviours.EntityWorker.Writes.{
  kept_on, unwritten, Turn, unwritten_as, fields_kept, released,
}
use hmta_service.Behaviours.EntityWorker.Moves.{edit}
use hmta_service.Behaviours.EntityWorker.Executing.{
  with_command, counted, give_up_step, watch, polled, next_step, handle_executing, advanced,
}
use hmta_service.Behaviours.EntityWorker.Finds.{task_of-id}
use hmta_service.Behaviours.EntityWorker.Halts.{
  dispatch_step-bb, halt_for_detection-Turn, write_effects-queue, directive_kept,
  write_status-IsEdit, cancel_command-bb,
}

module _ {Payload : Type 0} (tx : Translators CommandParams Payload)
    (zone_target : Blackboard → Datum → Datum) (c : Clocks) where
  advanced-Turn :
      (t : Task) (own : Task) (w : EntityWorker) (p : WorkerWorld Payload × Option String)
      (q : List Task)
      → w.phase ≡ executing
      → w.current_task ≡ some own
      → t.id ≡ own.id
      → p.0.bb.task_queue ≡ q
      → Turn w.entity_id own q
          (advanced tx zone_target c t w p).0
          (advanced tx zone_target c t w p).1.bb.task_queue
  unfolding update_task_status record_transition
  advanced-Turn t own w (s, none) q phase current named e = record {
    same_entity = refl;
    outcome = inr (
      refl,
      released (write_status c.wall "failed" (some "dispatch_error_step") none)
          (write_status-IsEdit c.wall "failed" (some "dispatch_error_step") none)
          (rw (named, e) refl),
    );
  }
  advanced-Turn t own w (s, some id) q phase current named e = record {
    same_entity = refl;
    outcome = inl (rw phase refl, current, unwritten_as true own.id e);
  }

  next_step-Turn :
      (t : Task) (own : Task) (w : EntityWorker) (s : WorkerWorld Payload)
      → w.phase ≡ executing
      → w.current_task ≡ some own
      → t.id ≡ own.id
      → Turn w.entity_id own s.bb.task_queue
          (next_step tx zone_target c t w s).0
          (next_step tx zone_target c t w s).1.bb.task_queue
  unfolding next_step update_task_status record_transition write_task_effects
  next_step-Turn t own w s phase current named =
      elim (Option-cases (get_elem? w.exec_steps (w.step_index + 1))) [
        | inl e ↦
            rw (e, next_step)
              (record {
                same_entity = refl;
                outcome = inr (
                  refl,
                  released
                      (write_status c.wall "completed" none
                        (some ((c.input.now - w.exec_start) * 1000)))
                      (write_status-IsEdit c.wall "completed" none
                        (some ((c.input.now - w.exec_start) * 1000)))
                      (write_effects-queue w.entity_id c.wall t.effects _ ∙ rw named refl),
                );
              })
        | inr (step, e) ↦
            rw (e, next_step)
              (advanced-Turn t own (record w { step_index = w.step_index + 1 })
                (dispatch_step tx zone_target c.input.fresh_id
                  (record w { step_index = w.step_index + 1 }) t step s)
                s.bb.task_queue phase current named
                (ap (λ (bb : Blackboard). bb.task_queue)
                  (dispatch_step-bb tx zone_target c.input.fresh_id
                    (record w { step_index = w.step_index + 1 }) t step s)))
      ]

  give_up_step-Turn :
      (timed_out : Bool) (t : Task) (own : Task) (w : EntityWorker) (s : WorkerWorld Payload)
      → w.current_task ≡ some own
      → t.id ≡ own.id
      → Turn w.entity_id own s.bb.task_queue
          (give_up_step tx zone_target c timed_out t w s).0
          (give_up_step tx zone_target c timed_out t w s).1.bb.task_queue
  unfolding give_up_step update_task_status record_transition write_intervention_reason
  give_up_step-Turn timed_out t own w s current named =
      elim (Bool-cases (should_escalate_to_human w t)) [
        | inl e ↦
            let w1 : EntityWorker = record w {
              phase = human_fallback;
              fallback_start = c.input.now;
            } in
            let f : Task → Task =
              λ (u : Task). write_intervention_reason w timed_out (counted tx zone_target c u) in
            let (bb, phase, task, entity) =
              directive_kept tx zone_target c.input.fresh_id w1 t (edit t.id f s) in
            rw e (record {
              same_entity = entity;
              outcome = inl (
                rw phase refl,
                task ∙ current,
                kept_on f (fields_kept f (λ u. (refl, refl, refl))) (λ u h. h)
                    (ap (λ (b : Blackboard). b.task_queue) bb ∙ rw named refl),
              );
            })
        | inr e ↦ rw e (record {
          same_entity = refl;
          outcome = inr (
            refl,
            released
                (write_status c.wall "failed"
                  (some (if timed_out then "command_timeout" else "execution_failure"))
                  (some ((c.input.now - w.exec_start) * 1000)))
                (write_status-IsEdit c.wall "failed"
                  (some (if timed_out then "command_timeout" else "execution_failure"))
                  (some ((c.input.now - w.exec_start) * 1000)))
                (rw named refl),
          );
        })
      ]

  polled-Turn :
      (poll : Poll) (t : Task) (own : Task) (w : EntityWorker) (s : WorkerWorld Payload)
      → w.phase ≡ executing
      → w.current_task ≡ some own
      → t.id ≡ own.id
      → Turn w.entity_id own s.bb.task_queue
          (polled tx zone_target c poll t w s).0
          (polled tx zone_target c poll t w s).1.bb.task_queue
  unfolding polled
  polled-Turn Poll.succeeded t own w s phase current named =
      next_step-Turn t own w s phase current named
  polled-Turn Poll.broken t own w s phase current named =
      give_up_step-Turn false t own w s current named
  polled-Turn Poll.open_still t own w s phase current named =
      elim (Bool-cases (ltb command_timeout_sec (c.input.now - w.exec_start))) [
        | inl e ↦ rw e (give_up_step-Turn true t own w s current named)
        | inr e ↦ rw e (record {
          same_entity = refl;
          outcome = inl (rw phase refl, current, unwritten true own.id s.bb.task_queue);
        })
      ]

  watch-Turn :
      (t : Task) (id : String) (w : EntityWorker) (s : WorkerWorld Payload)
      → w.phase ≡ executing
      → w.current_task ≡ some t
      → Turn w.entity_id t s.bb.task_queue
          (watch tx zone_target c t id w s).0
          (watch tx zone_target c t id w s).1.bb.task_queue
  unfolding watch record_transition
  watch-Turn t id w s phase current =
      elim (Bool-cases (is_terminal (find_task s.bb.task_queue t.id))) [
        | inl e ↦ rw e (record {
          same_entity = refl;
          outcome = inr (
            refl,
            unwritten_as false t.id
                (ap (λ (bb : Blackboard). bb.task_queue) (cancel_command-bb w s)),
          );
        })
        | inr e ↦ elim (Bool-cases (is_detection_active s.bb)) [
          | inl d ↦ rw (e, d) (halt_for_detection-Turn c.wall t w s)
          | inr d ↦
              rw (e, d)
                (polled-Turn (poll_command_result w s id) (task_of s.bb t) t w s phase current
                  (task_of-id s.bb t))
        ]
      ]

  with_command-Turn :
      (t : Task) (k : Option String) (w : EntityWorker) (s : WorkerWorld Payload)
      → w.phase ≡ executing
      → w.current_task ≡ some t
      → Turn w.entity_id t s.bb.task_queue
          (with_command tx zone_target c (some t) k w s).0
          (with_command tx zone_target c (some t) k w s).1.bb.task_queue
  unfolding record_transition
  with_command-Turn t none w s phase current = record {
    same_entity = refl;
    outcome = inr (refl, unwritten false t.id s.bb.task_queue);
  }
  with_command-Turn t (some id) w s phase current = watch-Turn t id w s phase current

  pub handle_executing-Turn :
      (t : Task) (w : EntityWorker) (s : WorkerWorld Payload)
      → w.phase ≡ executing
      → w.current_task ≡ some t
      → Turn w.entity_id t s.bb.task_queue
          (handle_executing tx zone_target c w s).0
          (handle_executing tx zone_target c w s).1.bb.task_queue
  unfolding handle_executing
  handle_executing-Turn t w s phase current =
      subst
        (λ (o : Option Task).
          Turn w.entity_id t s.bb.task_queue
            (with_command tx zone_target c o (given w.command_id) w s).0
            (with_command tx zone_target c o (given w.command_id) w s).1.bb.task_queue)
        (sym current) (with_command-Turn t (given w.command_id) w s phase current)
