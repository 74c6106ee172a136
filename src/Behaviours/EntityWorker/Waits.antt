-- ===== src/Behaviours/EntityWorker/Waits.antt =====
-- The ticks of a worker that waits for a human, as turns with its task.
use hmta_service.Behaviours.EntityWorker.Halts.{
  write_status-IsEdit, dispatch_step-bb, halt_for_detection-Turn,
}
use hmta_service.Command.{Translators}
use hmta_service.Behaviours.EntityWorker.{
  human_fallback, WorkerWorld, EntityWorker, Task, record_transition, Datum, Blackboard,
  CommandParams,
}
use hmta_service.Behaviours.SupervisedFallback.{Clocks}
use hmta_service.Behaviours.EntityWorker.Fallback.{
  timed_out, retried, with_task, merged, responded, answered, handle_human_fallback, retry, skip,
}
use hmta_service.Behaviours.EntityWorker.Queue.{
  task_of, read_task_human_response, write_status, clear_task_human_response, update_task_status,
}
use hmta_service.Prelude.{
  refl, ◌∙◌, ap, ◌-◌, leb, inl, inr, sym, true, none, ◌==◌, Bool-cases, subst, some, List, ◌≡◌,
  String, Option,
}
use hmta_service.Behaviours.{HumanAnswer}
use hmta_service.Behaviours.EntityWorker.Writes.{
  unwritten, kept_on, fields_kept, forgotten, released, then_written, IsWrite, Turn,
}
use hmta_service.Behaviours.EntityWorker.Goal.{is_detection_active}
use hmta_service.Behaviours.EntityWorker.Moves.{mark, first_step, edit}
use hmta_service.Behaviours.EntityWorker.Steps.{dispatch_step, build_exec_steps}
use hmta_service.Behaviours.EntityWorker.Finds.{task_of-id}

module _ {Payload : Type 0} (tx : Translators CommandParams Payload)
    (zone_target : Blackboard → Datum → Datum) (c : Clocks) where
  retried-Turn :
      (t own : Task) (w : EntityWorker) (p : WorkerWorld Payload × Option String) (q : List Task)
      → w.current_task ≡ some own
      → t.id ≡ own.id
      → IsWrite true own.id q p.0.bb.task_queue
      → Turn w.entity_id own q
          (retried tx zone_target c t w p).0
          (retried tx zone_target c t w p).1.bb.task_queue
  unfolding update_task_status record_transition
  retried-Turn t own w (s, none) q current named before = record {
    same_entity = refl;
    outcome = inr (
      refl,
      then_written (forgotten before) (
          released (write_status c.wall "failed" (some "redispatch_error") none)
            (write_status-IsEdit c.wall "failed" (some "redispatch_error") none) (rw named refl)),
    );
  }
  retried-Turn t own w (s, some id) q current named before = record {
    same_entity = refl;
    outcome = inl (refl, current, before);
  }

  skip-Turn :
      (t own : Task) (w : EntityWorker) (s : WorkerWorld Payload)
      → t.id ≡ own.id
      → Turn w.entity_id own s.bb.task_queue
          (skip tx zone_target c t w s).0
          (skip tx zone_target c t w s).1.bb.task_queue
  unfolding skip update_task_status clear_task_human_response record_transition
  skip-Turn t own w s named =
      let f : Task → Task = responded tx zone_target c w in
      let g : Task → Task = λ (u : Task). record u { human_response = none } in
      record {
        same_entity = refl;
        outcome = inr (
          refl,
          then_written
              (then_written (released f (fields_kept f (λ u. (refl, refl, refl))) refl) (
                released (write_status c.wall "skipped" (some "operator_skipped") none)
                  (write_status-IsEdit c.wall "skipped" (some "operator_skipped") none) refl))
              (released g (fields_kept g (λ u. (refl, refl, refl))) (rw named refl)),
        );
      }

  retry-Turn :
      (answer : HumanAnswer) (t own : Task) (w : EntityWorker) (s : WorkerWorld Payload)
      → w.current_task ≡ some own
      → t.id ≡ own.id
      → Turn w.entity_id own s.bb.task_queue
          (retry tx zone_target c answer t w s).0
          (retry tx zone_target c answer t w s).1.bb.task_queue
  unfolding retry update_task_status clear_task_human_response
  retry-Turn answer t own w s current named =
      let f : Task → Task = merged tx zone_target c answer w in
      let g : Task → Task = λ (u : Task). record u { human_response = none } in
      let t1 = f t in
      let s1 : WorkerWorld Payload =
        mark c.wall t.id "executing" none none (edit t.id g (edit t.id f s)) in
      let w1 : EntityWorker = record w {
        exec_start = c.input.now;
        exec_steps = build_exec_steps t1;
        step_index = 0;
      } in
      let sent =
        dispatch_step tx zone_target c.input.fresh_id w1 t1 (first_step w1.exec_steps) s1 in
      retried-Turn t own w1 sent s.bb.task_queue current named (
        then_written
          (then_written (kept_on f (fields_kept f (λ u. (refl, refl, refl))) (λ u h. h) refl)
            (kept_on g (fields_kept g (λ u. (refl, refl, refl))) (λ u h. h) refl))
          (kept_on (write_status c.wall "executing" none none)
            (write_status-IsEdit c.wall "executing" none none) (λ u h. refl)
            (ap (λ (bb : Blackboard). bb.task_queue)
                (dispatch_step-bb tx zone_target c.input.fresh_id w1 t1 (first_step w1.exec_steps)
                  s1)
              ∙ rw named refl)))

  answered-Turn :
      (answer : Option HumanAnswer) (t own : Task) (w : EntityWorker) (s : WorkerWorld Payload)
      → w.phase ≡ human_fallback
      → w.current_task ≡ some own
      → t.id ≡ own.id
      → Turn w.entity_id own s.bb.task_queue
          (answered tx zone_target c answer t w s).0
          (answered tx zone_target c answer t w s).1.bb.task_queue
  unfolding answered update_task_status record_transition
  answered-Turn (some answer) t own w s phase current named =
      elim (Bool-cases (answer.decision == "skip")) [
        | inl e ↦ rw e (skip-Turn t own w s named)
        | inr e ↦ rw e (retry-Turn answer t own w s current named)
      ]
  answered-Turn none t own w s phase current named =
      elim (Bool-cases (leb w.fallback_timeout (c.input.now - w.fallback_start))) [
        | inl e ↦
            let f : Task → Task = timed_out tx zone_target c w in
            rw e (record {
              same_entity = refl;
              outcome = inr (
                refl,
                then_written (released f (fields_kept f (λ u. (refl, refl, refl))) refl) (
                    released (write_status c.wall "failed" (some "human_fallback_timeout") none)
                      (write_status-IsEdit c.wall "failed" (some "human_fallback_timeout") none)
                      (rw named refl)),
              );
            })
        | inr e ↦ rw e (record {
          same_entity = refl;
          outcome = inl (rw phase refl, current, unwritten true own.id s.bb.task_queue);
        })
      ]

  pub handle_human_fallback-Turn :
      (t : Task) (w : EntityWorker) (s : WorkerWorld Payload)
      → w.phase ≡ human_fallback
      → w.current_task ≡ some t
      → Turn w.entity_id t s.bb.task_queue
          (handle_human_fallback tx zone_target c w s).0
          (handle_human_fallback tx zone_target c w s).1.bb.task_queue
  unfolding handle_human_fallback
  handle_human_fallback-Turn t w s phase current =
      subst
        (λ (o : Option Task).
          Turn w.entity_id t s.bb.task_queue (with_task tx zone_target c o w s).0
            (with_task tx zone_target c o w s).1.bb.task_queue)
        (sym current)
        (elim (Bool-cases (is_detection_active s.bb)) [
          | inl d ↦ rw d (halt_for_detection-Turn c.wall t w s)
          | inr d ↦ rw d (
              answered-Turn (read_task_human_response t.id s.bb) (task_of s.bb t) t w s phase
                current (task_of-id s.bb t))
        ])
