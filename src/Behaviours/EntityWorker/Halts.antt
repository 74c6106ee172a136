-- ===== src/Behaviours/EntityWorker/Halts.antt =====
-- What the worker writes apart from its task: commands, directives, and the halt of a detection.
use hmta_service.Prelude.{
  ℕ, String, Option, none, List, [], ◌∷◌, ◌≡◌, inl, inr, refl, ap, arith, Bool-cases,
}
use hmta_service.Command.{Translators}
use hmta_service.Behaviours.{Datum, Effect, Task, Blackboard, bb_set}
use hmta_service.Behaviours.EntityWorker.{
  EntityWorker, WorkerWorld, CommandParams, record_transition,
}
use hmta_service.Behaviours.EntityWorker.Goal.{write_effects}
use hmta_service.Behaviours.EntityWorker.Queue.{update_first, write_status, update_task_status}
use hmta_service.Behaviours.EntityWorker.Steps.{
  cancel_command, dispatch_step, dispatch_human_fallback_directive,
}
use hmta_service.Behaviours.EntityWorker.Writes.{IsEdit, Turn, then_written, fields_kept, released}
use hmta_service.Behaviours.EntityWorker.Moves.{revert, halt_for_detection}

pub write_status-IsEdit :
    (wall : ℕ) (status : String) (reason : Option String) (elapsed : Option ℕ)
    → IsEdit (write_status wall status reason elapsed)
write_status-IsEdit wall status reason elapsed =
    fields_kept (write_status wall status reason elapsed) (λ t. (refl, refl, refl))

pub write_effects-queue :
    (entity : String) (now : ℕ) (es : List Effect) (bb : Blackboard)
    → (write_effects entity now es bb).task_queue ≡ bb.task_queue
unfolding write_effects bb_set
write_effects-queue entity now [] bb = refl
write_effects-queue entity now (e ∷ es) bb = write_effects-queue entity now es _

module _ {Payload : Type 0} where
  pub cancel_command-bb :
      (w : EntityWorker) (s : WorkerWorld Payload) → (cancel_command w s).bb ≡ s.bb
  cancel_command-bb w s = ground arith

module _ {Payload : Type 0} (tx : Translators CommandParams Payload)
    (zone_target : Blackboard → Datum → Datum) where
  pub dispatch_step-bb :
      (fresh_id : String) (w : EntityWorker) (t : Task) (step : String) (s : WorkerWorld Payload)
      → (dispatch_step tx zone_target fresh_id w t step s).0.bb ≡ s.bb
  unfolding dispatch_step
  dispatch_step-bb fresh_id w t step s = elim (Bool-cases w.has_resolver) [
    | inl e ↦ rw e refl
    | inr e ↦ rw e refl
  ]

  -- Asking for help changes the worker's command, and nothing else of it.
  pub directive_kept :
      (fresh_id : String) (w : EntityWorker) (t : Task) (s : WorkerWorld Payload)
      → ((dispatch_human_fallback_directive tx fresh_id w t s).1.bb ≡ s.bb)
        × ((dispatch_human_fallback_directive tx fresh_id w t s).0.phase ≡ w.phase)
        × ((dispatch_human_fallback_directive tx fresh_id w t s).0.current_task ≡ w.current_task)
        × ((dispatch_human_fallback_directive tx fresh_id w t s).0.entity_id ≡ w.entity_id)
  unfolding dispatch_human_fallback_directive
  directive_kept fresh_id w t s = ground arith

module _ {Payload : Type 0} where
  pub halt_for_detection-Turn :
      (wall : ℕ) (c : Task) (w : EntityWorker) (s : WorkerWorld Payload)
      → Turn w.entity_id c s.bb.task_queue
          (halt_for_detection wall c w s).0
          (halt_for_detection wall c w s).1.bb.task_queue
  unfolding halt_for_detection update_task_status record_transition
  halt_for_detection-Turn wall c w s = record {
    same_entity = refl;
    outcome = inr (
      refl,
      then_written
          (released (write_status wall "pending" none none)
            (write_status-IsEdit wall "pending" none none)
            (ap
              (λ (bb : Blackboard).
                update_first c.id (write_status wall "pending" none none) bb.task_queue)
              (cancel_command-bb w s)))
          (released revert (fields_kept revert (λ t. (refl, refl, refl))) refl),
    );
  }
