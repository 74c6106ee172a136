-- ===== src/Behaviours/EntityWorker/Begins.antt =====
-- The ticks of a worker without a task.
use hmta_service.Prelude.{
  ==_refl, Bool-cases, sym, ap, subst, none, some, inl, inr, refl, ℕ, String, Option, List, ◌∙◌,
  ◌≡◌,
}
use hmta_service.Behaviours.{Datum, Task, Blackboard}
use hmta_service.Behaviours.EntityWorker.{
  WorkerPhase, record_transition, WorkerWorld, CommandParams, idle, EntityWorker,
}
use hmta_service.Command.{Translators}
use hmta_service.Behaviours.EntityWorker.Queue.{
  pick_next_task, update_task_status, find_task, update_first,
}
use hmta_service.Behaviours.EntityWorker.Evolution.{
  Calm-then, NextBy-same, NextBy-then, Calm-same, Evolves, Advance, Calm,
}
use hmta_service.Behaviours.EntityWorker.Picks.{Ready}
use hmta_service.Behaviours.EntityWorker.Finds.{
  find_task-update_first, ids-update_first, IsUnique, ids,
}
use hmta_service.Behaviours.SupervisedFallback.{Clocks}
use hmta_service.Behaviours.EntityWorker.Fleet.{Turn-Ticked, Holds, Busy, Ticked}
use hmta_service.Behaviours.EntityWorker.Ticks.{in_phase, picked, update, begin, handle_idle}
use hmta_service.Behaviours.EntityWorker.Writes.{is_busy}
use hmta_service.Behaviours.EntityWorker.Starts.{pick_next_task-Picked, Picked}
use hmta_service.Behaviours.EntityWorker.Steps.{dispatch_step, build_exec_steps}
use hmta_service.Behaviours.EntityWorker.Moves.{first_step, mark}
use hmta_service.Behaviours.EntityWorker.Goal.{is_detection_active}
use hmta_service.Behaviours.EntityWorker.Turns.{handle_executing-Turn}
use hmta_service.Behaviours.EntityWorker.Halts.{dispatch_step-bb}
use hmta_service.Behaviours.EntityWorker.Executing.{handle_executing}
use hmta_service.Behaviours.EntityWorker.Fallback.{handle_human_fallback}
use hmta_service.Behaviours.EntityWorker.Waits.{handle_human_fallback-Turn}
use hmta_service.Behaviours.EntityWorker.Begun.{
  to_executing-Begun, Calm-Begun, Begun, to_failed-Calm, to_failed, to_executing, Calm-Ticked,
}

module _ {Payload : Type 0} (tx : Translators CommandParams Payload)
    (zone_target : Blackboard → Datum → Datum) (c : Clocks) where
  picked-Ticked :
      (w w1 : EntityWorker) (q : List Task) (bb : Blackboard) (t : Task)
      (p : WorkerWorld Payload × Option String)
      → w1.entity_id ≡ w.entity_id
      → w1.phase ≡ idle
      → w1.current_task ≡ some t
      → ids bb.task_queue ≡ ids q
      → Evolves Calm q bb.task_queue
      → Ready w.entity_id bb t
      → p.0.bb ≡ record bb { task_queue = update_first t.id (to_executing c.wall) bb.task_queue }
      → Ticked w q
          (picked tx zone_target c t w1 p).1
          (picked tx zone_target c t w1 p).2.bb.task_queue
  unfolding update_task_status record_transition
  picked-Ticked w w1 q bb t (s, none) entity free current same calm r e =
      let q' =
        update_first t.id (to_failed c.wall)
          (update_first t.id (to_executing c.wall) bb.task_queue) in
      let written : update_first t.id (to_failed c.wall) s.bb.task_queue ≡ q' =
        ap (λ (b : Blackboard). update_first t.id (to_failed c.wall) b.task_queue) e in
      subst (λ (l : List Task). Ticked w q (record w1 { current_task = none }) l) (sym written)
        (Calm-Ticked w (record w1 { current_task = none }) q q' entity free
          (ids-update_first t.id (to_failed c.wall)
              (update_first t.id (to_executing c.wall) bb.task_queue) (λ u. refl)
            ∙ ids-update_first t.id (to_executing c.wall) bb.task_queue (λ u. refl)
            ∙ same)
          (λ id.
            NextBy-then Calm Calm Calm Calm-then (find_task q id) (find_task bb.task_queue id)
              (find_task q' id) (calm id) (to_failed-Calm c.wall w.entity_id bb t r id)))
  picked-Ticked w w1 q bb t (s, some id) entity free current same calm r e =
      let q' = update_first t.id (to_executing c.wall) bb.task_queue in
      let written : s.bb.task_queue ≡ q' = ap (λ (b : Blackboard). b.task_queue) e in
      let done : Ticked w q (picked tx zone_target c t w1 (s, some id)).1 q' = record {
        same_entity = entity;
        holds = inr (record {
          busy = refl;
          task = t;
          current = current;
          entry = to_executing c.wall t;
          found =
              find_task-update_first t.id (to_executing c.wall) bb.task_queue t.id (λ u. refl)
              ∙ rw (==_refl t.id, r.queued) refl;
          working = refl;
          own = r.own ∙ sym entity;
        });
        same_ids = ids-update_first t.id (to_executing c.wall) bb.task_queue (λ u. refl) ∙ same;
        evolves = λ k.
            NextBy-then Calm (Begun q') (Advance w.entity_id q') (Calm-Begun w.entity_id q')
              (find_task q k) (find_task bb.task_queue k) (find_task q' k) (calm k)
              (to_executing-Begun c.wall w.entity_id bb t r k);
      } in
      subst (λ (l : List Task). Ticked w q (picked tx zone_target c t w1 (s, some id)).1 l)
        (sym written) done

  begin-Ticked :
      (w : EntityWorker) (s : WorkerWorld Payload)
      (result : Option Task × EntityWorker × WorkerWorld Payload)
      → w.phase ≡ idle
      → Picked w s result
      → Ticked w s.bb.task_queue
          (begin tx zone_target c result).1
          (begin tx zone_target c result).2.bb.task_queue
  unfolding begin update_task_status
  begin-Ticked w s (none, w', s') free p =
      Calm-Ticked w w' s.bb.task_queue s'.bb.task_queue p.same_entity (p.same_phase ∙ free)
        p.same_ids p.calm
  begin-Ticked w s (some t, w', s') free p =
      let w1 : EntityWorker = record w' {
        current_task = some t;
        exec_start = c.input.now;
        exec_steps = build_exec_steps t;
        step_index = 0;
      } in
      let s1 : WorkerWorld Payload = mark c.wall t.id "executing" none none s' in
      picked-Ticked w w1 s.bb.task_queue s'.bb t
        (dispatch_step tx zone_target c.input.fresh_id w1 t (first_step w1.exec_steps) s1)
        p.same_entity (p.same_phase ∙ free) refl p.same_ids p.calm (p.ready t refl)
        (dispatch_step-bb tx zone_target c.input.fresh_id w1 t (first_step w1.exec_steps) s1)

module _ {Payload : Type 0} (tx : Translators CommandParams Payload)
    (zone_target : Blackboard → Datum → Datum) (proximity : String → Blackboard → Task → ℕ)
    (c : Clocks) where
  handle_idle-Ticked :
      (w : EntityWorker) (s : WorkerWorld Payload)
      → w.phase ≡ idle
      → IsUnique s.bb.task_queue
      → Ticked w s.bb.task_queue
          (handle_idle tx zone_target proximity c w s).1
          (handle_idle tx zone_target proximity c w s).2.bb.task_queue
  unfolding handle_idle
  handle_idle-Ticked w s free unique = elim (Bool-cases (is_detection_active s.bb)) [
    | inl e ↦ rw e (
        Calm-Ticked w w s.bb.task_queue s.bb.task_queue refl free refl
          (λ id. NextBy-same Calm Calm-same (find_task s.bb.task_queue id)))
    | inr e ↦ rw e (
        begin-Ticked tx zone_target c w s (pick_next_task proximity c.wall w s) free
          (pick_next_task-Picked proximity c.wall w s unique))
  ]

  by_phase :
      (w : EntityWorker) (s : WorkerWorld Payload)
      → Busy w s.bb.task_queue
      → (p : WorkerPhase) → w.phase ≡ p
      → Ticked w s.bb.task_queue
          (in_phase tx zone_target proximity c p w s).1
          (in_phase tx zone_target proximity c p w s).2.bb.task_queue
  by_phase w s b WorkerPhase.idle e = absurd (cc (ap is_busy e, b.busy))
  by_phase w s b WorkerPhase.executing e =
      let (w', s') = handle_executing tx zone_target c w s in
      Turn-Ticked w s.bb.task_queue w' s'.bb.task_queue b
        (handle_executing-Turn tx zone_target c b.task w s e b.current)
  by_phase w s b WorkerPhase.human_fallback e =
      let (w', s') = handle_human_fallback tx zone_target c w s in
      Turn-Ticked w s.bb.task_queue w' s'.bb.task_queue b
        (handle_human_fallback-Turn tx zone_target c b.task w s e b.current)

  -- Whatever its phase, a worker that holds its task leaves the queue as `Ticked` says.
  pub update-Ticked :
      (w : EntityWorker) (s : WorkerWorld Payload)
      → IsUnique s.bb.task_queue
      → Holds w s.bb.task_queue
      → Ticked w s.bb.task_queue
          (update tx zone_target proximity c w s).1
          (update tx zone_target proximity c w s).2.bb.task_queue
  unfolding update
  update-Ticked w s unique (inl free) =
      subst
        (λ (p : WorkerPhase).
          Ticked w s.bb.task_queue (in_phase tx zone_target proximity c p w s).1
            (in_phase tx zone_target proximity c p w s).2.bb.task_queue)
        (sym free) (handle_idle-Ticked w s free unique)
  update-Ticked w s unique (inr b) = by_phase w s b w.phase refl
