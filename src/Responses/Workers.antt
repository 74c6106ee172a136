-- ===== src/Responses/Workers.antt =====
-- From a human's response to the worker that waits for it
-- (app/execution/command/response_resolver.py, app/execution/behaviours/entity_worker.py).
use hmta_service.Prelude.{
  sym, elem, arith, subst, ==_refl, ap, Bool-cases, none, some, inl, inr, true, false, [], refl, ℕ,
  String, Option, Bool, List, ◌≡◌, ◌∙◌, ◌==◌, ◌≢◌, ◌+◌, ◌∷◌, if◌then◌else◌,
}
use hmta_service.Behaviours.{Status, Datum, Blackboard, HumanAnswer, Task}
use hmta_service.Command.{Translators}
use hmta_service.Responses.{
  human_answer, skip_options, handle_response, resolve_task_id, HumanResponse, answer_task,
}
use hmta_service.Behaviours.EntityWorker.Queue.{
  write_status, clear_task_human_response, update_task_status, find_task, update_first,
}
use hmta_service.Behaviours.EntityWorker.Finds.{
  task_of-found, read_response-found, find_task-id, find_task-update_first, KeepsId,
}
use hmta_service.Behaviours.EntityWorker.{
  WorkerPhase, human_fallback, record_transition, WorkerWorld, EntityWorker, CommandParams,
}
use hmta_service.Behaviours.SupervisedFallback.{Clocks}
use hmta_service.Behaviours.EntityWorker.Ticks.{in_phase, update}
use hmta_service.Behaviours.EntityWorker.Halts.{dispatch_step-bb}
use hmta_service.Behaviours.EntityWorker.Fallback.{
  with_task, handle_human_fallback, answered, retried, responded, merged, retry, skip,
}
use hmta_service.Behaviours.EntityWorker.Writes.{is_busy}
use hmta_service.Behaviours.EntityWorker.Moves.{first_step, edit, mark}
use hmta_service.Behaviours.EntityWorker.Goal.{is_detection_active}
use hmta_service.Behaviours.EntityWorker.Steps.{dispatch_step, build_exec_steps}
use hmta_service.Responses.Answers.{handle_response-queue}
use hmta_service.Responses.Laws.{human_answer-decision}

skip_text : (b : Bool) → ((if b then "skip" else "retry") == "skip") ≡ b
skip_text true = refl
skip_text false = refl

answer_task-update_first :
    (id : String) (answer : HumanAnswer) (q : List Task)
    → answer_task id answer q
      ≡ update_first id (λ (t : Task). record t { human_response = some answer }) q
unfolding answer_task update_first
answer_task-update_first id answer [] = refl
answer_task-update_first id answer (t ∷ ts) = elim (Bool-cases (t.id == id)) [
  | inl e ↦ rw e refl
  | inr e ↦ rw e (ap (λ (l : List Task). t ∷ l) (answer_task-update_first id answer ts))
]

found_after :
    (id : String) (f : Task → Task) (q : List Task) (e : Task)
    → KeepsId f
    → find_task q id ≡ some e
    → find_task (update_first id f q) id ≡ some (f e)
found_after id f q e keeps found =
    find_task-update_first id f q id keeps ∙ rw (==_refl id, found) refl

module _ {Payload : Type 0} where
  abbrev pub served :
      Status × EntityWorker × WorkerWorld Payload → EntityWorker × WorkerWorld Payload
  served (status, w, s) = (w, s)

  -- How a worker has dealt with an answer.
  pub record IsServed (skipped : Bool) (id : String) (before : Task)
      (result : EntityWorker × WorkerWorld Payload) : Type 0 where
    pub entry : Task
    pub found : find_task result.1.bb.task_queue id ≡ some entry
    pub cleared : entry.human_response ≡ none
    pub counted : entry.human_response_count ≡ before.human_response_count + 1
    pub phase : result.0.phase ≢ human_fallback
    pub status :
        entry.status
        ≡ (if skipped then "skipped" else if is_busy result.0.phase then "executing" else "failed")

  as_before :
      {b : Bool} {id : String} {e : Task} {a : HumanAnswer} {p : EntityWorker × WorkerWorld Payload}
      → IsServed b id (record e { human_response = some a }) p
      → IsServed b id e p
  as_before i = record {
    entry = i.entry;
    found = i.found;
    cleared = i.cleared;
    counted = i.counted;
    phase = i.phase;
    status = i.status;
  }

module _ {Payload : Type 0} (tx : Translators CommandParams Payload)
    (zone_target : Blackboard → Datum → Datum) (c : Clocks) where
  skip-IsServed :
      (t e : Task) (w : EntityWorker) (s : WorkerWorld Payload)
      → find_task s.bb.task_queue t.id ≡ some e
      → IsServed true t.id e (skip tx zone_target c t w s)
  unfolding skip update_task_status clear_task_human_response record_transition
  skip-IsServed t e w s found =
      let f : Task → Task = responded tx zone_target c w in
      let g : Task → Task = write_status c.wall "skipped" (some "operator_skipped") none in
      let h : Task → Task = λ (u : Task). record u { human_response = none } in
      let q = s.bb.task_queue in
      record {
        entry = h (g (f e));
        found =
            found_after t.id h (update_first t.id g (update_first t.id f q)) (g (f e)) (λ u. refl)
              (found_after t.id g (update_first t.id f q) (f e) (λ u. refl)
                (found_after t.id f q e (λ u. refl) found));
        cleared = refl;
        counted = refl;
        phase = λ p. ground arith;
        status = refl;
      }

  retried-IsServed :
      (t e u : Task) (w : EntityWorker) (p : WorkerWorld Payload × Option String)
      → find_task p.0.bb.task_queue t.id ≡ some u
      → u.status ≡ "executing"
      → u.human_response ≡ none
      → u.human_response_count ≡ e.human_response_count + 1
      → IsServed false t.id e (retried tx zone_target c t w p)
  unfolding update_task_status record_transition
  retried-IsServed t e u w (s, none) found status cleared counted = record {
    entry = write_status c.wall "failed" (some "redispatch_error") none u;
    found =
        found_after t.id (write_status c.wall "failed" (some "redispatch_error") none)
          s.bb.task_queue u (λ x. refl) found;
    cleared = cleared;
    counted = counted;
    phase = λ p. ground arith;
    status = refl;
  }
  retried-IsServed t e u w (s, some id) found status cleared counted = record {
    entry = u;
    found = found;
    cleared = cleared;
    counted = counted;
    phase = λ p. ground arith;
    status = status;
  }

  retry-IsServed :
      (answer : HumanAnswer) (t e : Task) (w : EntityWorker) (s : WorkerWorld Payload)
      → find_task s.bb.task_queue t.id ≡ some e
      → IsServed false t.id e (retry tx zone_target c answer t w s)
  unfolding retry update_task_status clear_task_human_response
  retry-IsServed answer t e w s found =
      let f : Task → Task = merged tx zone_target c answer w in
      let g : Task → Task = λ (u : Task). record u { human_response = none } in
      let h : Task → Task = write_status c.wall "executing" none none in
      let q = s.bb.task_queue in
      let t1 = f t in
      let s1 : WorkerWorld Payload =
        mark c.wall t.id "executing" none none (edit t.id g (edit t.id f s)) in
      let w1 : EntityWorker = record w {
        exec_start = c.input.now;
        exec_steps = build_exec_steps t1;
        step_index = 0;
      } in
      retried-IsServed t e (h (g (f e))) w1
        (dispatch_step tx zone_target c.input.fresh_id w1 t1 (first_step w1.exec_steps) s1)
        (ap (λ (bb : Blackboard). find_task bb.task_queue t.id)
            (dispatch_step-bb tx zone_target c.input.fresh_id w1 t1 (first_step w1.exec_steps) s1)
          ∙ found_after t.id h (update_first t.id g (update_first t.id f q)) (g (f e)) (λ u. refl)
              (found_after t.id g (update_first t.id f q) (f e) (λ u. refl)
                (found_after t.id f q e (λ u. refl) found)))
        refl refl refl

  answered-IsServed :
      (answer : HumanAnswer) (t own e : Task) (w : EntityWorker) (s : WorkerWorld Payload)
      → t.id ≡ own.id
      → find_task s.bb.task_queue own.id ≡ some e
      → IsServed
          (answer.decision == "skip")
          own.id
          e
          (answered tx zone_target c (some answer) t w s)
  unfolding answered
  answered-IsServed answer t own e w s named found =
      subst
        (λ (id : String).
          IsServed (answer.decision == "skip") id e (answered tx zone_target c (some answer) t w s))
        named
        (elim (Bool-cases (answer.decision == "skip")) [
          | inl d ↦ rw d (skip-IsServed t e w s (ap (find_task s.bb.task_queue) named ∙ found))
          | inr d ↦
              rw d (retry-IsServed answer t e w s (ap (find_task s.bb.task_queue) named ∙ found))
        ])

module _ {Payload : Type 0} (tx : Translators CommandParams Payload)
    (zone_target : Blackboard → Datum → Datum) (proximity : String → Blackboard → Task → ℕ)
    (c : Clocks) where
  -- A worker waits for a human over an entry of the queue, and a response comes in that is routed to
  -- that task; no detection is pending after it. At the worker's next tick the task is skipped if the
  -- response chose one of the four skip options; else it executes again, or has failed where no
  -- command could be sent, and then the worker is idle. Either way the answer is consumed and counted,
  -- and the worker waits no longer.
  pub answer_reaches_worker :
      (r : HumanResponse) (w : EntityWorker) (s : WorkerWorld Payload) (t e : Task)
      → w.phase ≡ human_fallback
      → w.current_task ≡ some t
      → t.id ≢ ""
      → t.id ≡ resolve_task_id s.resolver r
      → find_task s.bb.task_queue t.id ≡ some e
      → is_detection_active (handle_response r s.bb s.resolver).0 ≡ false
      → IsServed (elem r.selected_option skip_options) t.id e (
          served (
            update tx zone_target proximity c w (record s {
              bb = (handle_response r s.bb s.resolver).0;
              resolver = (handle_response r s.bb s.resolver).1;
            })))
  unfolding update handle_human_fallback
  answer_reaches_worker r w s t e waiting current named routed found quiet =
      let answer = human_answer r.selected_option r in
      let given : Task → Task = λ (u : Task). record u { human_response = some answer } in
      let s' : WorkerWorld Payload = record s {
        bb = (handle_response r s.bb s.resolver).0;
        resolver = (handle_response r s.bb s.resolver).1;
      } in
      let queue : s'.bb.task_queue ≡ update_first t.id given s.bb.task_queue =
        handle_response-queue r s.bb s.resolver (λ q. named (routed ∙ q))
        ∙ rw (← routed) (answer_task-update_first t.id answer s.bb.task_queue) in
      let there : find_task s'.bb.task_queue t.id ≡ some (given e) =
        ap (λ (q : List Task). find_task q t.id) queue
        ∙ found_after t.id given s.bb.task_queue e (λ u. refl) found in
      let skipped : (answer.decision == "skip") ≡ elem r.selected_option skip_options =
        rw (human_answer-decision r.selected_option r)
          (skip_text (elem r.selected_option skip_options)) in
      let result : IsServed (answer.decision == "skip") t.id (given e)
          (answered tx zone_target c (some answer) (given e) w s') =
        answered-IsServed tx zone_target c answer (given e) t (given e) w s'
          (find_task-id s'.bb.task_queue t.id (given e) there) there in
      let Goal : EntityWorker × WorkerWorld Payload → Type 0 =
        λ (p : EntityWorker × WorkerWorld Payload).
          IsServed (elem r.selected_option skip_options) t.id e p in
      let final : Goal (with_task tx zone_target c (some t) w s') =
        rw
          (
            quiet,
            read_response-found s'.bb t (given e) there,
            task_of-found s'.bb t (given e) there,
          )
          (subst
            (λ (b : Bool).
              IsServed b t.id e (answered tx zone_target c (some answer) (given e) w s'))
            skipped (as_before result)) in
      subst (λ (p : WorkerPhase). Goal (served (in_phase tx zone_target proximity c p w s')))
        (sym waiting)
        (subst (λ (o : Option Task). Goal (with_task tx zone_target c o w s')) (sym current) final)
