-- ===== src/Behaviours/EntityWorker/Deadlines.antt =====
-- What the deadlines of a worker force.
use hmta_service.Prelude.{
  ◌∙◌, sym, leb, subst, ◌==◌, ◌≤◌, ltb, Bool-cases, Option-cases, arith, length, get_elem?, none,
  some, inl, inr, true, false, [], refl, ℕ, String, Option, Bool, List, zero, suc, ◌∷◌, ◌⊎◌, ◌≡◌,
  ◌-◌, ◌<◌, ◌+◌, ◌≢◌,
}
use hmta_service.Command.{Translators}
use hmta_service.Behaviours.EntityWorker.{
  WorkerPhase, human_fallback, command_timeout_sec, WorkerWorld, Task, executing, record_transition,
  Datum, Blackboard, CommandParams, EntityWorker,
}
use hmta_service.Behaviours.SupervisedFallback.{Clocks}
use hmta_service.Behaviours.EntityWorker.Executing.{
  handle_executing, watch, with_command, counted, advanced, polled, next_step, give_up_step,
}
use hmta_service.Behaviours.EntityWorker.Steps.{
  build_exec_steps, given, poll_command_result, write_intervention_reason, dispatch_step,
  should_escalate_to_human, Poll,
}
use hmta_service.Behaviours.EntityWorker.Halts.{directive_kept}
use hmta_service.Behaviours.EntityWorker.Moves.{first_step, mark, halt_for_detection, edit}
use hmta_service.Behaviours.EntityWorker.Ticks.{in_phase, update}
use hmta_service.Behaviours.EntityWorker.Fallback.{
  cleared, merged, retry, handle_human_fallback, with_task, skip, answered, retried,
}
use hmta_service.Behaviours.EntityWorker.Queue.{
  task_of, read_task_human_response, find_task, is_terminal,
}
use hmta_service.Behaviours.EntityWorker.Goal.{is_detection_active}
use hmta_service.Behaviours.{HumanAnswer}

get_elem?-length :
    {A : Type 0} (xs : List A) (i : ℕ) (x : A) → get_elem? xs i ≡ some x → i < length xs
get_elem?-length [] i x h = absurd (ground arith)
get_elem?-length (y ∷ ys) zero x h = omega arith
get_elem?-length (y ∷ ys) (suc i) x h = omega (arith, get_elem?-length ys i x h)

-- The worker has left a phase for good, or has only gone on to a later step of its task.
pub record NextStep (w w' : EntityWorker) : Type 0 where
  pub advanced : w'.step_index ≡ w.step_index + 1
  pub more : w'.step_index < length w'.exec_steps
  pub same_steps : w'.exec_steps ≡ w.exec_steps
  pub same_start : w'.exec_start ≡ w.exec_start

-- A worker whose deadline is past.
pub data IsOverdue (now : ℕ) (w : EntityWorker) : Type 0 where
  command_overdue : w.phase ≡ executing → command_timeout_sec < now - w.exec_start → IsOverdue now w
  answer_overdue :
      w.phase ≡ human_fallback → w.fallback_timeout ≤ now - w.fallback_start → IsOverdue now w

abbrev pub Leaves : EntityWorker → EntityWorker → Type 0
Leaves w w' = (w'.phase ≢ w.phase) ⊎ NextStep w w'

module _ {Payload : Type 0} (tx : Translators CommandParams Payload)
    (zone_target : Blackboard → Datum → Datum) (c : Clocks) where
  abbrev GoesOn : EntityWorker → EntityWorker → Type 0
  GoesOn w w' = (w'.phase ≢ executing) ⊎ NextStep w w'

  advanced-GoesOn :
      (t : Task) (w : EntityWorker) (p : WorkerWorld Payload × Option String) (step : String)
      → get_elem? w.exec_steps (w.step_index + 1) ≡ some step
      → GoesOn w (advanced tx zone_target c t (record w { step_index = w.step_index + 1 }) p).0
  unfolding record_transition
  advanced-GoesOn t w (s, none) step e = inl (λ h. ground arith)
  advanced-GoesOn t w (s, some id) step e = inr (record {
    advanced = refl;
    more = get_elem?-length w.exec_steps (w.step_index + 1) step e;
    same_steps = refl;
    same_start = refl;
  })

  next_step-GoesOn :
      (t : Task) (w : EntityWorker) (s : WorkerWorld Payload)
      → GoesOn w (next_step tx zone_target c t w s).0
  unfolding next_step record_transition
  next_step-GoesOn t w s = elim (Option-cases (get_elem? w.exec_steps (w.step_index + 1))) [
    | inl e ↦ rw (e, next_step) (inl (λ h. ground arith))
    | inr (step, e) ↦
        rw (e, next_step)
          (advanced-GoesOn t w
            (dispatch_step tx zone_target c.input.fresh_id
              (record w { step_index = w.step_index + 1 }) t step s)
            step e)
  ]

  give_up_step-leaves :
      (timed_out : Bool) (t : Task) (w : EntityWorker) (s : WorkerWorld Payload)
      → (give_up_step tx zone_target c timed_out t w s).0.phase ≢ executing
  unfolding give_up_step record_transition
  give_up_step-leaves timed_out t w s h = elim (Bool-cases (should_escalate_to_human w t)) [
    | inl e ↦
        let w1 : EntityWorker = record w { phase = human_fallback; fallback_start = c.input.now } in
        let (bb, phase, task, entity) = directive_kept tx zone_target c.input.fresh_id w1 t (
          edit t.id
            (λ (u : Task). write_intervention_reason w timed_out (counted tx zone_target c u)) s) in
        ground arith
    | inr e ↦ ground arith
  ]

  polled-GoesOn :
      (poll : Poll) (t : Task) (w : EntityWorker) (s : WorkerWorld Payload)
      → command_timeout_sec < c.input.now - w.exec_start
      → GoesOn w (polled tx zone_target c poll t w s).0
  unfolding polled
  polled-GoesOn Poll.succeeded t w s late = next_step-GoesOn t w s
  polled-GoesOn Poll.broken t w s late = inl (give_up_step-leaves false t w s)
  polled-GoesOn Poll.open_still t w s late =
      let e : ltb command_timeout_sec (c.input.now - w.exec_start) ≡ true = ground arith in
      rw e (inl (give_up_step-leaves true t w s))

  watch-GoesOn :
      (t : Task) (id : String) (w : EntityWorker) (s : WorkerWorld Payload)
      → command_timeout_sec < c.input.now - w.exec_start
      → GoesOn w (watch tx zone_target c t id w s).0
  unfolding watch halt_for_detection record_transition
  watch-GoesOn t id w s late = elim (Bool-cases (is_terminal (find_task s.bb.task_queue t.id))) [
    | inl e ↦ rw e (inl (λ h. ground arith))
    | inr e ↦ elim (Bool-cases (is_detection_active s.bb)) [
      | inl d ↦ rw (e, d) (inl (λ h. ground arith))
      | inr d ↦ rw (e, d) (polled-GoesOn (poll_command_result w s id) (task_of s.bb t) w s late)
    ]
  ]

  with_command-GoesOn :
      (o : Option Task) (k : Option String) (w : EntityWorker) (s : WorkerWorld Payload)
      → command_timeout_sec < c.input.now - w.exec_start
      → GoesOn w (with_command tx zone_target c o k w s).0
  unfolding record_transition
  with_command-GoesOn none k w s late = inl (λ h. ground arith)
  with_command-GoesOn (some t) none w s late = inl (λ h. ground arith)
  with_command-GoesOn (some t) (some id) w s late = watch-GoesOn t id w s late

  retried-leaves :
      (t : Task) (w : EntityWorker) (p : WorkerWorld Payload × Option String)
      → (retried tx zone_target c t w p).0.phase ≢ human_fallback
  unfolding record_transition
  retried-leaves t w (s, none) h = ground arith
  retried-leaves t w (s, some id) h = ground arith

  retry-leaves :
      (answer : HumanAnswer) (t : Task) (w : EntityWorker) (s : WorkerWorld Payload)
      → (retry tx zone_target c answer t w s).0.phase ≢ human_fallback
  unfolding retry
  retry-leaves answer t w s =
      let t1 = merged tx zone_target c answer w t in
      let s1 : WorkerWorld Payload =
        mark c.wall t.id "executing" none none
          (cleared tx zone_target c t (edit t.id (merged tx zone_target c answer w) s)) in
      let w1 : EntityWorker = record w {
        exec_start = c.input.now;
        exec_steps = build_exec_steps t1;
        step_index = 0;
      } in
      retried-leaves t w1
        (dispatch_step tx zone_target c.input.fresh_id w1 t1 (first_step w1.exec_steps) s1)

  answered-leaves :
      (answer : Option HumanAnswer) (t : Task) (w : EntityWorker) (s : WorkerWorld Payload)
      → w.fallback_timeout ≤ c.input.now - w.fallback_start
      → (answered tx zone_target c answer t w s).0.phase ≢ human_fallback
  unfolding answered skip record_transition
  answered-leaves (some answer) t w s late = elim (Bool-cases (answer.decision == "skip")) [
    | inl e ↦ rw e (λ h. ground arith)
    | inr e ↦ rw e (retry-leaves answer t w s)
  ]
  answered-leaves none t w s late =
      let e : leb w.fallback_timeout (c.input.now - w.fallback_start) ≡ true = ground arith in
      rw e (λ h. ground arith)

  with_task-leaves :
      (o : Option Task) (w : EntityWorker) (s : WorkerWorld Payload)
      → w.fallback_timeout ≤ c.input.now - w.fallback_start
      → (with_task tx zone_target c o w s).0.phase ≢ human_fallback
  unfolding halt_for_detection record_transition
  with_task-leaves none w s late = λ h. ground arith
  with_task-leaves (some t) w s late = elim (Bool-cases (is_detection_active s.bb)) [
    | inl d ↦ rw d (λ h. ground arith)
    | inr d ↦ rw d (answered-leaves (read_task_human_response t.id s.bb) (task_of s.bb t) w s late)
  ]

module _ {Payload : Type 0} (tx : Translators CommandParams Payload)
    (zone_target : Blackboard → Datum → Datum) (proximity : String → Blackboard → Task → ℕ)
    (c : Clocks) where
  -- What the deadlines of a task force. A tick of an executing worker more than 120 units after its
  -- task began leaves that phase, or goes on to a later one of the task's finitely many steps under
  -- the same deadline; and a tick of a worker that waits for a human's answer, and finds the time for
  -- it used up, leaves the waiting phase. An idle worker has no deadline.
  pub update-Leaves :
      (w : EntityWorker) (s : WorkerWorld Payload)
      → IsOverdue c.input.now w
      → Leaves w (update tx zone_target proximity c w s).1
  unfolding update handle_executing handle_human_fallback
  update-Leaves w s (command_overdue phase late) =
      elim (subst
        (λ (p : WorkerPhase).
          GoesOn tx zone_target c w (in_phase tx zone_target proximity c p w s).1)
        (sym phase)
        (with_command-GoesOn tx zone_target c w.current_task (given w.command_id) w s late)) [
          | inl left ↦ inl (λ e. left (e ∙ phase))
          | inr n ↦ inr n
        ]
  update-Leaves w s (answer_overdue phase late) = inl (λ e.
      subst
        (λ (p : WorkerPhase). (in_phase tx zone_target proximity c p w s).1.phase ≢ human_fallback)
        (sym phase) (with_task-leaves tx zone_target c w.current_task w s late) (e ∙ phase))
