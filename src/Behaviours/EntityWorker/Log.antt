-- ===== src/Behaviours/EntityWorker/Log.antt =====
-- The transition log stays short.
use hmta_service.Prelude.{
  leb, get_elem?, Option-cases, take_last, none, some, true, false, String, Option, Bool, ◌&&◌,
  ◌==◌, ◌+◌, if◌then◌else◌, ltb, arith, Bool-cases, drop, length, inl, inr, [], ℕ, List, zero, suc,
  ◌-◌, ◌∷◌, ◌≤◌, ◌≡◌,
}
use hmta_service.Behaviours.EntityWorker.Moves.{edit, mark, first_step, halt_for_detection}
use hmta_service.Behaviours.EntityWorker.{
  reset, noted_reset, WorkerPhase, initialise, command_timeout_sec, Datum, CommandParams,
  Blackboard, WorkerWorld, max_transition_log, Task, Transition, record_transition, EntityWorker,
}
use hmta_service.Command.{Translators}
use hmta_service.Behaviours.EntityWorker.Queue.{
  task_of, find_task, read_task_human_response, is_terminal, priority_first, sort_by, head, scan,
  steal, pick_next_task, choose, try_steal_task,
}
use hmta_service.Behaviours.EntityWorker.Goal.{is_detection_active, is_mission_goal_met}
use hmta_service.Behaviours.SupervisedFallback.{Clocks}
use hmta_service.Behaviours.EntityWorker.Executing.{
  with_command, handle_executing, next_step, polled, give_up_step, advanced, watch,
}
use hmta_service.Behaviours.EntityWorker.Ticks.{in_phase, picked, update, handle_idle, begin}
use hmta_service.Behaviours.EntityWorker.Fallback.{
  cleared, handle_human_fallback, merged, skip, retried, answered, retry, with_task,
}
use hmta_service.Behaviours.{HumanAnswer}
use hmta_service.Behaviours.EntityWorker.Steps.{
  given, poll_command_result, dispatch_step, build_exec_steps, should_escalate_to_human, Poll,
}

length-drop : {A : Type 0} (n : ℕ) (xs : List A) → length (drop n xs) ≡ length xs - n
length-drop zero xs = omega arith
length-drop (suc n) [] = omega arith
length-drop (suc n) (x ∷ xs) = omega (arith, length-drop n xs)

abbrev pub IsShort : EntityWorker → Type 0
IsShort w = length w.transition_log ≤ max_transition_log

pub cut_short :
    (log : List Transition)
    → length (if ltb max_transition_log (length log) then take_last max_transition_log log else log)
      ≤ max_transition_log
cut_short log = elim (Bool-cases (ltb max_transition_log (length log))) [
  | inl f ↦ rw f (ground (arith, length-drop (length log - max_transition_log) log))
  | inr f ↦ rw f (ground arith)
]

module _ {Payload : Type 0} where
  halt_for_detection-IsShort :
      (wall : ℕ) (t : Task) (w : EntityWorker) (s : WorkerWorld Payload)
      → IsShort (halt_for_detection wall t w s).0
  unfolding halt_for_detection record_transition
  halt_for_detection-IsShort wall t w s = search cut_short

module _ {Payload : Type 0} (tx : Translators CommandParams Payload)
    (zone_target : Blackboard → Datum → Datum) (c : Clocks) where
  advanced-IsShort :
      (t : Task) (w : EntityWorker) (p : WorkerWorld Payload × Option String)
      → IsShort (advanced tx zone_target c t w p).0
  unfolding record_transition
  advanced-IsShort t w (s, none) = search cut_short
  advanced-IsShort t w (s, some id) = search cut_short

  next_step-IsShort :
      (t : Task) (w : EntityWorker) (s : WorkerWorld Payload)
      → IsShort (next_step tx zone_target c t w s).0
  unfolding next_step record_transition
  next_step-IsShort t w s = elim (Option-cases (get_elem? w.exec_steps (w.step_index + 1))) [
    | inl e ↦ rw (e, next_step) (search cut_short)
    | inr (step, e) ↦
        rw (e, next_step)
          (advanced-IsShort t (record w { step_index = w.step_index + 1 })
            (dispatch_step tx zone_target c.input.fresh_id
              (record w { step_index = w.step_index + 1 }) t step s))
  ]

  give_up_step-IsShort :
      (timed_out : Bool) (t : Task) (w : EntityWorker) (s : WorkerWorld Payload)
      → IsShort (give_up_step tx zone_target c timed_out t w s).0
  unfolding give_up_step record_transition
  give_up_step-IsShort timed_out t w s = elim (Bool-cases (should_escalate_to_human w t)) [
    | inl e ↦ rw e (search cut_short)
    | inr e ↦ rw e (search cut_short)
  ]

  polled-IsShort :
      (poll : Poll) (t : Task) (w : EntityWorker) (s : WorkerWorld Payload)
      → IsShort w
      → IsShort (polled tx zone_target c poll t w s).0
  unfolding polled
  polled-IsShort Poll.succeeded t w s h = next_step-IsShort t w s
  polled-IsShort Poll.broken t w s h = give_up_step-IsShort false t w s
  polled-IsShort Poll.open_still t w s h =
      elim (Bool-cases (ltb command_timeout_sec (c.input.now - w.exec_start))) [
        | inl e ↦ rw e (give_up_step-IsShort true t w s)
        | inr e ↦ rw e h
      ]

  with_command-IsShort :
      (o : Option Task) (k : Option String) (w : EntityWorker) (s : WorkerWorld Payload)
      → IsShort w
      → IsShort (with_command tx zone_target c o k w s).0
  unfolding watch record_transition
  with_command-IsShort none k w s h = search cut_short
  with_command-IsShort (some t) none w s h = search cut_short
  with_command-IsShort (some t) (some id) w s h =
      elim (Bool-cases (is_terminal (find_task s.bb.task_queue t.id))) [
        | inl e ↦ rw e (search cut_short)
        | inr e ↦ elim (Bool-cases (is_detection_active s.bb)) [
          | inl d ↦ rw (e, d) (halt_for_detection-IsShort c.wall t w s)
          | inr d ↦ rw (e, d) (polled-IsShort (poll_command_result w s id) (task_of s.bb t) w s h)
        ]
      ]

  retried-IsShort :
      (t : Task) (w : EntityWorker) (p : WorkerWorld Payload × Option String)
      → IsShort (retried tx zone_target c t w p).0
  unfolding record_transition
  retried-IsShort t w (s, none) = search cut_short
  retried-IsShort t w (s, some id) = search cut_short

  retry-IsShort :
      (answer : HumanAnswer) (t : Task) (w : EntityWorker) (s : WorkerWorld Payload)
      → IsShort (retry tx zone_target c answer t w s).0
  unfolding retry
  retry-IsShort answer t w s =
      let t1 = merged tx zone_target c answer w t in
      let s1 : WorkerWorld Payload =
        mark c.wall t.id "executing" none none
          (cleared tx zone_target c t (edit t.id (merged tx zone_target c answer w) s)) in
      let w1 : EntityWorker = record w {
        exec_start = c.input.now;
        exec_steps = build_exec_steps t1;
        step_index = 0;
      } in
      retried-IsShort t w1
        (dispatch_step tx zone_target c.input.fresh_id w1 t1 (first_step w1.exec_steps) s1)

  answered-IsShort :
      (answer : Option HumanAnswer) (t : Task) (w : EntityWorker) (s : WorkerWorld Payload)
      → IsShort w
      → IsShort (answered tx zone_target c answer t w s).0
  unfolding answered skip record_transition
  answered-IsShort (some answer) t w s h = elim (Bool-cases (answer.decision == "skip")) [
    | inl e ↦ rw e (search cut_short)
    | inr e ↦ rw e (retry-IsShort answer t w s)
  ]
  answered-IsShort none t w s h =
      elim (Bool-cases (leb w.fallback_timeout (c.input.now - w.fallback_start))) [
        | inl e ↦ rw e (search cut_short)
        | inr e ↦ rw e h
      ]

  with_task-IsShort :
      (o : Option Task) (w : EntityWorker) (s : WorkerWorld Payload)
      → IsShort w
      → IsShort (with_task tx zone_target c o w s).0
  unfolding record_transition
  with_task-IsShort none w s h = search cut_short
  with_task-IsShort (some t) w s h = elim (Bool-cases (is_detection_active s.bb)) [
    | inl d ↦ rw d (halt_for_detection-IsShort c.wall t w s)
    | inr d ↦ rw d (answered-IsShort (read_task_human_response t.id s.bb) (task_of s.bb t) w s h)
  ]

  picked-IsShort :
      (t : Task) (w : EntityWorker) (p : WorkerWorld Payload × Option String)
      → IsShort w
      → IsShort (picked tx zone_target c t w p).1
  unfolding record_transition
  picked-IsShort t w (s, none) h = h
  picked-IsShort t w (s, some id) h = search cut_short

  begin-IsShort :
      (p : Option Task × EntityWorker × WorkerWorld Payload)
      → IsShort p.1
      → IsShort (begin tx zone_target c p).1
  unfolding begin
  begin-IsShort (none, w, s) h = h
  begin-IsShort (some t, w, s) h =
      let w1 : EntityWorker = record w {
        current_task = some t;
        exec_start = c.input.now;
        exec_steps = build_exec_steps t;
        step_index = 0;
      } in
      picked-IsShort t w1
        (dispatch_step tx zone_target c.input.fresh_id w1 t (first_step w1.exec_steps)
          (mark c.wall t.id "executing" none none s))
        h

module _ {Payload : Type 0} (proximity : String → Blackboard → Task → ℕ) (wall : ℕ) where
  steal-IsShort :
      (o : Option Task) (w : EntityWorker) (s : WorkerWorld Payload)
      → IsShort w
      → IsShort (steal proximity wall o w s).1
  unfolding record_transition
  steal-IsShort none w s h = h
  steal-IsShort (some t) w s h = search cut_short

  try_steal_task-IsShort :
      (w : EntityWorker) (s : WorkerWorld Payload)
      → IsShort w
      → IsShort (try_steal_task proximity wall w s).1
  unfolding try_steal_task
  try_steal_task-IsShort w s h = elim (Bool-cases (w.work_stealing_enabled && w.has_resolver)) [
    | inl e ↦ rw e (steal-IsShort _ w s h)
    | inr e ↦ rw e h
  ]

  choose-IsShort :
      (o : Option Task) (w : EntityWorker) (s : WorkerWorld Payload)
      → IsShort w
      → IsShort (choose proximity wall o w s).1
  choose-IsShort none w s h = try_steal_task-IsShort w s h
  choose-IsShort (some t) w s h = h

  pick_next_task-IsShort :
      (w : EntityWorker) (s : WorkerWorld Payload)
      → IsShort w
      → IsShort (pick_next_task proximity wall w s).1
  unfolding pick_next_task
  pick_next_task-IsShort w s h = elim (Bool-cases (is_mission_goal_met s.bb)) [
    | inl e ↦ rw e h
    | inr e ↦
        let found = scan wall w.entity_id s.bb.task_queue (s.bb, []) in
        rw e
          (choose-IsShort (head (sort_by priority_first found.1)) w (record s { bb = found.0 }) h)
  ]

module _ {Payload : Type 0} (tx : Translators CommandParams Payload)
    (zone_target : Blackboard → Datum → Datum) (proximity : String → Blackboard → Task → ℕ)
    (c : Clocks) where
  handle_idle-IsShort :
      (w : EntityWorker) (s : WorkerWorld Payload)
      → IsShort w
      → IsShort (handle_idle tx zone_target proximity c w s).1
  unfolding handle_idle
  handle_idle-IsShort w s h = elim (Bool-cases (is_detection_active s.bb)) [
    | inl e ↦ rw e h
    | inr e ↦ rw e (
        begin-IsShort tx zone_target c (pick_next_task proximity c.wall w s)
          (pick_next_task-IsShort proximity c.wall w s h))
  ]

  -- The transition log never holds more than 50 entries: no tick and no restart makes it longer.
  pub update-IsShort :
      (wall : ℕ) (w : EntityWorker) (s : WorkerWorld Payload)
      → IsShort w
      → IsShort (update tx zone_target proximity c w s).1 × IsShort (initialise wall w)
  unfolding update handle_executing handle_human_fallback initialise record_transition
  update-IsShort wall w s h = (by_phase w.phase, restarted w.phase)
    where
      by_phase : (p : WorkerPhase) → IsShort (in_phase tx zone_target proximity c p w s).1
      by_phase WorkerPhase.idle = handle_idle-IsShort w s h
      by_phase WorkerPhase.executing =
          with_command-IsShort tx zone_target c w.current_task (given w.command_id) w s h
      by_phase WorkerPhase.human_fallback = with_task-IsShort tx zone_target c w.current_task w s h

      restarted : (p : WorkerPhase) → IsShort (noted_reset wall p (reset w))
      restarted WorkerPhase.idle = h
      restarted WorkerPhase.executing = search cut_short
      restarted WorkerPhase.human_fallback = search cut_short
