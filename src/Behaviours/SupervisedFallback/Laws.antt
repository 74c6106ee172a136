-- ===== src/Behaviours/SupervisedFallback/Laws.antt =====
-- What the decorator of app/execution/behaviours/supervised_fallback.py promises: where its success
-- and its failure come from.
use hmta_service.Prelude.{
  ◌+◌, ◌-◌, ◌≤◌, String, Option, none, some, List, [], ◌∷◌, ◌≡◌, ◌≢◌, inl, inr, refl, ◌∙◌, arith,
  ltb, leb, Bool-cases,
}
use hmta_service.Prelude.Dict.{lookup}
use hmta_service.Command.{CommandState, completed, failed, Translators}
use hmta_service.Command.Status.{get_status}
use hmta_service.Behaviours.{Status, success, failure, running, Input, Waypoint}
use hmta_service.Behaviours.SupervisedFallback.{
  FallbackPhase, autonomous, human_gate, follow_path, Fallback, Surroundings, ChildTick, Clocks,
  waypoints_of, reason_of,
}
use hmta_service.Behaviours.SupervisedFallback.Ticks.{
  enter_human_gate, enter_follow_path, goes_on, child_answers, tick_autonomous, await, at_gate,
  tick_human_gate, handle_follow_failure, follow_by_state, with_follow_cmd, tick_follow_path,
  in_phase, update,
}

module _ {Child Params Payload : Type 0} (tx : Translators Params Payload)
    (tick : Child → Surroundings Params Payload → ChildTick Child (Surroundings Params Payload))
    (stop : Child → Surroundings Params Payload → Child × Surroundings Params Payload)
    (gate_params : String → Params) (path_params : List Waypoint → Params) where
  -- A tick of a decorator that succeeds only by its child, and fails only with no retry left.
  pub record IsTick (g : Fallback Child) (w : Surroundings Params Payload)
      (out : Status × Fallback Child × Surroundings Params Payload) : Type 0 where
    pub on_success : out.0 ≡ success → (g.phase ≡ autonomous) × ((tick g.child w).status ≡ success)
    pub on_failure : out.0 ≡ failure → (g.phase ≢ autonomous) × (g.max_retries ≤ g.retry_count)
    pub on_running : out.0 ≡ running → out.1.retry_count ≤ g.max_retries
    pub same_max : out.1.max_retries ≡ g.max_retries

  enter_human_gate-frame :
      (i : Input) (g : Fallback Child) (w : Surroundings Params Payload)
      → ((enter_human_gate tx tick stop gate_params path_params i g w).0.retry_count
          ≡ g.retry_count)
        × ((enter_human_gate tx tick stop gate_params path_params i g w).0.max_retries
            ≡ g.max_retries)
  unfolding enter_human_gate
  enter_human_gate-frame i g w = elim (Bool-cases g.has_resolver) [
    | inl e ↦ rw e (refl, refl)
    | inr e ↦ rw e (refl, refl)
  ]

  enter_follow_path-frame :
      (c : Clocks) (ws : List Waypoint) (g : Fallback Child) (w : Surroundings Params Payload)
      → ((enter_follow_path tx tick stop gate_params path_params c ws g w).0.retry_count
          ≡ g.retry_count)
        × ((enter_follow_path tx tick stop gate_params path_params c ws g w).0.max_retries
            ≡ g.max_retries)
  unfolding enter_follow_path
  enter_follow_path-frame c ws g w = elim (Bool-cases g.has_resolver) [
    | inl e ↦ rw e (refl, refl)
    | inr e ↦ rw e (refl, refl)
  ]

  running-IsTick :
      (g g' : Fallback Child) (w w' : Surroundings Params Payload)
      → g'.retry_count ≤ g.max_retries
      → g'.max_retries ≡ g.max_retries
      → IsTick g w (running, g', w')
  running-IsTick g g' w w' bounded same = record {
    on_success = λ h. absurd (cc);
    on_failure = λ h. absurd (cc);
    on_running = λ h. bounded;
    same_max = same;
  }

  failing-IsTick :
      (g g' : Fallback Child) (w w' : Surroundings Params Payload)
      → g.phase ≢ autonomous
      → g.max_retries ≤ g.retry_count
      → g'.max_retries ≡ g.max_retries
      → IsTick g w (failure, g', w')
  failing-IsTick g g' w w' other used same = record {
    on_success = λ h. absurd (cc);
    on_failure = λ h. (other, used);
    on_running = λ h. absurd (cc);
    same_max = same;
  }

  -- A tick that asks the human (again).
  asking-IsTick :
      (i : Input) (g g' : Fallback Child) (w w' : Surroundings Params Payload)
      → g'.retry_count ≤ g.max_retries
      → g'.max_retries ≡ g.max_retries
      → IsTick g w (goes_on (enter_human_gate tx tick stop gate_params path_params i g' w'))
  asking-IsTick i g g' w w' bounded same =
      let (count, max) = enter_human_gate-frame i g' w' in
      let (g'', w'') = enter_human_gate tx tick stop gate_params path_params i g' w' in
      running-IsTick g g'' w w'' (rw count bounded) (max ∙ same)

  child_answers-IsTick :
      (status : Status) (i : Input) (message : String) (g g' : Fallback Child)
      (w w' : Surroundings Params Payload)
      → g.phase ≡ autonomous
      → (tick g.child w).status ≡ status
      → g.retry_count ≤ g.max_retries
      → g'.retry_count ≡ g.retry_count
      → g'.max_retries ≡ g.max_retries
      → IsTick g w (child_answers tx tick stop gate_params path_params status i message g' w')
  child_answers-IsTick success i message g g' w w' phase answer bounded count same = record {
    on_success = λ h. (phase, answer);
    on_failure = λ h. absurd (cc);
    on_running = λ h. absurd (cc);
    same_max = same;
  }
  child_answers-IsTick running i message g g' w w' phase answer bounded count same =
      running-IsTick g g' w w' (rw count bounded) same
  child_answers-IsTick _ i message g g' w w' phase answer bounded count same =
      asking-IsTick i g _ w _ (rw count bounded) same

  tick_autonomous-IsTick :
      (i : Input) (g : Fallback Child) (w : Surroundings Params Payload)
      → g.phase ≡ autonomous
      → g.retry_count ≤ g.max_retries
      → IsTick g w (tick_autonomous tx tick stop gate_params path_params i g w)
  unfolding tick_autonomous
  tick_autonomous-IsTick i g w phase bounded =
      let out = tick g.child w in
      child_answers-IsTick out.status i out.feedback_message g (record g { child = out.after }) w
        out.world phase refl bounded refl refl

  await-IsTick :
      (i : Input) (g : Fallback Child) (w : Surroundings Params Payload)
      → g.phase ≢ autonomous
      → g.retry_count ≤ g.max_retries
      → IsTick g w (await tx tick stop gate_params path_params i g w)
  await-IsTick i g w other bounded = elim (Bool-cases (ltb g.timeout_sec (i.now - g.gate_start))) [
    | inl e ↦ elim (Bool-cases (ltb g.retry_count g.max_retries)) [
      | inl f ↦
          let more : g.retry_count + 1 ≤ g.max_retries = ground (arith, f) in
          rw (e, f) (asking-IsTick i g (record g { retry_count = g.retry_count + 1 }) w w more refl)
      | inr f ↦
          let used : g.max_retries ≤ g.retry_count = ground (arith, f) in
          rw (e, f) (failing-IsTick g g w w other used refl)
    ]
    | inr e ↦ rw e (running-IsTick g g w w bounded refl)
  ]

  at_gate-IsTick :
      (ws : List Waypoint) (c : Clocks) (g : Fallback Child) (w : Surroundings Params Payload)
      → g.phase ≢ autonomous
      → g.retry_count ≤ g.max_retries
      → IsTick g w (at_gate tx tick stop gate_params path_params ws c g w)
  at_gate-IsTick [] c g w other bounded = await-IsTick c.input g w other bounded
  at_gate-IsTick (x ∷ xs) c g w other bounded =
      let (count, max) = enter_follow_path-frame c (x ∷ xs) g _ in
      running-IsTick g _ w _ (rw count bounded) max

  handle_follow_failure-IsTick :
      (i : Input) (reason : String) (g : Fallback Child) (w w' : Surroundings Params Payload)
      → g.phase ≢ autonomous
      → IsTick g w (handle_follow_failure tx tick stop gate_params path_params i reason g w')
  unfolding handle_follow_failure
  handle_follow_failure-IsTick i reason g w w' other =
      elim (Bool-cases (leb (g.retry_count + 1) g.max_retries)) [
        | inl e ↦
            let more : g.retry_count + 1 ≤ g.max_retries = ground (arith, e) in
            rw e (asking-IsTick i g _ w w' more refl)
        | inr e ↦
            let used : g.max_retries ≤ g.retry_count = ground (arith, e) in
            rw e (failing-IsTick g _ w w' other used refl)
      ]

  follow_by_state-IsTick :
      (state : CommandState) (error : Option String) (id : String) (c : Clocks) (g : Fallback Child)
      (w : Surroundings Params Payload)
      → g.phase ≢ autonomous
      → g.retry_count ≤ g.max_retries
      → IsTick g w (follow_by_state tx tick stop gate_params path_params state error id c g w)
  follow_by_state-IsTick completed error id c g w other bounded =
      running-IsTick g _ w _ bounded refl
  follow_by_state-IsTick failed error id c g w other bounded =
      handle_follow_failure-IsTick c.input (reason_of error) g w w other
  follow_by_state-IsTick _ error id c g w other bounded =
      elim (Bool-cases (ltb 300 (c.wall - g.follow_start))) [
        | inl e ↦
            rw e (handle_follow_failure-IsTick c.input "follow_by_path timeout (300s)" g w _ other)
        | inr e ↦ rw e (running-IsTick g g w w bounded refl)
      ]

  with_follow_cmd-IsTick :
      (cmd : Option String) (c : Clocks) (g : Fallback Child) (w : Surroundings Params Payload)
      → g.phase ≢ autonomous
      → g.retry_count ≤ g.max_retries
      → IsTick g w (with_follow_cmd tx tick stop gate_params path_params cmd c g w)
  with_follow_cmd-IsTick none c g w other bounded =
      handle_follow_failure-IsTick c.input "dispatch failed" g w w other
  with_follow_cmd-IsTick (some id) c g w other bounded =
      follow_by_state-IsTick (get_status w.resolver id).state (get_status w.resolver id).error id c
        g w other bounded

  in_phase-IsTick :
      (p : FallbackPhase) (c : Clocks) (g : Fallback Child) (w : Surroundings Params Payload)
      → g.phase ≡ p
      → g.retry_count ≤ g.max_retries
      → IsTick g w (in_phase tx tick stop gate_params path_params p c g w)
  unfolding tick_human_gate tick_follow_path
  in_phase-IsTick autonomous c g w phase bounded = tick_autonomous-IsTick c.input g w phase bounded
  in_phase-IsTick human_gate c g w phase bounded =
      at_gate-IsTick (waypoints_of (lookup g.suffix w.bb.param_responses)) c g w (λ q. cc) bounded
  in_phase-IsTick follow_path c g w phase bounded =
      with_follow_cmd-IsTick g.follow_cmd_id c g w (λ q. cc) bounded

  -- A tick succeeds only while the child runs on its own and only if the child succeeds; it fails
  -- only while a human is asked or the human's path is driven, and only if no retry is left;
  -- else the retries stay within their bound, which never changes.
  pub update-IsTick :
      (c : Clocks) (g : Fallback Child) (w : Surroundings Params Payload)
      → g.retry_count ≤ g.max_retries
      → IsTick g w (update tx tick stop gate_params path_params c g w)
  unfolding update
  update-IsTick c g w bounded = in_phase-IsTick g.phase c g w refl bounded
