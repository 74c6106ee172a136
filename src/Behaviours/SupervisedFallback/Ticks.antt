-- ===== src/Behaviours/SupervisedFallback/Ticks.antt =====
-- The ticks of app/execution/behaviours/supervised_fallback.py, phase by phase.
use hmta_service.Prelude.{
  ◌+◌, ◌-◌, String, Option, none, some, Bool, true, List, [], ◌∷◌, ltb, leb, if◌then◌else◌,
}
use hmta_service.Prelude.Dict.{lookup, remove}
use hmta_service.Prelude.Text.{concat}
use hmta_service.Command.{CommandState, completed, failed, Translators}
use hmta_service.Command.Status.{get_status, cancel}
use hmta_service.Command.Resolver.{resolve}
use hmta_service.Behaviours.{
  Status, success, failure, running, invalid, Input, answer_id, text, Waypoint, Blackboard,
  plain_set,
}
use hmta_service.Behaviours.SupervisedFallback.{
  ChildTick, Clocks, Fallback, FallbackPhase, Surroundings, get_robot_entity_id, non_blank,
  reason_of, waypoints_of, autonomous, human_gate, follow_path,
}

module _ {Child Params Payload : Type 0} where
  abbrev pub goes_on :
      Fallback Child × Surroundings Params Payload
      → Status × Fallback Child × Surroundings Params Payload
  goes_on (g, w) = (running, g, w)

module _ {Child Params Payload : Type 0} (tx : Translators Params Payload)
    (tick : Child → Surroundings Params Payload → ChildTick Child (Surroundings Params Payload))
    (stop : Child → Surroundings Params Payload → Child × Surroundings Params Payload)
    (gate_params : String → Params) (path_params : List Waypoint → Params) where
  unfoldable pub initialise : Fallback Child → Fallback Child
  initialise g = record g {
    phase = autonomous;
    retry_count = 0;
    directive_id = none;
    follow_cmd_id = none;
    failure_reason = "";
  }

  abbrev send :
      String
      → String
      → Params
      → Input
      → Fallback Child
      → Surroundings Params Payload
      → Surroundings Params Payload × Option String
  send intent entity_id params i g w =
      let (r, result) =
        resolve tx
          (record {
            command_id = i.fresh_id;
            intent = intent;
            entity_id = entity_id;
            params = params;
            node_id = concat "py-" g.suffix;
          })
          w.resolver in
      (record w { resolver = r }, answer_id result)

  -- `_enter_human_gate`
  unfoldable pub enter_human_gate :
      Input
      → Fallback Child
      → Surroundings Params Payload
      → Fallback Child × Surroundings Params Payload
  enter_human_gate i g w =
      let g' : Fallback Child = record g { phase = human_gate; gate_start = i.now } in
      if g.has_resolver
      then (let (w', id) =
            send "path_planning" g.human_entity_id (gate_params g.failure_reason) i g w in
          (record g' { directive_id = id }, w'))
      else (g', w)

  -- `_enter_follow_path`
  unfoldable pub enter_follow_path :
      Clocks
      → List Waypoint
      → Fallback Child
      → Surroundings Params Payload
      → Fallback Child × Surroundings Params Payload
  enter_follow_path c waypoints g w =
      let g' : Fallback Child = record g { phase = follow_path; follow_start = c.wall } in
      let robot = get_robot_entity_id g.human_entity_id g.subtree in
      if g.has_resolver
      then (let (w', id) = send "follow_by_path" robot (path_params waypoints) c.input g w in
          (record g' { follow_cmd_id = id }, w'))
      else (g', w)

  abbrev pub child_answers :
      Status
      → Input
      → String
      → Fallback Child
      → Surroundings Params Payload
      → Status × Fallback Child × Surroundings Params Payload
  child_answers success i message g w = (success, g, w)
  child_answers running i message g w = (running, g, w)
  child_answers _ i message g w =
      let reason = non_blank message "child failed" in
      goes_on (
        enter_human_gate i (record g { failure_reason = reason })
          (record w { bb = plain_set "last_navigation_failure_reason" (text reason) w.bb }))

  -- `_tick_autonomous`
  unfoldable pub tick_autonomous :
      Input
      → Fallback Child
      → Surroundings Params Payload
      → Status × Fallback Child × Surroundings Params Payload
  tick_autonomous i g w =
      let out = tick g.child w in
      child_answers out.status i out.feedback_message (record g { child = out.after }) out.world

  -- A gate without waypoints yet.
  abbrev pub await :
      Input
      → Fallback Child
      → Surroundings Params Payload
      → Status × Fallback Child × Surroundings Params Payload
  await i g w =
      if ltb g.timeout_sec (i.now - g.gate_start)
      then (if ltb g.retry_count g.max_retries
          then goes_on (enter_human_gate i (record g { retry_count = g.retry_count + 1 }) w)
          else (failure, g, w))
      else (running, g, w)

  abbrev pub at_gate :
      List Waypoint
      → Clocks
      → Fallback Child
      → Surroundings Params Payload
      → Status × Fallback Child × Surroundings Params Payload
  at_gate [] c g w = await c.input g w
  at_gate (x ∷ xs) c g w =
      let bb : Blackboard = record w.bb {
        param_responses = remove g.suffix w.bb.param_responses;
      } in
      goes_on (enter_follow_path c (x ∷ xs) g (record w { bb = bb }))

  -- `_tick_human_gate`
  unfoldable pub tick_human_gate :
      Clocks
      → Fallback Child
      → Surroundings Params Payload
      → Status × Fallback Child × Surroundings Params Payload
  tick_human_gate c g w = at_gate (waypoints_of (lookup g.suffix w.bb.param_responses)) c g w

  -- `_handle_follow_failure`
  unfoldable pub handle_follow_failure :
      Input
      → String
      → Fallback Child
      → Surroundings Params Payload
      → Status × Fallback Child × Surroundings Params Payload
  handle_follow_failure i reason g w =
      let g' : Fallback Child = record g {
        follow_cmd_id = none;
        retry_count = g.retry_count + 1;
      } in
      if leb (g.retry_count + 1) g.max_retries
      then goes_on (enter_human_gate i (record g' { failure_reason = reason }) w)
      else (failure, g', w)

  -- A drive along the path that is over: the child starts again.
  abbrev pub follow_completed :
      Fallback Child
      → Surroundings Params Payload
      → Status × Fallback Child × Surroundings Params Payload
  follow_completed g w =
      let (stopped, w') = stop g.child w in
      (running, record g { follow_cmd_id = none; child = stopped; phase = autonomous }, w')

  abbrev pub follow_goes_on :
      String
      → Clocks
      → Fallback Child
      → Surroundings Params Payload
      → Status × Fallback Child × Surroundings Params Payload
  follow_goes_on id c g w =
      let w' : Surroundings Params Payload =
        if g.has_resolver then record w { resolver = cancel id w.resolver } else w in
      if ltb 300 (c.wall - g.follow_start)
      then handle_follow_failure c.input "follow_by_path timeout (300s)" g w'
      else (running, g, w)

  abbrev pub follow_by_state :
      CommandState
      → Option String
      → String
      → Clocks
      → Fallback Child
      → Surroundings Params Payload
      → Status × Fallback Child × Surroundings Params Payload
  follow_by_state completed error id c g w = follow_completed g w
  follow_by_state failed error id c g w = handle_follow_failure c.input (reason_of error) g w
  follow_by_state _ error id c g w = follow_goes_on id c g w

  abbrev pub with_follow_cmd :
      Option String
      → Clocks
      → Fallback Child
      → Surroundings Params Payload
      → Status × Fallback Child × Surroundings Params Payload
  with_follow_cmd none c g w = handle_follow_failure c.input "dispatch failed" g w
  with_follow_cmd (some id) c g w =
      let status = get_status w.resolver id in follow_by_state status.state status.error id c g w

  -- `_tick_follow_path`
  unfoldable pub tick_follow_path :
      Clocks
      → Fallback Child
      → Surroundings Params Payload
      → Status × Fallback Child × Surroundings Params Payload
  tick_follow_path c g w = with_follow_cmd g.follow_cmd_id c g w

  abbrev pub in_phase :
      FallbackPhase
      → Clocks
      → Fallback Child
      → Surroundings Params Payload
      → Status × Fallback Child × Surroundings Params Payload
  in_phase autonomous c g w = tick_autonomous c.input g w
  in_phase human_gate c g w = tick_human_gate c g w
  in_phase follow_path c g w = tick_follow_path c g w

  unfoldable pub update :
      Clocks
      → Fallback Child
      → Surroundings Params Payload
      → Status × Fallback Child × Surroundings Params Payload
  update c g w = in_phase g.phase c g w

  abbrev cancel_if :
      Bool → Option String → Surroundings Params Payload → Surroundings Params Payload
  cancel_if true (some id) w = record w { resolver = cancel id w.resolver }
  cancel_if _ _ w = w

  unfoldable pub terminate :
      Status
      → Fallback Child
      → Surroundings Params Payload
      → Fallback Child × Surroundings Params Payload
  terminate invalid g w =
      let w' =
        cancel_if g.has_resolver g.directive_id (cancel_if g.has_resolver g.follow_cmd_id w) in
      let (stopped, w'') = stop g.child w' in
      (record g { directive_id = none; follow_cmd_id = none; child = stopped }, w'')
  terminate _ g w = (record g { directive_id = none; follow_cmd_id = none }, w)
