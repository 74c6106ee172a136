-- ===== src/Behaviours/HumanGate/Ticks.antt =====
-- The ticks of app/execution/behaviours/human_gate.py.
use hmta_service.Prelude.{
  ℕ, ◌+◌, ◌-◌, ◌*◌, String, Option, none, some, true, not, ◌&&◌, List, [], ◌∷◌, ◌==◌, nat_eq, ltb,
  leb, any, elem, if◌then◌else◌,
}
use hmta_service.Prelude.Dict.{lookup, put, remove}
use hmta_service.Prelude.Text.{concat}
use hmta_service.Command.{CommandState, completed, failed, CommandResolver, Translators}
use hmta_service.Command.Status.{get_status, cancel}
use hmta_service.Command.Resolver.{resolve}
use hmta_service.Behaviours.{
  Status, success, failure, running, invalid, Input, answer_id, Value, text, is_truthy, Waypoint,
  ParamResponse, plain_set, plain_pop,
}
use hmta_service.Behaviours.HumanGate.{
  HumanGate, Outside, reminder_intervals, response_waypoints, send_reminder, waypoint_intents,
}

module _ {Params Payload : Type 0} where
  unfoldable pub remind :
      ℕ
      → List (ℕ × ℕ)
      → HumanGate Params
      → Outside Params Payload
      → HumanGate Params × Outside Params Payload
  remind elapsed [] g w = (g, w)
  remind elapsed ((idx, ratio) ∷ rest) g w =
      let due = leb (g.timeout_sec * ratio) (elapsed * 100) in
      let fresh = not (any (λ n. nat_eq n idx) g.reminders_sent) in
      let later : HumanGate Params × Outside Params Payload =
        remind elapsed rest (record g { reminders_sent = idx ∷ g.reminders_sent })
          (send_reminder (g.timeout_sec - elapsed) g w) in
      let unchanged = remind elapsed rest g w in if fresh && due then later else unchanged

  -- The reminders of a tick, before the timeout is looked at.
  unfoldable pub send_reminders :
      ℕ → HumanGate Params → Outside Params Payload → HumanGate Params × Outside Params Payload
  unfolding remind
  send_reminders elapsed g w = remind elapsed reminder_intervals g w

  -- The waypoints go to the entity's entry, and the response is taken off.
  abbrev pub take_waypoints :
      List Waypoint
      → ParamResponse
      → HumanGate Params
      → Outside Params Payload
      → Status × HumanGate Params × Outside Params Payload
  take_waypoints (x ∷ xs) response g w = (
    success,
    g,
    record w {
      bb = record w.bb {
        pending_waypoints = put g.entity_id (x ∷ xs) w.bb.pending_waypoints;
        param_responses = remove g.suffix w.bb.param_responses;
      };
    },
  )
  take_waypoints [] response g w =
      if elem response.decision ("reject" ∷ "rejected" ∷ [])
      then (failure, g, w)
      else (running, g, w)

  abbrev pub read_response :
      Option ParamResponse
      → HumanGate Params
      → Outside Params Payload
      → Status × HumanGate Params × Outside Params Payload
  read_response none g w = (running, g, w)
  read_response (some response) g w = take_waypoints (response_waypoints response) response g w

  abbrev pub by_state :
      CommandState
      → HumanGate Params
      → Outside Params Payload
      → Status × HumanGate Params × Outside Params Payload
  by_state completed g w = (success, g, w)
  by_state failed g w = (failure, g, w)
  by_state _ g w = (running, g, w)

  module _ (tx : Translators Params Payload) (add_reason : Value → Params → Params) where
    -- `_dispatch_directive`
    unfoldable pub dispatch_directive :
        Input
        → HumanGate Params
        → Outside Params Payload
        → HumanGate Params × Outside Params Payload
    dispatch_directive i g w =
        if g.has_resolver
        then (let (r, result) =
              resolve tx
                (record {
                  command_id = i.fresh_id;
                  intent = g.intent;
                  entity_id = g.entity_id;
                  params = g.params;
                  node_id = concat "py-" g.suffix;
                })
                w.resolver in
            (
              record g { directive_id = answer_id result; start_time = i.now; reminders_sent = [] },
              record w { resolver = r },
            ))
        else (record g { directive_id = none }, w)

    -- The failure's reason on the blackboard joins the parameters of a path planning gate.
    abbrev pub with_reason : Option Value → HumanGate Params → HumanGate Params
    with_reason none g = g
    with_reason (some reason) g =
        if g.intent == "path_planning" && not g.has_reason && is_truthy (some reason)
        then record g { params = add_reason reason g.params; has_reason = true }
        else g

    unfoldable pub initialise :
        Input
        → HumanGate Params
        → Outside Params Payload
        → HumanGate Params × Outside Params Payload
    initialise i g w =
        dispatch_directive i
          (with_reason (lookup "last_navigation_failure_reason" w.bb.plain)
            (record g { retry_count = 0; reminders_sent = [] }))
          w

    -- One more try, or the end.
    abbrev pub dispatch_again :
        Input
        → HumanGate Params
        → Outside Params Payload
        → Status × HumanGate Params × Outside Params Payload
    dispatch_again i g w =
        let (g', w') = dispatch_directive i (record g { retry_count = g.retry_count + 1 }) w in
        (running, g', w')

    -- `_poll_waypoint_response`
    unfoldable pub poll_waypoint_response :
        Input
        → HumanGate Params
        → Outside Params Payload
        → Status × HumanGate Params × Outside Params Payload
    poll_waypoint_response i g w =
        let fail_key = concat "follow_by_path_failed/" g.entity_id in
        let cleared : Outside Params Payload = record w { bb = plain_pop fail_key w.bb } in
        if is_truthy (lookup fail_key w.bb.plain)
        then (if leb (g.retry_count + 1) g.max_retries
            then dispatch_again i g cleared
            else (failure, record g { retry_count = g.retry_count + 1 }, cleared))
        else read_response (lookup g.suffix w.bb.param_responses) g w

    -- The gate's clock has run out.
    abbrev pub time_out :
        Input
        → HumanGate Params
        → Outside Params Payload
        → Status × HumanGate Params × Outside Params Payload
    time_out i g w =
        if ltb g.retry_count g.max_retries
        then dispatch_again i g w
        else (failure, g, record w { bb = plain_set "approval_result" (text "timeout") w.bb })

    abbrev pub wait_for :
        String
        → Input
        → HumanGate Params
        → Outside Params Payload
        → Status × HumanGate Params × Outside Params Payload
    wait_for id i g w =
        if ltb g.timeout_sec (i.now - g.start_time)
        then time_out i g w
        else if elem g.intent waypoint_intents
        then poll_waypoint_response i g w
        else by_state (get_status w.resolver id).state g w

    abbrev pub with_directive :
        Option String
        → Input
        → HumanGate Params
        → Outside Params Payload
        → Status × HumanGate Params × Outside Params Payload
    with_directive none i g w = (failure, g, w)
    with_directive (some id) i g w =
        let (g', w') = send_reminders (i.now - g.start_time) g w in wait_for id i g' w'

    unfoldable pub update :
        Input
        → HumanGate Params
        → Outside Params Payload
        → Status × HumanGate Params × Outside Params Payload
    update i g w = with_directive g.directive_id i g w

    -- The ticks of a run of the tree, until one of them does not answer RUNNING; before each, the
    -- rest of the program may change what is outside the gate.
    abbrev pub go_on :
        (HumanGate Params
          → Outside Params Payload
          → Status × HumanGate Params × Outside Params Payload)
        → Status × HumanGate Params × Outside Params Payload
        → Status × HumanGate Params × Outside Params Payload
    go_on next (running, g, w) = next g w
    go_on next (status, g, w) = (status, g, w)

    unfoldable pub ticks :
        List (Input × (Outside Params Payload → Outside Params Payload))
        → HumanGate Params
        → Outside Params Payload
        → Status × HumanGate Params × Outside Params Payload
    ticks [] g w = (running, g, w)
    ticks ((i, change) ∷ rest) g w = go_on (ticks rest) (update i g (change w))

  unfoldable pub terminate :
      Status → HumanGate Params → Outside Params Payload → HumanGate Params × Outside Params Payload
  terminate invalid g w =
      let r : CommandResolver Params Payload = elim g.directive_id [
        | none ↦ w.resolver
        | some id ↦ if g.has_resolver then cancel id w.resolver else w.resolver
      ] in
      (record g { directive_id = none }, record w { resolver = r })
  terminate _ g w = (record g { directive_id = none }, w)
