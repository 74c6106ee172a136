-- ===== src/Behaviours/GoalGate/Ticks.antt =====
-- The ticks of app/execution/behaviours/goal_confirmation_gate.py.
use hmta_service.Prelude.{
  ◌+◌, ◌-◌, String, Option, none, some, Bool, true, false, ltb, if◌then◌else◌,
}
use hmta_service.Command.{CommandState, completed, failed, CommandResolver, Translators}
use hmta_service.Command.Status.{get_status, cancel}
use hmta_service.Command.Resolver.{resolve}
use hmta_service.Behaviours.{
  Input, answer_id, Status, success, running, invalid, flag, count, value_eq, Condition, Blackboard,
  bb_get, bb_set,
}
use hmta_service.Behaviours.GoalGate.{
  Gate, Phase, World, close_review_session, confirmed_key, confirming, judge, monitoring,
  open_review_session, pending, rejected_key, reset_key,
}

module _ {Params Payload : Type 0} where
  -- `_handle_rejection`
  unfoldable pub handle_rejection :
      Condition → Gate → World Params Payload → Gate × World Params Payload
  handle_rejection cond g w =
      let g' = record g {
        rejected_count = g.rejected_count + 1;
        directive_id = none;
        phase = monitoring;
      } in
      let bb = bb_set rejected_key (count (g.rejected_count + 1)) (reset_key cond.key w.bb) in
      (g', judge g cond.key false (record w { bb = bb }))

  -- The end of a review with a rejection: the session is closed first.
  abbrev pub reject :
      String
      → Input
      → Condition
      → Gate
      → World Params Payload
      → Status × Gate × World Params Payload
  reject outcome i cond g w =
      let (g', bb) = close_review_session outcome i.now g w.bb in
      let (g'', w') = handle_rejection cond g' (record w { bb = bb }) in (running, g'', w')

  abbrev pub confirm :
      Input → Condition → Gate → World Params Payload → Status × Gate × World Params Payload
  confirm i cond g w =
      let (g', bb) = close_review_session "success" i.now g w.bb in
      (success, g', judge g' cond.key true (record w { bb = bb_set confirmed_key (flag true) bb }))

  abbrev pub expire :
      Input → Condition → Gate → World Params Payload → Status × Gate × World Params Payload
  expire i cond g w =
      if ltb g.timeout_sec (i.now - g.confirm_start)
      then reject "timeout" i cond g w
      else (running, g, w)

  -- A status has no attribute `response`, so the decision of a completed directive is the default
  -- one, which confirms.
  abbrev pub on_status :
      CommandState
      → Input
      → Condition
      → Gate
      → World Params Payload
      → Status × Gate × World Params Payload
  on_status completed i cond g w = confirm i cond g w
  on_status failed i cond g w = reject "failure" i cond g w
  on_status _ i cond g w = expire i cond g w

  abbrev pub with_directive :
      Option String
      → Bool
      → Input
      → Condition
      → Gate
      → World Params Payload
      → Status × Gate × World Params Payload
  with_directive (some id) true i cond g w = on_status (get_status w.resolver id).state i cond g w
  with_directive _ _ i cond g w = (running, record g { phase = monitoring }, w)

  -- `_handle_confirming`
  unfoldable pub handle_confirming :
      Input → Condition → Gate → World Params Payload → Status × Gate × World Params Payload
  handle_confirming i cond g w = with_directive g.directive_id g.has_resolver i cond g w

  module _ (tx : Translators Params Payload) (params_of : Condition → Params) where
    -- `_dispatch_confirmation_directive`; what the operator is shown is `params_of`.
    unfoldable pub dispatch_directive :
        Input → Condition → Gate → World Params Payload → Gate × World Params Payload
    dispatch_directive i cond g w =
        if g.has_resolver
        then (let (r, result) =
              resolve tx
                (record {
                  command_id = i.fresh_id;
                  intent = "goal_confirmation";
                  entity_id = g.human_supervisor_id;
                  params = params_of cond;
                  node_id = g.id;
                })
                w.resolver in
            (record g { directive_id = answer_id result }, record w { resolver = r }))
        else (g, w)

    abbrev pub is_met : Condition → Blackboard → Bool
    is_met cond bb = elim (bb_get bb cond.key) [
      | none ↦ false
      | some actual ↦ value_eq actual cond.expected
    ]

    -- `_handle_monitoring`
    unfoldable pub handle_monitoring :
        Input → Condition → Gate → World Params Payload → Status × Gate × World Params Payload
    handle_monitoring i cond g w =
        if is_met cond w.bb
        then (let (g', w') = dispatch_directive i cond g w in
            let (g'', bb) = open_review_session i.now g' w'.bb in
            (
              running,
              record g'' { phase = confirming; confirm_start = i.now },
              record w' { bb = bb },
            ))
        else (running, g, w)

    abbrev pub in_phase :
        Phase
        → Input
        → Condition
        → Gate
        → World Params Payload
        → Status × Gate × World Params Payload
    in_phase monitoring i cond g w = handle_monitoring i cond g w
    in_phase confirming i cond g w = handle_confirming i cond g w

    unfoldable pub update :
        Input → Gate → World Params Payload → Status × Gate × World Params Payload
    update i g w = elim (pending w.bb) [
      | none ↦ (success, g, w)
      | some cond ↦ in_phase g.phase i cond g w
    ]

  unfoldable pub terminate :
      Status → Input → Gate → World Params Payload → Gate × World Params Payload
  terminate invalid i g w =
      let r : CommandResolver Params Payload = elim g.directive_id [
        | none ↦ w.resolver
        | some id ↦ if g.has_resolver then cancel id w.resolver else w.resolver
      ] in
      let (g', bb) = close_review_session "cancelled" i.now g w.bb in
      (record g' { directive_id = none }, record w { bb = bb; resolver = r })
  terminate _ i g w = (record g { directive_id = none }, w)
