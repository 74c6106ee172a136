-- ===== src/Responses/Waypoints.antt =====
-- From an operator's waypoints (app/execution/command/response_resolver.py) to the gate that waits
-- for them (app/execution/behaviours/human_gate.py).
use hmta_service.Prelude.{
  ◌-◌, ◌≤◌, String, none, some, true, false, List, [], ◌∷◌, ◌≡◌, ◌≢◌, refl, sym, ap, ◌∙◌, subst,
  arith, ltb, elem, ==_of_ne,
}
use hmta_service.Prelude.Dict.{lookup, lookup-put, lookup-put_self}
use hmta_service.Prelude.Text.{is_prefix, concat, after_prefix}
use hmta_service.Command.{completed, CommandResolver, Translators}
use hmta_service.Command.Status.{get_status, update_status}
use hmta_service.Behaviours.{success, Input, Value, text, Waypoint, Blackboard, is_truthy, bb_set}
use hmta_service.Behaviours.HumanGate.{HumanGate, Outside, waypoint_intents}
use hmta_service.Behaviours.HumanGate.Ticks.{poll_waypoint_response, update}
use hmta_service.Behaviours.HumanGate.Laws.{update_waits}
use hmta_service.Responses.{
  HumanResponse, submit_waypoints, apply_option, apply_to_task_queue, handle_response,
}

-- What a submission of waypoints leaves on the blackboard.
record IsDelivered (suffix : String) (ws : List Waypoint) (old new : Blackboard) : Type 0 where
  delivered :
      lookup suffix new.param_responses
      ≡ some (record { waypoints = ws; params_waypoints = []; decision = "" })
  same_plain : (k : String) → k ≢ "approval_result" → lookup k new.plain ≡ lookup k old.plain

prefix_py : (suffix : String) → after_prefix "py-" (concat "py-" suffix) ≡ some suffix
unfolding after_prefix concat
prefix_py suffix = refl

submit_waypoints-IsDelivered :
    (suffix : String) (x : Waypoint) (xs : List Waypoint) (bb : Blackboard)
    → IsDelivered suffix (x ∷ xs) bb (submit_waypoints (concat "py-" suffix) (x ∷ xs) bb)
unfolding submit_waypoints bb_set
submit_waypoints-IsDelivered suffix x xs bb = rw (prefix_py suffix) (record {
  delivered =
      lookup-put_self suffix (record { waypoints = x ∷ xs; params_waypoints = []; decision = "" })
        bb.param_responses;
  same_plain = λ k other.
      lookup-put "approval_result" k (text "approved") bb.plain
      ∙ rw (==_of_ne "approval_result" k (λ q. other (sym q))) refl;
})

module _ {Params Payload : Type 0} where
  -- A response is handled between two ticks.
  abbrev pub respond : HumanResponse → Outside Params Payload → Outside Params Payload
  respond r w = record w {
    bb = (handle_response r w.bb w.resolver).0;
    resolver = (handle_response r w.bb w.resolver).1;
  }

  apply_to_task_queue-same :
      (resolver : CommandResolver Params Payload) (r : HumanResponse) (bb : Blackboard)
      → ((apply_to_task_queue resolver r bb).param_responses ≡ bb.param_responses)
        × ((apply_to_task_queue resolver r bb).plain ≡ bb.plain)
  unfolding apply_to_task_queue
  apply_to_task_queue-same resolver r bb = ground arith

  handle_response-IsDelivered :
      (r : HumanResponse) (bb : Blackboard) (resolver : CommandResolver Params Payload)
      (suffix : String) (x : Waypoint) (xs : List Waypoint)
      → r.selected_option ≡ "submit_waypoints"
      → r.waypoints ≡ x ∷ xs
      → (get_status resolver r.response_id).node_id ≡ concat "py-" suffix
      → IsDelivered suffix (x ∷ xs) bb (handle_response r bb resolver).0
  unfolding handle_response apply_option
  handle_response-IsDelivered r bb resolver suffix x xs option given sent =
      let h = submit_waypoints-IsDelivered suffix x xs bb in
      let bb' = submit_waypoints (concat "py-" suffix) (x ∷ xs) bb in
      let (responses, plain) =
        apply_to_task_queue-same (update_status r.response_id completed none resolver) r bb' in
      let node_id = (get_status resolver r.response_id).node_id in
      let out : apply_option r.selected_option r node_id bb ≡ (bb', completed) =
        ap (λ s. apply_option s r node_id bb) option
        ∙ ap (λ n. (submit_waypoints n r.waypoints bb, completed)) sent
        ∙ ap (λ ws. (submit_waypoints (concat "py-" suffix) ws bb, completed)) given in
      subst
        (λ o.
          IsDelivered suffix (x ∷ xs) bb
            (apply_to_task_queue (update_status r.response_id o.1 none resolver) r o.0))
        (sym out)
        (record {
          delivered = ap (λ d. lookup suffix d) responses ∙ h.delivered;
          same_plain = λ k other. ap (λ d. lookup k d) plain ∙ h.same_plain k other;
        })

failure_key_apart :
    (entity_id : String) → concat "follow_by_path_failed/" entity_id ≢ "approval_result"
unfolding concat is_prefix
failure_key_apart entity_id q = absurd (cc (ap (λ s. is_prefix "f" s) q))

module _ {Params Payload : Type 0} (tx : Translators Params Payload)
    (add_reason : Value → Params → Params) where
  poll_delivered :
      (i : Input) (g : HumanGate Params) (w : Outside Params Payload) (x : Waypoint)
      (xs : List Waypoint)
      → is_truthy (lookup (concat "follow_by_path_failed/" g.entity_id) w.bb.plain) ≡ false
      → lookup g.suffix w.bb.param_responses
        ≡ some (record { waypoints = x ∷ xs; params_waypoints = []; decision = "" })
      → ((poll_waypoint_response tx add_reason i g w).0 ≡ success)
        × (lookup g.entity_id (poll_waypoint_response tx add_reason i g w).2.bb.pending_waypoints
            ≡ some (x ∷ xs))
  unfolding poll_waypoint_response
  poll_delivered i g w x xs unfailed there =
      rw (unfailed, there) (refl, lookup-put_self g.entity_id (x ∷ xs) w.bb.pending_waypoints)

  -- An operator submits waypoints for the directive of a gate that asks for them. If the gate's
  -- clock has not run out and no drive along earlier waypoints has failed, the gate's next tick
  -- succeeds, and the waypoints stand at the gate's entity.
  pub waypoints_reach_gate :
      (r : HumanResponse) (i : Input) (g : HumanGate Params) (w : Outside Params Payload)
      (id : String) (x : Waypoint) (xs : List Waypoint)
      → r.selected_option ≡ "submit_waypoints"
      → r.waypoints ≡ x ∷ xs
      → (get_status w.resolver r.response_id).node_id ≡ concat "py-" g.suffix
      → g.directive_id ≡ some id
      → elem g.intent waypoint_intents ≡ true
      → i.now - g.start_time ≤ g.timeout_sec
      → is_truthy (lookup (concat "follow_by_path_failed/" g.entity_id) w.bb.plain) ≡ false
      → ((update tx add_reason i g (respond r w)).0 ≡ success)
        × (lookup g.entity_id (update tx add_reason i g (respond r w)).2.bb.pending_waypoints
            ≡ some (x ∷ xs))
  waypoints_reach_gate r i g w id x xs option given sent asked planned in_time unfailed =
      let h = handle_response-IsDelivered r w.bb w.resolver g.suffix x xs option given sent in
      let (reminders, messages, q) = update_waits tx add_reason i g (respond r w) id asked in
      let on_time : ltb g.timeout_sec (i.now - g.start_time) ≡ false = ground arith in
      rw (q, on_time, planned)
        (poll_delivered i (record g { reminders_sent = reminders })
          (record (respond r w) { reminders = messages }) x xs
          (ap is_truthy (
              h.same_plain (concat "follow_by_path_failed/" g.entity_id)
                (failure_key_apart g.entity_id))
            ∙ unfailed)
          h.delivered)
