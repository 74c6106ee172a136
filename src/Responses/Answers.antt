-- ===== src/Responses/Answers.antt =====
-- A response from the bus to its effect: on the command's status, on the task that waits, and on
-- the gate that asked (app/execution/command/response_resolver.py).
use hmta_service.Prelude.{
  String, none, some, true, false, ◌≡◌, ◌≢◌, inl, refl, ap, ◌∙◌, arith, elem, ==_of_ne,
}
use hmta_service.Command.{CommandResolver, Translators}
use hmta_service.Command.Status.{get_status, update_status}
use hmta_service.Behaviours.{Input, Blackboard, Condition, bb_get}
use hmta_service.Behaviours.GoalGate.{Gate, World, confirming, confirmed_key, rejected_key, pending}
use hmta_service.Behaviours.GoalGate.Ticks.{update}
use hmta_service.Behaviours.GoalGate.Laws.{IsRejection, update-IsRejection}
use hmta_service.Responses.{
  HumanResponse, completing_options, apply_option, human_answer, answer_task, resolve_task_id,
  apply_to_task_queue, handle_response,
}
use hmta_service.Responses.Laws.{
  outcome, apply_option-state, update_status-state, update_status-other, apply_option-IsFrame,
  resolve_task_id-update_status,
}

pending_same :
    (a b : Blackboard)
    → a.mission_goal ≡ b.mission_goal
    → bb_get a confirmed_key ≡ bb_get b confirmed_key
    → pending a ≡ pending b
unfolding pending
pending_same a b goal confirmed = ground arith

module _ {Params Payload : Type 0} where
  -- A response completes its directive exactly if it selects one of the eight completing options,
  -- and fails it on any other text; the statuses of other commands, and what was published, stay.
  pub handle_response_status :
      (r : HumanResponse) (bb : Blackboard) (resolver : CommandResolver Params Payload)
      → ((get_status (handle_response r bb resolver).1 r.response_id).state
          ≡ outcome r.selected_option)
        × ((id : String)
            → id ≢ r.response_id
            → get_status (handle_response r bb resolver).1 id ≡ get_status resolver id)
        × ((handle_response r bb resolver).1.published ≡ resolver.published)
  unfolding handle_response update_status
  handle_response_status r bb resolver =
      let (bb', state) =
        apply_option r.selected_option r (get_status resolver r.response_id).node_id bb in
      (
        update_status-state r.response_id state none resolver
            ∙ apply_option-state r.selected_option r (get_status resolver r.response_id).node_id bb,
        λ id apart. update_status-other r.response_id id state none resolver apart,
        refl,
      )

  pub handle_response-queue :
      (r : HumanResponse) (bb : Blackboard) (resolver : CommandResolver Params Payload)
      → resolve_task_id resolver r ≢ ""
      → (handle_response r bb resolver).0.task_queue
        ≡ answer_task (resolve_task_id resolver r) (human_answer r.selected_option r) bb.task_queue
  unfolding handle_response apply_to_task_queue
  handle_response-queue r bb resolver known =
      let node_id = (get_status resolver r.response_id).node_id in
      let (bb', state) = apply_option r.selected_option r node_id bb in
      rw
        (
          resolve_task_id-update_status r state resolver,
          ==_of_ne (resolve_task_id resolver r) "" known,
        )
        (ap (answer_task (resolve_task_id resolver r) (human_answer r.selected_option r))
          (apply_option-IsFrame r.selected_option r node_id bb).queue)

  apply_to_task_queue-IsFrame :
      (resolver : CommandResolver Params Payload) (r : HumanResponse) (bb : Blackboard)
      → ((apply_to_task_queue resolver r bb).mission_goal ≡ bb.mission_goal)
        × (bb_get (apply_to_task_queue resolver r bb) confirmed_key ≡ bb_get bb confirmed_key)
  unfolding apply_to_task_queue bb_get
  apply_to_task_queue-IsFrame resolver r bb = ground arith

  handle_response-pending :
      (r : HumanResponse) (bb : Blackboard) (resolver : CommandResolver Params Payload)
      → pending (handle_response r bb resolver).0 ≡ pending bb
  unfolding handle_response
  handle_response-pending r bb resolver =
      let node_id = (get_status resolver r.response_id).node_id in
      let (bb', state) = apply_option r.selected_option r node_id bb in
      let frame = apply_option-IsFrame r.selected_option r node_id bb in
      let (goal, confirmed) =
        apply_to_task_queue-IsFrame (update_status r.response_id state none resolver) r bb' in
      pending_same (apply_to_task_queue (update_status r.response_id state none resolver) r bb') bb
        (goal ∙ frame.goal) (confirmed ∙ frame.confirmed)

  -- The gate of the mission's goal, in the confirming phase with the directive that the response
  -- answers: whatever option the response selects outside the eight completing ones (among them
  -- "confirm", which the gate itself offers), the gate's next tick treats it as a rejection.
  pub unknown_option_rejects :
      (tx : Translators Params Payload) (params_of : Condition → Params) (r : HumanResponse)
      (i : Input) (g : Gate) (w : World Params Payload) (cond : Condition)
      → elem r.selected_option completing_options ≡ false
      → pending w.bb ≡ some cond
      → cond.key ≢ ""
      → cond.key ≢ rejected_key
      → g.phase ≡ confirming
      → g.has_resolver ≡ true
      → g.directive_id ≡ some r.response_id
      → IsRejection cond g
          (record w {
            bb = (handle_response r w.bb w.resolver).0;
            resolver = (handle_response r w.bb w.resolver).1;
          })
          (update tx params_of i g (record w {
            bb = (handle_response r w.bb w.resolver).0;
            resolver = (handle_response r w.bb w.resolver).1;
          }))
  unknown_option_rejects tx params_of r i g w cond other open_goal named apart phase wired asked =
      update-IsRejection tx params_of i g
        (record w {
          bb = (handle_response r w.bb w.resolver).0;
          resolver = (handle_response r w.bb w.resolver).1;
        })
        cond (handle_response-pending r w.bb w.resolver ∙ open_goal) named apart
        (inl (record {
          in_confirming = phase;
          wired = wired;
          id = r.response_id;
          asked = asked;
          answered = (handle_response_status r w.bb w.resolver).0 ∙ rw other refl;
        }))
