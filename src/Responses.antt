-- ===== src/Responses.antt =====
-- app/execution/command/response_resolver.py: a human's response becomes a command status, entries
-- of the blackboard, and an answer on the task that asked for it.
pub mod Laws
pub mod Answers
pub mod Waypoints
pub mod Workers
use hmta_service.Prelude.{
  ℕ, String, Option, none, some, Bool, true, false, not, ◌||◌, ◌&&◌, List, [], ◌∷◌, ◌++◌, ◌==◌,
  if◌then◌else◌, elem, filter,
}
use hmta_service.Prelude.Dict.{Dict, lookup, put, update_all}
use hmta_service.Prelude.Text.{after_prefix}
use hmta_service.Command.{CommandState, completed, failed, CommandResolver}
use hmta_service.Command.Status.{or_default, get_status, update_status}
use hmta_service.Behaviours.{
  Value, flag, text, Waypoint, Datum, value, path, fields, HumanAnswer, Task, ParamResponse,
  Blackboard, bb_set,
}

-- app/schemas/command.py: `HumanResponse`
pub record HumanResponse : Type 0 where
  pub response_id : String
  pub selected_option : String
  pub reason : Option String
  pub conditions : Option String
  pub waypoints : List Waypoint  -- empty where they are None
  pub response_data : Dict Datum  -- empty where it is None

abbrev pub skip_options : List String
skip_options = "skip" ∷ "skip_task" ∷ "reject" ∷ "abort" ∷ []

abbrev pub approve_options : List String
approve_options = "approve" ∷ "proceed" ∷ "approve_with_conditions" ∷ []

-- The options that complete the directive; any other one fails it.
abbrev pub completing_options : List String
completing_options =
    "approve" ∷ "proceed" ∷ "approve_with_conditions" ∷ "submit_waypoints" ∷ "skip" ∷ "skip_task"
    ∷ "zone_specified" ∷ "retry_with_params" ∷ []

abbrev pub is_nil {ℓ} : {A : Type ℓ} → List A → Bool
is_nil [] = true
is_nil (_ ∷ _) = false

abbrev pub store_waypoints : Option String → List Waypoint → Blackboard → Blackboard
store_waypoints none waypoints bb = bb
store_waypoints (some node) waypoints bb = record bb {
  param_responses =
      put node (record { waypoints = waypoints; params_waypoints = []; decision = "" })
        bb.param_responses;
}

-- The waypoints go to the blackboard, and to the gate whose node the directive came from.
unfoldable pub submit_waypoints : String → List Waypoint → Blackboard → Blackboard
submit_waypoints node_id waypoints bb =
    let approved = bb_set "approval_result" (text "approved") bb in
    if is_nil waypoints
    then approved
    else store_waypoints (after_prefix "py-" node_id) waypoints
        (record approved { planned_waypoints = waypoints })

-- The branches of `handle_response`: what they write to the blackboard, and the new state.
unfoldable pub apply_option :
    String → HumanResponse → String → Blackboard → Blackboard × CommandState
unfolding submit_waypoints
apply_option option r node_id bb =
    if option == "approve" || option == "proceed"
    then (bb_set "approval_result" (text "approved") bb, completed)
    else if option == "reject" || option == "abort"
    then (
      bb_set "rejection_reason" (text (or_default r.reason ""))
          (bb_set "approval_result" (text "rejected") bb),
      failed,
    )
    else if option == "approve_with_conditions"
    then (
      bb_set "approval_conditions" (text (or_default r.conditions ""))
          (bb_set "approval_result" (text "approved") bb),
      completed,
    )
    else if option == "submit_waypoints"
    then (submit_waypoints node_id r.waypoints bb, completed)
    else if option == "request_recheck"
    then (bb_set "recheck_requested" (flag true) bb, failed)
    else if option == "skip" || option == "skip_task"
    then (bb, completed)
    else if option == "zone_specified"
    then (bb, completed)
    else if option == "retry_with_params"
    then (bb, completed)
    else (bb, failed)

abbrev as_data : Dict Value → Dict Datum
as_data [] = []
as_data ((k, v) ∷ rest) = (k, value v) ∷ as_data rest

abbrev with_waypoints : List Waypoint → Dict Datum
with_waypoints [] = []
with_waypoints (w ∷ ws) = ("waypoints", path (w ∷ ws)) ∷ []

abbrev with_conditions : Option String → Dict Datum → Dict Datum
with_conditions none params = params
with_conditions (some c) params =
    if c == "" then params else put "conditions" (value (text c)) params

abbrev scan_params : Option Datum → Dict Datum
scan_params (some (fields d)) = as_data d
scan_params _ = []

abbrev own_fields : Dict Datum → Dict Datum
own_fields = filter (λ entry. not (entry.0 == "scan_params" || entry.0 == "task_id"))

-- The answer that the task gets.
unfoldable pub human_answer : String → HumanResponse → HumanAnswer
human_answer option r =
    let data_ = r.response_data in
    if elem option skip_options
    then record { decision = "skip"; params = [] }
    else if option == "zone_specified"
    then record {
      decision = "retry";
      params = ("zone_id", or_default (lookup "zone_id" data_) (value (text ""))) ∷ [];
    }
    else if elem option approve_options
    then record {
      decision = "retry";
      params = with_conditions r.conditions (update_all (with_waypoints r.waypoints) data_);
    }
    else if option == "submit_waypoints"
    then record { decision = "retry"; params = with_waypoints r.waypoints }
    else if option == "retry_with_params"
    then record {
      decision = "retry";
      params = update_all (scan_params (lookup "scan_params" data_)) (own_fields data_);
    }
    else record { decision = "retry"; params = [] }

-- The first task with the id is answered.
unfoldable pub answer_task : String → HumanAnswer → List Task → List Task
answer_task id answer [] = []
answer_task id answer (t ∷ ts) =
    if t.id == id
    then record t { human_response = some answer } ∷ ts
    else t ∷ answer_task id answer ts

abbrev pub text_of : Option Datum → String
text_of (some (value (text s))) = s
text_of _ = ""

abbrev pub non_empty : String → String → String
non_empty s other = if s == "" then other else s

module _ {Params Payload : Type 0} where
  -- `_resolve_task_id`: the map of directives, the node's id, the response's own data.
  unfoldable pub resolve_task_id : CommandResolver Params Payload → HumanResponse → String
  resolve_task_id resolver r =
      non_empty (or_default (lookup r.response_id resolver.directive_task_map) "") (
        or_default (after_prefix "fallback_" (get_status resolver r.response_id).node_id)
          (text_of (lookup "task_id" r.response_data)))

  -- `_apply_to_task_queue`
  unfoldable pub apply_to_task_queue :
      CommandResolver Params Payload → HumanResponse → Blackboard → Blackboard
  unfolding answer_task
  apply_to_task_queue resolver r bb =
      let id = resolve_task_id resolver r in
      if id == "" then bb else record bb {
        task_queue = answer_task id (human_answer r.selected_option r) bb.task_queue;
      }

  unfoldable pub handle_response :
      HumanResponse
      → Blackboard
      → CommandResolver Params Payload
      → Blackboard × CommandResolver Params Payload
  handle_response r bb resolver =
      let (bb', state) =
        apply_option r.selected_option r (get_status resolver r.response_id).node_id bb in
      let resolver' = update_status r.response_id state none resolver in
      (apply_to_task_queue resolver' r bb', resolver')
