-- ===== src/Responses/Laws.antt =====
-- What a human's response does to the command's status, to the task that waits for it, and to the
-- gate that asked (app/execution/command/response_resolver.py).
use hmta_service.Prelude.{
  String, Option, none, some, true, false, List, [], ◌∷◌, ◌++◌, ◌==◌, ◌≡◌, ◌≢◌, inl, inr, refl, sym,
  ap, ◌∙◌, arith, if◌then◌else◌, Option-cases, by_text, ==_of_ne, ==_refl, elem, All,
}
use hmta_service.Prelude.Dict.{lookup, lookup-put, lookup-put_self}
use hmta_service.Prelude.Text.{after_prefix}
use hmta_service.Command.{CommandState, completed, failed, CommandResolver}
use hmta_service.Command.Status.{or_default, get_status, update_status, update_commands, set_state}
use hmta_service.Behaviours.{
  Value, flag, text, Waypoint, Task, HumanAnswer, Blackboard, bb_set, bb_get-bb_set, bb_set-frame,
  bb_get,
}
use hmta_service.Behaviours.GoalGate.{confirmed_key}
use hmta_service.Responses.{
  HumanResponse, completing_options, skip_options, submit_waypoints, non_empty, text_of,
  apply_option, human_answer, answer_task, resolve_task_id,
}

abbrev pub outcome : String → CommandState
outcome option = if elem option completing_options then completed else failed

pub apply_option-state :
    (option : String) (r : HumanResponse) (node_id : String) (bb : Blackboard)
    → (apply_option option r node_id bb).1 ≡ outcome option
unfolding apply_option
apply_option-state option r node_id bb =
    let P : String → Type 0 = λ s. (apply_option s r node_id bb).1 ≡ outcome s in
    by_text P option "approve" refl λ e1 f1. by_text P option "proceed" refl λ e2 f2.
      by_text P option "reject" refl λ e3 f3. by_text P option "abort" refl λ e4 f4.
        by_text P option "approve_with_conditions" refl λ e5 f5.
          by_text P option "submit_waypoints" refl λ e6 f6.
            by_text P option "request_recheck" refl λ e7 f7. by_text P option "skip" refl λ e8 f8.
              by_text P option "skip_task" refl λ e9 f9.
                by_text P option "zone_specified" refl λ e10 f10.
                  by_text P option "retry_with_params" refl λ e11 f11.
                    rw
                      (
                        e1, e2, e3, e4, e5, e6, e7, e8, e9, e10, e11, f1, f2, f5, f6, f8, f9, f10,
                        f11,
                      )
                      refl

pub update_status-state :
    {Params Payload : Type 0} (id : String) (state : CommandState) (error : Option String)
    (resolver : CommandResolver Params Payload)
    → (get_status (update_status id state error resolver) id).state ≡ state
unfolding get_status update_status update_commands set_state
update_status-state id state error resolver = elim (Option-cases (lookup id resolver.commands)) [
  | inl e ↦ rw (e, lookup-put_self id) refl
  | inr (s, e) ↦ rw (e, lookup-put_self id) refl
]

pub update_status-other :
    {Params Payload : Type 0} (id other : String) (state : CommandState) (error : Option String)
    (resolver : CommandResolver Params Payload)
    → other ≢ id
    → get_status (update_status id state error resolver) other ≡ get_status resolver other
unfolding get_status update_status update_commands
update_status-other id other state error resolver apart =
    rw (lookup-put id other, ==_of_ne id other (λ q. apart (sym q))) refl

-- What a response leaves as it is on the blackboard.
pub record IsFrame (old new : Blackboard) : Type 0 where
  pub queue : new.task_queue ≡ old.task_queue
  pub goal : new.mission_goal ≡ old.mission_goal
  pub confirmed : bb_get new confirmed_key ≡ bb_get old confirmed_key

IsFrame-refl : (bb : Blackboard) → IsFrame bb bb
IsFrame-refl bb = record { queue = refl; goal = refl; confirmed = refl }

bb_set-IsFrame :
    (key : String) (v : Value) (old new : Blackboard)
    → (key == confirmed_key) ≡ false
    → IsFrame old new
    → IsFrame old (bb_set key v new)
bb_set-IsFrame key v old new apart h = record {
  queue = (bb_set-frame key v new).0 ∙ h.queue;
  goal = (bb_set-frame key v new).1 ∙ h.goal;
  confirmed = bb_get-bb_set key confirmed_key v new ∙ rw apart h.confirmed;
}

submit_waypoints-IsFrame :
    (node_id : String) (waypoints : List Waypoint) (bb : Blackboard)
    → IsFrame bb (submit_waypoints node_id waypoints bb)
unfolding submit_waypoints bb_set bb_get
submit_waypoints-IsFrame node_id [] bb =
    bb_set-IsFrame "approval_result" (text "approved") bb bb refl (IsFrame-refl bb)
submit_waypoints-IsFrame node_id (w ∷ ws) bb =
    let h = bb_set-IsFrame "approval_result" (text "approved") bb bb refl (IsFrame-refl bb) in
    elim (Option-cases (after_prefix "py-" node_id)) [
      | inl e ↦ rw e (record { queue = h.queue; goal = h.goal; confirmed = h.confirmed })
      | inr (s, e) ↦ rw e (record { queue = h.queue; goal = h.goal; confirmed = h.confirmed })
    ]

pub apply_option-IsFrame :
    (option : String) (r : HumanResponse) (node_id : String) (bb : Blackboard)
    → IsFrame bb (apply_option option r node_id bb).0
unfolding apply_option
apply_option-IsFrame option r node_id bb =
    let P : String → Type 0 = λ s. IsFrame bb (apply_option s r node_id bb).0 in
    let same = IsFrame-refl bb in
    let approved = bb_set-IsFrame "approval_result" (text "approved") bb bb refl same in
    let rejected = bb_set-IsFrame "approval_result" (text "rejected") bb bb refl same in
    let rejected' =
      bb_set-IsFrame "rejection_reason" (text (or_default r.reason "")) bb
        (bb_set "approval_result" (text "rejected") bb) refl rejected in
    let conditional =
      bb_set-IsFrame "approval_conditions" (text (or_default r.conditions "")) bb
        (bb_set "approval_result" (text "approved") bb) refl approved in
    let recheck = bb_set-IsFrame "recheck_requested" (flag true) bb bb refl same in
    by_text P option "approve" approved λ e1 f1. by_text P option "proceed" approved λ e2 f2.
      by_text P option "reject" rejected' λ e3 f3. by_text P option "abort" rejected' λ e4 f4.
        by_text P option "approve_with_conditions" conditional λ e5 f5.
          by_text P option "submit_waypoints" (submit_waypoints-IsFrame node_id r.waypoints bb)
            λ e6 f6. by_text P option "request_recheck" recheck λ e7 f7.
              by_text P option "skip" same λ e8 f8. by_text P option "skip_task" same λ e9 f9.
                by_text P option "zone_specified" same λ e10 f10.
                  by_text P option "retry_with_params" same
                    λ e11 f11. rw (e1, e2, e3, e4, e5, e6, e7, e8, e9, e10, e11) same

pub human_answer-decision :
    (option : String) (r : HumanResponse)
    → (human_answer option r).decision ≡ (if elem option skip_options then "skip" else "retry")
unfolding human_answer
human_answer-decision option r = ground arith

-- The lists of tasks without one of the id.
abbrev pub IsAbsent : String → List Task → Type 0
IsAbsent id = All (λ t. t.id ≢ id)

pub answer_task-first :
    (id : String) (answer : HumanAnswer) (before after : List Task) (t : Task)
    → IsAbsent id before
    → t.id ≡ id
    → answer_task id answer (before ++ t ∷ after)
      ≡ before ++ record t { human_response = some answer } ∷ after
unfolding answer_task
answer_task-first id answer [] after t h q = rw (q, ==_refl id) refl
answer_task-first id answer (u ∷ before) after t h q =
    rw (==_of_ne u.id id h.0) (ap (λ ts. u ∷ ts) (answer_task-first id answer before after t h.1 q))

pub answer_task-absent :
    (id : String) (answer : HumanAnswer) (ts : List Task)
    → IsAbsent id ts
    → answer_task id answer ts ≡ ts
unfolding answer_task
answer_task-absent id answer [] h = refl
answer_task-absent id answer (u ∷ ts) h =
    rw (==_of_ne u.id id h.0) (ap (λ us. u ∷ us) (answer_task-absent id answer ts h.1))

module _ {Params Payload : Type 0} where
  update_status-node_id :
      (id : String) (state : CommandState) (error : Option String)
      (resolver : CommandResolver Params Payload)
      → (get_status (update_status id state error resolver) id).node_id
        ≡ (get_status resolver id).node_id
  unfolding get_status update_status update_commands set_state
  update_status-node_id id state error resolver =
      elim (Option-cases (lookup id resolver.commands)) [
        | inl e ↦ rw (e, lookup-put_self id) refl
        | inr (s, e) ↦ rw (e, lookup-put_self id) refl
      ]

  pub resolve_task_id-update_status :
      (r : HumanResponse) (state : CommandState) (resolver : CommandResolver Params Payload)
      → resolve_task_id (update_status r.response_id state none resolver) r
        ≡ resolve_task_id resolver r
  unfolding resolve_task_id update_status
  resolve_task_id-update_status r state resolver =
      ap
        (λ node_id. non_empty (or_default (lookup r.response_id resolver.directive_task_map) "") (
          or_default (after_prefix "fallback_" node_id)
            (text_of (lookup "task_id" r.response_data))))
        (update_status-node_id r.response_id state none resolver)
