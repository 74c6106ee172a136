-- ===== src/Examples/Gates.antt =====
-- A gate that asks an operator, and the operator's answers.
use hmta_service.Prelude.{String, none, some, true, false, [], ◌∷◌, ◌≡◌, inl, refl, ne_of_==}
use hmta_service.Prelude.Dict.{lookup}
use hmta_service.Command.{CommandState, completed, failed, dispatched, CommandResolver, Translators}
use hmta_service.Command.Status.{get_status}
use hmta_service.Behaviours.{Input, success, flag, Condition, Task, Blackboard, bb_get, is_truthy}
use hmta_service.Behaviours.GoalGate.{Gate, World, confirming, confirmed_key, rejected_key, pending}
use hmta_service.Behaviours.GoalGate.Ticks.{handle_confirming, update}
use hmta_service.Behaviours.GoalGate.Laws.{
  IsAnswered, IsRejection, update_success, update-IsRejection,
}
use hmta_service.Responses.{HumanResponse, resolve_task_id, handle_response}
use hmta_service.Responses.Answers.{unknown_option_rejects}

abbrev found : Condition
found = record { key = "bomb_found"; expected = flag true }

abbrev pub search : Task
search = record {
  id = "t1";
  entity = "dog-1";
  status = "running";
  intent = "scan";
  priority = "normal";
  zone_id = "";
  human_supervisor = "";
  depends_on = [];
  required_capabilities = [];
  preconditions = [];
  effects = [];
  params = [];
  human_response = none;
  stolen_from = none;
  failure_reason = none;
  started_at = none;
  completed_at = none;
  elapsed_ms = none;
  human_intervention_count = 0;
  human_intervention_ms = 0;
  human_response_count = 0;
  human_timeout_count = 0;
  human_intervention_reason = none;
}

abbrev pub board : Blackboard
board = record {
  values = ("bomb_found", flag true) ∷ [];
  plain = ("bomb_found", flag true) ∷ [];
  mission_goal =
      some (record { success_condition = some found; requires_confirmation = some true });
  detecting_entity = "dog-1";
  sessions = [];
  planned_waypoints = [];
  param_responses = [];
  pending_waypoints = [];
  task_queue = search ∷ [];
}

abbrev asking : Gate
asking = record {
  id = "gate";
  human_supervisor_id = "op-1";
  timeout_sec = 60;
  has_resolver = true;
  has_oracle = true;
  phase = confirming;
  directive_id = some "d1";
  confirm_start = 100;
  rejected_count = 0;
  review_session_id = none;
}

abbrev pub resolver_with : CommandState → CommandResolver String String
resolver_with state = record {
  schema = [];
  capabilities = [];
  commands =
      (
        "d1",
        record {
          command_id = "d1";
          entity_id = "op-1";
          node_id = "gate";
          state = state;
          error = none;
          result = none;
        },
      )
      ∷ [];
  directive_task_map = ("d1", "t1") ∷ [];
  published = [];
}

abbrev world_with : CommandState → World String String
world_with state = record { bb = board; resolver = resolver_with state; judgments = [] }

abbrev tick : Input
tick = record { now = 110; fresh_id = "d2" }

abbrev pub gate_translators : Translators String String
gate_translators = record {
  resolve_alias = λ intent. intent;
  robot = λ command entity. some command.params;
  is_invalid_target = λ payload. false;
  detection = λ command. some none;
  human = λ command entity. some command.params;
}

abbrev show : Condition → String
show cond = cond.key

waits : pending board ≡ some found
unfolding pending is_truthy lookup bb_get
waits = refl

asking-IsAnswered : (state : CommandState) → IsAnswered state asking (world_with state)
unfolding get_status lookup
asking-IsAnswered state = record {
  in_confirming = refl;
  wired = refl;
  id = "d1";
  asked = refl;
  answered = refl;
}

completes : update gate_translators show tick asking (world_with completed) ≡ (
  success,
  (update gate_translators show tick asking (world_with completed)).1,
  (update gate_translators show tick asking (world_with completed)).2,
)
unfolding update pending is_truthy lookup bb_get handle_confirming get_status
completes = refl

update_success_example :
    IsAnswered completed asking (world_with completed)
    × (bb_get (update gate_translators show tick asking (world_with completed)).2.bb confirmed_key
        ≡ some (flag true))
update_success_example =
    update_success gate_translators show tick asking
      (update gate_translators show tick asking (world_with completed)).1 (world_with completed)
      (update gate_translators show tick asking (world_with completed)).2 found waits completes

update-IsRejection_example :
    IsRejection found asking
      (world_with failed)
      (update gate_translators show tick asking (world_with failed))
update-IsRejection_example =
    update-IsRejection gate_translators show tick asking (world_with failed) found waits
      (ne_of_== "bomb_found" "" refl) (ne_of_== "bomb_found" rejected_key refl)
      (inl (asking-IsAnswered failed))

-- The answer that the gate offers for "yes".
abbrev says_confirm : HumanResponse
says_confirm = record {
  response_id = "d1";
  selected_option = "confirm";
  reason = none;
  conditions = none;
  waypoints = [];
  response_data = [];
}

for_t1 : "t1" ≡ resolve_task_id (resolver_with dispatched) says_confirm
unfolding resolve_task_id lookup
for_t1 = refl

unknown_option_rejects_example :
    IsRejection found asking
      (record {
        bb = (handle_response says_confirm board (resolver_with dispatched)).0;
        resolver = (handle_response says_confirm board (resolver_with dispatched)).1;
        judgments = [];
      })
      (update gate_translators show tick asking (record {
        bb = (handle_response says_confirm board (resolver_with dispatched)).0;
        resolver = (handle_response says_confirm board (resolver_with dispatched)).1;
        judgments = [];
      }))
unknown_option_rejects_example =
    unknown_option_rejects gate_translators show says_confirm tick asking (world_with dispatched)
      found refl waits (ne_of_== "bomb_found" "" refl) (ne_of_== "bomb_found" rejected_key refl)
      refl refl refl
