-- ===== src/Examples/Waypoints.antt =====
-- A gate that asks an operator for a path.
use hmta_service.Prelude.{List, ℕ, arith, String, none, some, true, false, [], ◌∷◌, ◌≡◌, refl}
use hmta_service.Prelude.Dict.{lookup}
use hmta_service.Prelude.Text.{concat}
use hmta_service.Command.{dispatched, CommandResolver}
use hmta_service.Command.Status.{get_status}
use hmta_service.Behaviours.{success, Input, Value, text, Waypoint, is_truthy}
use hmta_service.Behaviours.HumanGate.{HumanGate, Outside}
use hmta_service.Behaviours.HumanGate.Ticks.{remind, send_reminders, poll_waypoint_response, update}
use hmta_service.Behaviours.HumanGate.Laws.{IsHandover, update-IsHandover}
use hmta_service.Responses.{HumanResponse}
use hmta_service.Responses.Waypoints.{respond, waypoints_reach_gate}
use hmta_service.Examples.Gates.{board, gate_translators}

abbrev corner : Waypoint
corner = ("x", text "3") ∷ []

abbrev planner : HumanGate String
planner = record {
  suffix = "ab12";
  entity_id = "op-1";
  intent = "path_planning";
  params = "";
  has_reason = false;
  timeout_sec = 60;
  max_retries = 1;
  has_resolver = true;
  has_zenoh = true;
  directive_id = some "d1";
  start_time = 100;
  retry_count = 0;
  reminders_sent = [];
}

abbrev asked_resolver : CommandResolver String String
asked_resolver = record {
  schema = [];
  capabilities = [];
  commands =
      (
        "d1",
        record {
          command_id = "d1";
          entity_id = "op-1";
          node_id = "py-ab12";
          state = dispatched;
          error = none;
          result = none;
        },
      )
      ∷ [];
  directive_task_map = [];
  published = [];
}

abbrev idle : Outside String String
idle = record { bb = board; resolver = asked_resolver; reminders = [] }

abbrev delivered : Outside String String
delivered = record idle {
  bb = record board {
    param_responses =
        ("ab12", record { waypoints = corner ∷ []; params_waypoints = []; decision = "" }) ∷ [];
  };
}

abbrev at : ℕ → Input
at now = record { now = now; fresh_id = "d2" }

abbrev keep : Value → String → String
keep reason params = params

hands_over : update gate_translators keep (at 110) planner delivered ≡ (
  success,
  (update gate_translators keep (at 110) planner delivered).1,
  (update gate_translators keep (at 110) planner delivered).2,
)
unfolding update send_reminders remind poll_waypoint_response lookup concat is_truthy
hands_over = refl

update-IsHandover_example :
    IsHandover planner delivered (update gate_translators keep (at 110) planner delivered).2
update-IsHandover_example =
    update-IsHandover gate_translators keep (at 110) planner
      (update gate_translators keep (at 110) planner delivered).1 delivered
      (update gate_translators keep (at 110) planner delivered).2 refl hands_over

abbrev slow_ticks : List (Input × (Outside String String → Outside String String))
slow_ticks =
    (at 150, λ w. w)
    ∷ (at 200, λ w. w)
    ∷ (at 250, λ w. w)
    ∷ (at 300, λ w. w)
    ∷ (at 301, λ w. w)
    ∷ []

abbrev submission : HumanResponse
submission = record {
  response_id = "d1";
  selected_option = "submit_waypoints";
  reason = none;
  conditions = none;
  waypoints = corner ∷ [];
  response_data = [];
}

sent_by_planner : (get_status idle.resolver "d1").node_id ≡ concat "py-" "ab12"
unfolding get_status lookup concat
sent_by_planner = refl

no_failure : is_truthy (lookup (concat "follow_by_path_failed/" "op-1") board.plain) ≡ false
unfolding lookup concat is_truthy
no_failure = refl

waypoints_reach_gate_example :
    ((update gate_translators keep (at 110) planner (respond submission idle)).0 ≡ success)
    × (lookup "op-1"
          (update gate_translators keep
            (at 110)
            planner
            (respond submission idle)).2.bb.pending_waypoints
        ≡ some (corner ∷ []))
waypoints_reach_gate_example =
    waypoints_reach_gate gate_translators keep submission (at 110) planner idle "d1" corner [] refl
      refl sent_by_planner refl refl (omega arith) no_failure
