-- ===== src/Examples/Fallbacks.antt =====
-- A drive that fails, and a human who plans the way.
use hmta_service.Prelude.{ℕ, String, none, some, true, arith, List, ◌≡◌, refl}
use hmta_service.Prelude.Dict.{lookup}
use hmta_service.Command.{CommandState, completed}
use hmta_service.Command.Status.{get_status}
use hmta_service.Behaviours.{failure, Waypoint}
use hmta_service.Behaviours.SupervisedFallback.{
  Subtree, node, no_children, add_child, get_robot_entity_id, find_entity, follow_path, Fallback,
  Surroundings, ChildTick, Clocks,
}
use hmta_service.Behaviours.SupervisedFallback.Ticks.{update}
use hmta_service.Behaviours.SupervisedFallback.Laws.{IsTick, update-IsTick}
use hmta_service.Examples.Gates.{board, gate_translators, resolver_with}

abbrev drive : Subtree
drive =
    node "" (add_child (node "op-1" no_children) (add_child (node "dog-1" no_children) no_children))

drives_dog : get_robot_entity_id "op-1" drive ≡ "dog-1"
unfolding get_robot_entity_id find_entity
drives_dog = refl

abbrev supervised : Fallback ℕ
supervised = record {
  suffix = "cd34";
  human_entity_id = "op-1";
  subtree = drive;
  max_retries = 3;
  timeout_sec = 120;
  has_resolver = true;
  child = 0;
  phase = follow_path;
  retry_count = 3;
  directive_id = none;
  follow_cmd_id = some "d1";
  gate_start = 10;
  follow_start = 20;
  failure_reason = "stuck";
}

abbrev driving : CommandState → Surroundings String String
driving state = record { bb = board; resolver = resolver_with state }

abbrev fails : ℕ → Surroundings String String → ChildTick ℕ (Surroundings String String)
fails n w = record { status = failure; feedback_message = ""; after = n; world = w }

abbrev halt : ℕ → Surroundings String String → ℕ × Surroundings String String
halt n w = (0, w)

abbrev as_reason : String → String
as_reason reason = reason

abbrev as_path : List Waypoint → String
as_path ws = "path"

abbrev at_30 : Clocks
at_30 = record { input = record { now = 30; fresh_id = "d2" }; wall = 30 }

update-IsTick_example :
    IsTick gate_translators fails halt as_reason as_path supervised (driving CommandState.failed) (
      update gate_translators fails halt as_reason as_path at_30 supervised
        (driving CommandState.failed))
update-IsTick_example =
    update-IsTick gate_translators fails halt as_reason as_path at_30 supervised
      (driving CommandState.failed) (omega arith)

path_is_done : (get_status (driving completed).resolver "d1").state ≡ completed
unfolding get_status lookup
path_is_done = refl
