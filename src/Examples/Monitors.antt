-- ===== src/Examples/Monitors.antt =====
-- The end of a mission, and an operator with an open directive.
use hmta_service.Prelude.{String, none, some, true, [], ◌∷◌, ◌≡◌, refl}
use hmta_service.Prelude.Dict.{Dict}
use hmta_service.Command.{dispatched, CommandResolver}
use hmta_service.Behaviours.{success, failure, Datum, Task}
use hmta_service.Behaviours.MissionMonitor.{all_done, update as mission_update, reports_once}
use hmta_service.Behaviours.HumanMonitor.{
  HumanMonitor, update as human_update, compute_status, human_monitor_applies_nothing,
}
use hmta_service.Examples.Gates.{search}

abbrev done : Task
done = record search { status = "completed" }

mission_ends : (mission_update (some (done ∷ [])) none).0 ≡ success
unfolding mission_update all_done
mission_ends = refl

reports_once_example :
    (all_done (done ∷ []) ≡ true)
    × (mission_update (some (search ∷ [])) (mission_update (some (done ∷ [])) none).1
        ≡ (failure, (mission_update (some (done ∷ [])) none).1))
reports_once_example = reports_once done search [] [] none mission_ends

abbrev operator : HumanMonitor
operator = record { entity_id = "op-1"; poll_interval = 1; last_poll = 0; has_resolver = true }

abbrev with_open : CommandResolver (Dict Datum) String
with_open = record {
  schema = [];
  capabilities = [];
  commands =
      (
        "d1",
        record {
          command_id = "d1";
          entity_id = "op-1";
          node_id = "n1";
          state = dispatched;
          error = none;
          result = none;
        },
      )
      ∷ [];
  directive_task_map = ("d1", "t1") ∷ [];
  published = [];
}

human_monitor_applies_nothing_example :
    ((human_update 5 operator with_open (search ∷ [])).2 ≡ search ∷ [])
    × ((human_update 5 operator with_open (search ∷ [])).0 ≡ compute_status "op-1" (search ∷ []))
human_monitor_applies_nothing_example =
    human_monitor_applies_nothing 5 operator with_open (search ∷ []) (refl, tt)
