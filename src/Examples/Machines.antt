-- ===== src/Examples/Machines.antt =====
-- A robot's machine through the manager.
use hmta_service.Prelude.{String, Option, none, some, List, [], ◌∷◌, ◌≡◌, inl, refl}
use hmta_service.Prelude.Dict.{lookup}
use hmta_service.Fsm.{Machine, robot_fsm, declared, find_target, IsStateMachine}
use hmta_service.Fsm.Manager.{FsmManager, create_instance, trigger}
use hmta_service.Fsm.Laws.{IsRecoverable, machines_recover}
use hmta_service.Fsm.Tracks.{IsConsistent, empty_manager}
use hmta_service.Fsm.Reachable.{IsReached, fresh, created, triggered, reached-IsConsistent}

-- A library that does what the tables say.
abbrev by_table : Machine → String → String → Option String
by_table m state event = declared m state event

by_table-IsStateMachine : IsStateMachine by_table
by_table-IsStateMachine = record {
  takes = λ m state event target allowed. allowed;
  refuses = λ m state event refused. refused;
}

abbrev starts : List String
starts = "__initial__" ∷ []

abbrev with_dog : FsmManager
with_dog = create_instance by_table starts 1 "dog-1" "robot" empty_manager

abbrev dog_in : String → FsmManager
dog_in state = record empty_manager {
  instances = ("dog-1", record { machine = robot_fsm; state = state }) ∷ [];
}

dog_there :
    (state : String)
    → lookup "dog-1" (dog_in state).instances ≡ some (record { machine = robot_fsm; state = state })
unfolding lookup
dog_there state = refl

idle_moves : declared robot_fsm "idle" "move_command" ≡ some "moving"
unfolding find_target
idle_moves = refl

fault_stays : declared robot_fsm "sensor_fault" "comm_lost" ≡ none
unfolding find_target
fault_stays = refl

machines_recover_example : IsRecoverable robot_fsm "target_marked"
machines_recover_example = machines_recover robot_fsm "target_marked" (inl refl) refl

dog-IsReached :
    IsReached by_table "__initial__" []
      (trigger by_table starts 2 "dog-1" "scan_command" with_dog).0
dog-IsReached =
    triggered with_dog 2 "dog-1" "scan_command" (created empty_manager 1 "dog-1" "robot" fresh)

reached-IsConsistent_example :
    IsConsistent (trigger by_table starts 2 "dog-1" "scan_command" with_dog).0
reached-IsConsistent_example =
    reached-IsConsistent by_table "__initial__" []
      (trigger by_table starts 2 "dog-1" "scan_command" with_dog).0 by_table-IsStateMachine
      dog-IsReached
