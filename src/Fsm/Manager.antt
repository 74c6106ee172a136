-- ===== src/Fsm/Manager.antt =====
-- app/execution/fsm/fsm_manager.py: the instances, their events, and the history.
use hmta_service.Prelude.{
  ℕ, String, Option, none, some, Bool, true, false, List, [], ◌∷◌, ◌++◌, ◌==◌, elem, filter,
  if◌then◌else◌,
}
use hmta_service.Prelude.Dict.{Dict, lookup, has, put}
use hmta_service.Prelude.Text.{concat}
use hmta_service.Fsm.{Machine, robot_fsm, human_fsm}

pub record Instance : Type 0 where
  pub machine : Machine
  pub state : String

pub record Entry : Type 0 where
  pub entity_id : String
  pub to : String
  pub trigger : String
  pub timestamp : ℕ

-- The manager, and the states that it has written to the blackboard.
pub record FsmManager : Type 0 where
  pub instances : Dict Instance
  pub history : List Entry
  pub bb_writable : List String
  pub bb_attempted : List String
  pub bb : Dict String

-- `_on_state_change`
unfoldable pub on_state_change : ℕ → String → String → String → FsmManager → FsmManager
on_state_change now entity_id new_state event m = record m {
  history =
      m.history
      ++ record { entity_id = entity_id; to = new_state; trigger = event; timestamp = now } ∷ [];
}

-- The entries that a new machine's own start makes: `initial_events` are the events with which the
-- library enters the initial state.
abbrev pub enter_initial : ℕ → String → String → List String → FsmManager → FsmManager
enter_initial now entity_id state [] m = m
enter_initial now entity_id state (event ∷ events) m =
    enter_initial now entity_id state events (on_state_change now entity_id state event m)

abbrev pub machine_of : String → Option Machine
machine_of entity_type =
    if entity_type == "robot"
    then some robot_fsm
    else if entity_type == "human"
    then some human_fsm
    else none

unfoldable pub get_state : FsmManager → String → Option String
get_state m entity_id = elim (lookup entity_id m.instances) [
  | none ↦ none
  | some fsm ↦ some fsm.state
]

unfoldable pub clear_instances : FsmManager → FsmManager
clear_instances m = record m { instances = [] }

unfoldable pub get_transition_history : Option String → FsmManager → List Entry
get_transition_history none m = m.history
get_transition_history (some entity_id) m =
    if entity_id == "" then m.history else filter (λ entry. entry.entity_id == entity_id) m.history

abbrev pub set_instance : String → Instance → FsmManager → FsmManager
set_instance entity_id fsm m = record m { instances = put entity_id fsm m.instances }

abbrev pub fsm_key : String → String
fsm_key entity_id = concat "entities/" (concat entity_id "/fsm_state")

-- `register_key` may refuse a key that another client writes.
abbrev pub sync_one : (String → Bool) → String → Instance → FsmManager → FsmManager
sync_one can_register entity_id fsm m =
    let key = fsm_key entity_id in
    let m' : FsmManager = if elem key m.bb_attempted then m else record m {
      bb_attempted = key ∷ m.bb_attempted;
      bb_writable = if can_register key then key ∷ m.bb_writable else m.bb_writable;
    } in
    if elem key m'.bb_writable then record m' { bb = put key fsm.state m'.bb } else m'

abbrev pub sync_all : (String → Bool) → Dict Instance → FsmManager → FsmManager
sync_all can_register [] m = m
sync_all can_register ((entity_id, fsm) ∷ rest) m =
    sync_all can_register rest (sync_one can_register entity_id fsm m)

unfoldable pub sync_to_blackboard : (String → Bool) → FsmManager → FsmManager
sync_to_blackboard can_register m = sync_all can_register m.instances m

module _ (send : Machine → String → String → Option String) (initial_events : List String) where
  abbrev pub create_machine : ℕ → String → Option Machine → FsmManager → FsmManager
  create_machine now entity_id none m = m
  create_machine now entity_id (some machine) m =
      set_instance entity_id (record { machine = machine; state = machine.initial })
        (enter_initial now entity_id machine.initial initial_events m)

  unfoldable pub create_instance : ℕ → String → String → FsmManager → FsmManager
  create_instance now entity_id entity_type m =
      if has entity_id m.instances
      then m
      else create_machine now entity_id (machine_of entity_type) m

  unfoldable pub load_definitions : ℕ → List (String × String) → FsmManager → FsmManager
  unfolding create_instance
  load_definitions now [] m = m
  load_definitions now ((entity_id, entity_type) ∷ rest) m =
      load_definitions now rest (create_instance now entity_id entity_type m)

  abbrev pub fire : ℕ → String → String → Instance → Option String → FsmManager → FsmManager × Bool
  fire now entity_id event fsm none m = (m, false)
  fire now entity_id event fsm (some target) m = (
    set_instance entity_id (record fsm { state = target })
        (on_state_change now entity_id target event m),
    true,
  )

  unfoldable pub trigger : ℕ → String → String → FsmManager → FsmManager × Bool
  trigger now entity_id event m = elim (lookup entity_id m.instances) [
    | none ↦ (m, false)
    | some fsm ↦ fire now entity_id event fsm (send fsm.machine fsm.state event) m
  ]
