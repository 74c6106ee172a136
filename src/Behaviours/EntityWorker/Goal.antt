-- ===== src/Behaviours/EntityWorker/Goal.antt =====
-- What the worker reads of the mission on the blackboard, and the conditions and effects of tasks.
use hmta_service.Prelude.{
  ℕ, String, Option, none, some, Bool, true, false, not, ◌&&◌, ◌||◌, List, [], ◌∷◌, ◌==◌, any, all,
}
use hmta_service.Prelude.Dict.{put}
use hmta_service.Command.Status.{or_default}
use hmta_service.Behaviours.{
  number, word, Value, flag, details, value_eq, is_truthy, Condition, MissionGoal, Effect, Task,
  Blackboard, bb_get, bb_set,
}
use hmta_service.Behaviours.GoalGate.{confirmed_key}
use hmta_service.Behaviours.EntityWorker.{EntityWorker}

abbrev pub well_known_detection_keys : List String
well_known_detection_keys =
    "bomb_detected" ∷ "target_found" ∷ "person_found" ∷ "threat_detected" ∷ []

abbrev well_known : Blackboard → Bool
well_known bb = any (λ key. is_truthy (bb_get bb key)) well_known_detection_keys

abbrev is_value : Option Value → Value → Bool
is_value none v = false
is_value (some actual) v = value_eq actual v

-- The goal's condition, read off the blackboard; a condition without a key never holds.
abbrev holds : Option Condition → Blackboard → Bool
holds none bb = false
holds (some cond) bb = not (cond.key == "") && is_value (bb_get bb cond.key) cond.expected

abbrev asks : MissionGoal → Bool
asks goal = or_default goal.requires_confirmation false

abbrev met : Option MissionGoal → Blackboard → Bool
met none bb = well_known bb
met (some goal) bb = not (asks goal) && holds goal.success_condition bb

-- `_is_mission_goal_met`
unfoldable pub is_mission_goal_met : Blackboard → Bool
is_mission_goal_met bb = is_truthy (bb_get bb confirmed_key) || met bb.mission_goal bb

abbrev detected : Option MissionGoal → Blackboard → Bool
detected none bb = well_known bb
detected (some goal) bb = asks goal && holds goal.success_condition bb

-- `_is_detection_active`
unfoldable pub is_detection_active : Blackboard → Bool
is_detection_active bb = not (is_truthy (bb_get bb confirmed_key)) && detected bb.mission_goal bb

-- A missing value counts as false, and a dictionary as true.
abbrev plain_value : Option Value → Value
plain_value none = flag false
plain_value (some (details d)) = flag true
plain_value (some v) = v

abbrev equals : Value → Option Value → Bool
equals actual none = false
equals actual (some expected) = value_eq actual expected

-- `_check_preconditions`
unfoldable pub check_preconditions : Blackboard → Task → Bool
check_preconditions bb t =
    all (λ pc. equals (plain_value (bb_get bb pc.key)) pc.expect) t.preconditions

abbrev signed : String → ℕ → Value → Value
signed entity now (details d) =
    details (put "timestamp" (number now) (put "entity_id" (word entity) d))
signed entity now v = v

unfoldable pub write_effects : String → ℕ → List Effect → Blackboard → Blackboard
write_effects entity now [] bb = bb
write_effects entity now (e ∷ es) bb =
    write_effects entity now es (bb_set e.key (signed entity now e.value) bb)

-- `_write_task_effects`
unfoldable pub write_task_effects : ℕ → EntityWorker → Task → Blackboard → Blackboard
unfolding write_effects
write_task_effects wall w t bb = write_effects w.entity_id wall t.effects bb
