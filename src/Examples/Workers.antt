-- ===== src/Examples/Workers.antt =====
-- Two machines, a queue of two tasks, and what a mission of theirs consists of.
use hmta_service.Prelude.{none, some, true, false, [], ℕ, String, List, ◌∷◌}
use hmta_service.Behaviours.{Datum, Blackboard, Task}
use hmta_service.Behaviours.EntityWorker.Runs.{Team}
use hmta_service.Command.{EntityInfo, Translators}
use hmta_service.Behaviours.SupervisedFallback.{Clocks}
use hmta_service.Behaviours.EntityWorker.{
  idle, WorkerWorld, human_fallback_timeout_sec, CommandParams, EntityWorker,
}
use hmta_service.Examples.Gates.{search as blank_task, board}
use hmta_service.Behaviours.EntityWorker.Ticks.{update}

abbrev pub patrol : Task
patrol = record blank_task {
  id = "a";
  entity = "dog-1";
  status = "pending";
  intent = "patrol";
  params = [];
}

abbrev pub zone_scan : Task
zone_scan = record blank_task {
  id = "b";
  entity = "dog-1";
  status = "pending";
  intent = "scan";
  priority = "critical";
  depends_on = "a" ∷ [];
  required_capabilities = "navigation" ∷ "scan" ∷ [];
}

abbrev pub dog : EntityWorker
dog = record {
  entity_id = "dog-1";
  human_supervisor_id = "op-1";
  fallback_timeout = human_fallback_timeout_sec;
  work_stealing_enabled = true;
  has_resolver = true;
  has_zenoh = true;
  phase = idle;
  current_task = none;
  command_id = none;
  fallback_start = 0;
  exec_start = 0;
  exec_steps = [];
  step_index = 0;
  transition_log = [];
}

abbrev pub drone : EntityWorker
drone = record dog { entity_id = "drone-1" }

abbrev pub machine : String → EntityInfo
machine id = record {
  is_blank = false;
  entity_id = id;
  entity_type = some "robot";
  status = some "online";
  comm_status = none;
  capabilities = none;
  structured_capabilities = none;
  structured_capabilities_camel = none;
}

abbrev pub worker_translators : Translators CommandParams String
worker_translators = record {
  resolve_alias = λ intent. intent;
  robot = λ command entity. some command.intent;
  is_invalid_target = λ payload. false;
  detection = λ command. some none;
  human = λ command entity. some command.intent;
}

abbrev pub mission : List Task → WorkerWorld String
mission queue = record {
  bb = record board { values = []; plain = []; mission_goal = none; task_queue = queue };
  resolver = record {
    schema = ("dog-1", machine "dog-1") ∷ ("drone-1", machine "drone-1") ∷ [];
    capabilities =
        ("dog-1", "patrol" ∷ "scan" ∷ "navigation" ∷ [])
        ∷ ("drone-1", "scan" ∷ "navigation" ∷ [])
        ∷ [];
    commands = [];
    directive_task_map = ("d1", "b") ∷ [];
    published = [];
  };
  events = [];
}

abbrev pub clocks_at : ℕ → String → Clocks
clocks_at now id = record { input = record { now = now; fresh_id = id }; wall = now }

abbrev pub zone_as_is : Blackboard → Datum → Datum
zone_as_is bb d = d

abbrev pub near : String → Blackboard → Task → ℕ
near entity bb t = 5

abbrev pub team : Team String
team = record { workers = dog ∷ drone ∷ []; world = mission (patrol ∷ zone_scan ∷ []) }

abbrev pub tick_dog : Clocks → Team String → EntityWorker → List EntityWorker → Team String
tick_dog c a w ws =
    let (status, w', s') = update worker_translators zone_as_is near c w a.world in
    record { workers = w' ∷ ws; world = s' }

abbrev pub later_team : Team String
later_team = tick_dog (clocks_at 10 "c1") team dog (drone ∷ [])
