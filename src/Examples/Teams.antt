-- ===== src/Examples/Teams.antt =====
-- Two machines on one queue, and a human who answers: tests, and the theorems at concrete inputs.
use hmta_service.Prelude.{arith, ne_of_==, none, some, inl, true, [], refl, String, ◌≡◌, ◌∷◌}
use hmta_service.Behaviours.{bb_get, Task}
use hmta_service.Behaviours.EntityWorker.Runs.{
  run_keeps_ended, start, next, waiting-IsOrdered, run-IsTeam, IsTeam, Team, Tick,
}
use hmta_service.Behaviours.EntityWorker.{initialise, human_fallback, EntityWorker}
use hmta_service.Behaviours.EntityWorker.Ticks.{begin, handle_idle}
use hmta_service.Behaviours.EntityWorker.Queue.{pick_next_task, task_of, consider, scan, find_task}
use hmta_service.Behaviours.EntityWorker.Ticks.{update}
use hmta_service.Behaviours.EntityWorker.Goal.{is_mission_goal_met, is_detection_active}
use hmta_service.Behaviours.{is_truthy}
use hmta_service.Prelude.Dict.{lookup}
use hmta_service.Behaviours.EntityWorker.Queue.{deps_ok}
use hmta_service.Behaviours.EntityWorker.Goal.{check_preconditions}
use hmta_service.Command.Resolver.{resolve}
use hmta_service.Command.Resolver.{has_capability}
use hmta_service.Command.Resolver.{dispatch}
use hmta_service.Command.Resolver.{intent_lower}
use hmta_service.Behaviours.EntityWorker.Steps.{step_command}
use hmta_service.Behaviours.EntityWorker.Deadlines.{answer_overdue, update-Leaves, Leaves}
use hmta_service.Responses.{handle_response, resolve_task_id, HumanResponse}
use hmta_service.Behaviours.EntityWorker.Log.{update-IsShort, IsShort}
use hmta_service.Behaviours.EntityWorker.Picks.{Ready}
use hmta_service.Behaviours.EntityWorker.Starts.{pick_next_task_lem}
use hmta_service.Responses.Workers.{answer_reaches_worker, served, IsServed}
use hmta_service.Responses.{apply_to_task_queue, apply_option}
use hmta_service.Command.Status.{update_status}
use hmta_service.Examples.Workers.{
  patrol, zone_scan, dog, drone, worker_translators, mission, clocks_at, zone_as_is, near, team,
  tick_dog, later_team,
}

team-IsTeam : IsTeam team
team-IsTeam = record {
  apart = (refl, (refl, tt));
  unique = (refl, (refl, tt));
  each = (inl refl, (inl refl, tt));
  ordered =
      waiting-IsOrdered (patrol ∷ zone_scan ∷ [])
        (ne_of_== "pending" "executing" refl, (ne_of_== "pending" "executing" refl, tt));
}

first-Tick : Tick worker_translators zone_as_is near team later_team
first-Tick = record {
  before = [];
  ticking = dog;
  after = drone ∷ [];
  clocks = clocks_at 10 "c1";
  from = refl;
  to = refl;
  world = refl;
}

-- The first machine starts the patrol; the scan has to wait for it.
starts_patrol :
    (find_task later_team.world.bb.task_queue "a"
      ≡ some (record patrol { status = "executing"; started_at = some 10 }))
    × (find_task later_team.world.bb.task_queue "b" ≡ some zone_scan)
unfolding update handle_idle find_task is_detection_active bb_get is_mission_goal_met scan consider
    task_of begin is_truthy lookup deps_ok check_preconditions resolve has_capability dispatch
    intent_lower step_command
starts_patrol = (refl, refl)

run-IsTeam_example : IsTeam later_team
run-IsTeam_example =
    run-IsTeam worker_translators zone_as_is near team later_team team-IsTeam
      (next start first-Tick)

abbrev patrolled : Task
patrolled = record patrol { status = "completed" }

abbrev second_team : Team String
second_team = record { workers = dog ∷ drone ∷ []; world = mission (patrolled ∷ zone_scan ∷ []) }

abbrev later_second : Team String
later_second = tick_dog (clocks_at 20 "c2") second_team dog (drone ∷ [])

run_keeps_ended_example : find_task later_second.world.bb.task_queue "a" ≡ some patrolled
unfolding find_task
run_keeps_ended_example =
    run_keeps_ended worker_translators zone_as_is near second_team later_second "a" patrolled
      (record {
        apart = (refl, (refl, tt));
        unique = (refl, (refl, tt));
        each = (inl refl, (inl refl, tt));
        ordered =
            waiting-IsOrdered (patrolled ∷ zone_scan ∷ [])
              (ne_of_== "completed" "executing" refl, (ne_of_== "pending" "executing" refl, tt));
      })
      (next start (record {
        before = [];
        ticking = dog;
        after = drone ∷ [];
        clocks = clocks_at 20 "c2";
        from = refl;
        to = refl;
        world = refl;
      }))
      refl refl

-- The patrol has ended, so the scan may be picked; its priority would not matter here.
pick_next_task_lem_example :
    Ready "dog-1" (pick_next_task near 20 dog second_team.world).2.bb zone_scan
unfolding pick_next_task is_mission_goal_met bb_get is_truthy lookup scan consider find_task deps_ok
    check_preconditions
pick_next_task_lem_example =
    pick_next_task_lem near 20 dog second_team.world zone_scan (refl, (refl, tt)) refl

abbrev waiting : EntityWorker
waiting = record dog {
  phase = human_fallback;
  current_task = some zone_scan;
  command_id = some "d1";
  fallback_start = 100;
}

abbrev executing_scan : Task
executing_scan = record zone_scan { status = "executing"; started_at = some 40 }

update-Leaves_example :
    Leaves waiting
      (update worker_translators zone_as_is near
        (clocks_at 300 "c3")
        waiting
        (mission (executing_scan ∷ []))).1
update-Leaves_example =
    update-Leaves worker_translators zone_as_is near (clocks_at 300 "c3") waiting
      (mission (executing_scan ∷ [])) (answer_overdue refl (omega arith))

update-IsShort_example :
    IsShort
      (update worker_translators zone_as_is near
        (clocks_at 300 "c3")
        waiting
        (mission (executing_scan ∷ []))).1
    × IsShort (initialise 300 waiting)
update-IsShort_example =
    update-IsShort worker_translators zone_as_is near (clocks_at 300 "c3") 300 waiting
      (mission (executing_scan ∷ [])) (omega arith)

abbrev skips_it : HumanResponse
skips_it = record {
  response_id = "d1";
  selected_option = "skip";
  reason = none;
  conditions = none;
  waypoints = [];
  response_data = [];
}

answer_reaches_worker_example : IsServed true "b" executing_scan (
    served (
      update worker_translators zone_as_is near
        (clocks_at 120 "c4")
        waiting
        (record (mission (executing_scan ∷ [])) {
          bb =
              (handle_response skips_it
                (mission (executing_scan ∷ [])).bb
                (mission (executing_scan ∷ [])).resolver).0;
          resolver =
              (handle_response skips_it
                (mission (executing_scan ∷ [])).bb
                (mission (executing_scan ∷ [])).resolver).1;
        })))
unfolding resolve_task_id lookup find_task handle_response is_detection_active bb_get is_truthy
    apply_to_task_queue update_status apply_option
answer_reaches_worker_example =
    answer_reaches_worker worker_translators zone_as_is near (clocks_at 120 "c4") skips_it waiting
      (mission (executing_scan ∷ [])) zone_scan executing_scan refl refl (ne_of_== "b" "" refl) refl
      refl refl
