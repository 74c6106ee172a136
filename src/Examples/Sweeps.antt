-- ===== src/Examples/Sweeps.antt =====
-- A robot dog that sweeps a zone of two waypoints: tests, and the theorems at concrete inputs.
use hmta_service.Prelude.{
  nat_eq, all, if◌then◌else◌, none, some, true, false, [], ℕ, String, Option, List, ◌∷◌, ◌≡◌, refl,
  arith,
}
use hmta_service.Behaviours.CommandAction.Sweep.{
  publish_scan_grid, dispatch_sweep_navigate, poll_sweep,
}
use hmta_service.Command.Resolver.{dispatch, has_capability, resolve, intent_lower}
use hmta_service.Behaviours.CommandAction.{
  resolving, sweeping, Cell, Ticking, ScanPlan, ActionWorld, CommandAction,
}
use hmta_service.Command.{robot_command, Translators}
use hmta_service.Behaviours.CommandAction.Ends.{run_sweep, Moment}
use hmta_service.Behaviours.CommandAction.Starts.{
  initialise, unusable, is_done, start_leaf, Resolution, skip_zone, enter_sweep,
}
use hmta_service.Behaviours.CommandAction.Ticks.{update}
use hmta_service.Behaviours.{is_truthy, text, count, value, success, Datum}
use hmta_service.Prelude.Dict.{lookup, Dict}
use hmta_service.Examples.Gates.{board}
use hmta_service.Behaviours.CommandAction.Sweeps.{sweep_ends}
use hmta_service.Examples.Workers.{machine}
use hmta_service.Behaviours.CommandAction.Skips.{swept_zone_is_skipped}
use hmta_service.Behaviours.CommandAction.Zones.{update_zone_coverage}
use hmta_service.Command.Status.{get_status}
use hmta_service.Prelude.Text.{concat}

abbrev cell : ℕ → Cell
cell n = record { row = 0; col = n; cx = n; cy = 0; scanned = false }

abbrev plan : ScanPlan
plan = record {
  scan_waypoints = (("x", count 0) ∷ []) ∷ (("x", count 10) ∷ []) ∷ [];
  grid_cells = cell 0 ∷ cell 10 ∷ [];
}

abbrev scanner : CommandAction
scanner = record {
  intent = "Robot.SCAN";
  entity_id = "dog-1";
  short_id = "ab12";
  params = ("zone_id", value (text "yard")) ∷ [];
  has_resolver = true;
  has_bridge = true;
  command_id = none;
  state = resolving;
  wait_start = 0;
  exec_start = 0;
  pending_human = [];
  sweep_waypoints = [];
  sweep_index = 0;
  sweep_grid_cells = [];
  sweep_last_pub = 0;
}

abbrev site : ActionWorld (Dict Datum) String
site = record {
  bb = board;
  scan_plans = ("yard", plan) ∷ [];
  answers = [];
  resolver = record {
    schema = ("dog-1", machine "dog-1") ∷ [];
    capabilities = ("dog-1", "navigation" ∷ "scan" ∷ []) ∷ [];
    commands = [];
    directive_task_map = [];
    published = [];
  };
  reports = [];
}

abbrev at : ℕ → Ticking
at n = record { now = n; fresh_id = λ i. if nat_eq i 0 then "first" else "second" }

abbrev zones : List String
zones = "yard" ∷ []

abbrev effects : String → List String
effects intent = "zone_scanned" ∷ []

abbrev translators : Translators (Dict Datum) String
translators = record {
  resolve_alias = λ intent. intent;
  robot = λ command entity. some command.intent;
  is_invalid_target = λ payload. false;
  detection = λ command. some none;
  human = λ command entity. some command.intent;
}

abbrev as_is : Dict Datum → Dict Datum
as_is params = params

abbrev no_number : Datum → Option ℕ
no_number d = none

abbrev moment : ℕ → Moment (Dict Datum) String
moment n = record { clock = at n; inside = λ x. false; change = λ w. w }

abbrev unusable_params : CommandAction → ActionWorld (Dict Datum) String → Resolution
unusable_params a w = unusable

abbrev entered : CommandAction × ActionWorld (Dict Datum) String
entered = initialise translators zones effects as_is no_number (at 100) unusable_params scanner site

-- The sweep begins with a drive to the first waypoint.
entered_sends : entered.1.resolver.published ≡ (robot_command, "dog-1", "navigation") ∷ []
unfolding initialise start_leaf is_done enter_sweep dispatch_sweep_navigate publish_scan_grid
    update_zone_coverage lookup is_truthy concat resolve has_capability dispatch
entered_sends = refl

-- The last waypoint's command is never answered: the sweep gives it up, and succeeds.
abbrev last_stop : CommandAction
last_stop = record scanner {
  state = sweeping;
  sweep_waypoints = plan.scan_waypoints;
  sweep_index = 1;
  sweep_grid_cells = plan.grid_cells;
  command_id = some "second";
  exec_start = 100;
}

last_stop_succeeds :
    (poll_sweep translators zones effects as_is (at 200) (λ x. false) last_stop site).0 ≡ success
unfolding poll_sweep get_status lookup
last_stop_succeeds = refl

abbrev moments : List (Moment (Dict Datum) String)
moments = moment 150 ∷ moment 200 ∷ moment 250 ∷ moment 300 ∷ moment 350 ∷ []

sweep_ends_example :
    let (a, w) = enter_sweep translators zones effects as_is no_number (at 100) plan scanner site in
    (run_sweep translators zones effects as_is moments a w).0 ≡ success
sweep_ends_example =
    sweep_ends translators zones effects as_is no_number (at 100) 50 plan scanner site moments refl
      (
        omega arith,
        (
          omega arith,
          (
            omega arith,
            (
              omega arith,
              (
                omega arith,
                (omega arith, (omega arith, (omega arith, (omega arith, (omega arith, tt))))),
              ),
            ),
          ),
        ),
      )
      (omega arith)

swept_zone_is_skipped_example :
    let (_, a, w) =
      poll_sweep translators zones effects as_is (at 200) (λ x. false) last_stop site in
    let again = skip_zone translators zones effects as_is no_number (at 300) a in
    (all (λ x. x.scanned) a.sweep_grid_cells ≡ true)
    × ((initialise translators zones effects as_is no_number (at 300) unusable_params a w
          ≡ (again, w))
        × (update translators zones effects as_is no_number (at 300) (λ x. false) again w
            ≡ (success, again, w)))
unfolding intent_lower lookup
swept_zone_is_skipped_example =
    swept_zone_is_skipped translators zones effects as_is no_number (at 200) (at 300) (λ x. false)
      (λ x. false) unusable_params last_stop site refl refl refl last_stop_succeeds
