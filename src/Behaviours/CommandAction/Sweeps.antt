-- ===== src/Behaviours/CommandAction/Sweeps.antt =====
-- A sweep from its start to its end.
use hmta_service.Prelude.{◌+◌, false, Option, ℕ, String, List, none, ◌≡◌, ◌<◌, arith, length}
use hmta_service.Command.{Translators}
use hmta_service.Behaviours.{success, Datum, Dict}
use hmta_service.Behaviours.CommandAction.{ActionWorld, CommandAction, ScanPlan, Ticking}
use hmta_service.Behaviours.CommandAction.Starts.{sweep_of, enter_sweep}
use hmta_service.Behaviours.CommandAction.Sweep.{
  dispatch_sweep, publish_scan_grid, dispatch_sweep_navigate,
}
use hmta_service.Behaviours.CommandAction.Ends.{
  allowance, times, run_sweep-success, dispatch_sweep-Forward, run_sweep, Moment,
}
use hmta_service.Behaviours.CommandAction.Zones.{update_zone_coverage}
use hmta_service.Behaviours.Pace.{last_tick, AreTicks}

module _ {Params Payload : Type 0} (tx : Translators Params Payload) (zone_ids : List String)
    (get_effects : String → List String) (pack : Dict Datum → Params) (to_number : Datum → Option ℕ)
    (c : Ticking) where
  -- A sweep that a leaf without a command begins will end in success, however its commands fare and
  -- whatever else happens between two ticks. It has done so before the first tick later than its
  -- time: for each waypoint of the plan and once more, 30 units and the greatest gap between two
  -- ticks. That holds at any rate of ticks.
  pub sweep_ends :
      (gap : ℕ) (plan : ScanPlan) (a : CommandAction) (w : ActionWorld Params Payload)
      (ms : List (Moment Params Payload))
      → a.command_id ≡ none
      → AreTicks gap c.now (times ms)
      → c.now + allowance gap (length plan.scan_waypoints) < last_tick c.now (times ms)
      → let (a', w') = enter_sweep tx zone_ids get_effects pack to_number c plan a w in
        (run_sweep tx zone_ids get_effects pack ms a' w').0 ≡ success
  unfolding enter_sweep dispatch_sweep_navigate
  sweep_ends gap plan a w ms fresh paced long =
      let a1 = sweep_of tx zone_ids get_effects pack to_number c plan a in
      let w1 =
        publish_scan_grid tx zone_ids get_effects pack c false a1
          (update_zone_coverage zone_ids c.now "scanning" a1 w) in
      let (wps, (further, sweep)) =
        dispatch_sweep-Forward tx zone_ids get_effects pack c plan.scan_waypoints a1 w1 fresh
          (omega arith) in
      let (a', w') = dispatch_sweep tx zone_ids get_effects pack c plan.scan_waypoints a1 w1 in
      run_sweep-success tx zone_ids get_effects pack (length plan.scan_waypoints) gap c.now c.now ms
        a' w' sweep (omega arith) (omega arith) paced (rw wps (omega arith)) long
