-- ===== src/Behaviours/CommandAction/Sweep.antt =====
-- The sweep of a zone: one command for each waypoint, and the cells that are scanned on the way.
use hmta_service.Prelude.{
  filter, length, ltb, leb, drop, any, map, not, none, some, true, false, [], ℕ, String, Option,
  Bool, List, zero, suc, ◌&&◌, ◌+◌, ◌-◌, ◌∷◌, if◌then◌else◌,
}
use hmta_service.Behaviours.CommandAction.{
  sweep_timeout_sec, scan_grid, ActionWorld, CommandAction, Ticking, Datum, Dict, Waypoint, Cell,
}
use hmta_service.Command.{
  CommandState, AbstractCommand, CommandResolver, ResolveResult, Translators, refused, resolved,
}
use hmta_service.Command.CommandState.{completed, failed}
use hmta_service.Behaviours.CommandAction.Zones.{
  result_zone, no_bomb, zone_key, report, write_effects, update_zone_coverage,
}
use hmta_service.Behaviours.{lookup, value, fields, text, running, success, plain_set, Status}
use hmta_service.Command.Resolver.{resolve}
use hmta_service.Command.Status.{or_default, get_status, cancel}
use hmta_service.Prelude.Text.{concat}

abbrev pub scan_cell : Cell → Cell
scan_cell cell = record cell { scanned = true }

abbrev pub scan_all : List Cell → List Cell
scan_all = map scan_cell

-- The cell at an index, if there is one.
abbrev pub scan_at : ℕ → List Cell → List Cell
scan_at i [] = []
scan_at zero (c ∷ cs) = scan_cell c ∷ cs
scan_at (suc i) (c ∷ cs) = c ∷ scan_at i cs

abbrev pub enter : (Cell → Bool) → Cell → Cell
enter inside cell = if not cell.scanned && inside cell then scan_cell cell else cell

abbrev pub newly : (Cell → Bool) → Cell → Bool
newly inside cell = not cell.scanned && inside cell

-- Where a waypoint's command goes to, and how fast.
abbrev pub sweep_params : Waypoint → Dict Datum → Dict Datum
sweep_params wp params =
    ("end", fields wp) ∷ ("speed", or_default (lookup "speed" params) (value (text "120"))) ∷ []

module _ {Params Payload : Type 0} (tx : Translators Params Payload) (zone_ids : List String)
    (get_effects : String → List String) (pack : Dict Datum → Params) (c : Ticking) where
  -- `_publish_scan_grid`
  unfoldable pub publish_scan_grid :
      Bool → CommandAction → ActionWorld Params Payload → ActionWorld Params Payload
  publish_scan_grid delta_only a w =
      let cells = a.sweep_grid_cells in
      report zone_ids a
        (scan_grid delta_only (if delta_only then filter (λ x. x.scanned) cells else cells)) w

  -- `_check_position_cells`; `inside` says which cells the robot's position is in.
  unfoldable pub check_position_cells :
      (Cell → Bool)
      → CommandAction
      → ActionWorld Params Payload
      → CommandAction × ActionWorld Params Payload
  unfolding publish_scan_grid
  check_position_cells inside a w =
      let a1 : CommandAction = record a {
        sweep_grid_cells = map (enter inside) a.sweep_grid_cells;
      } in
      if any (newly inside) a.sweep_grid_cells && ltb 0 (c.now - a.sweep_last_pub)
      then (
        record a1 { sweep_last_pub = c.now },
        publish_scan_grid true (record a1 { sweep_last_pub = c.now }) w,
      )
      else (a1, w)

  abbrev pub sweep_command : Waypoint → CommandAction → AbstractCommand Params
  sweep_command wp a = record {
    command_id = c.fresh_id a.sweep_index;
    intent = "navigation";
    entity_id = a.entity_id;
    params = pack (sweep_params wp a.params);
    node_id = concat "py-" a.short_id;
  }

  -- What the resolver says of a waypoint; `go` tries the next one.
  abbrev pub tried :
      (CommandAction → ActionWorld Params Payload → CommandAction × ActionWorld Params Payload)
      → CommandAction
      → ActionWorld Params Payload
      → CommandResolver Params Payload × ResolveResult
      → CommandAction × ActionWorld Params Payload
  tried go a w (r, refused e) =
      go (record a { sweep_index = a.sweep_index + 1 }) (record w { resolver = r })
  tried go a w (r, resolved id) =
      (record a { command_id = some id; exec_start = c.now }, record w { resolver = r })

  -- `_dispatch_sweep_navigate`: the waypoints that are left, from the current one on; one that the
  -- resolver refuses is passed over.
  unfoldable pub dispatch_sweep :
      List Waypoint
      → CommandAction
      → ActionWorld Params Payload
      → CommandAction × ActionWorld Params Payload
  dispatch_sweep [] a w = (a, w)
  dispatch_sweep (wp ∷ rest) a w =
      tried (dispatch_sweep rest) a w (resolve tx (sweep_command wp a) w.resolver)

  unfoldable pub dispatch_sweep_navigate :
      CommandAction → ActionWorld Params Payload → CommandAction × ActionWorld Params Payload
  unfolding dispatch_sweep
  dispatch_sweep_navigate a w = dispatch_sweep (drop a.sweep_index a.sweep_waypoints) a w

  -- `_finish_sweep`
  unfoldable pub finish_sweep :
      CommandAction
      → ActionWorld Params Payload
      → Status × CommandAction × ActionWorld Params Payload
  unfolding update_zone_coverage publish_scan_grid write_effects
  finish_sweep a w =
      let a1 : CommandAction = record a { sweep_grid_cells = scan_all a.sweep_grid_cells } in
      let w1 =
        write_effects zone_ids get_effects c.now a1
          (publish_scan_grid false a1 (update_zone_coverage zone_ids c.now "scanned" a1 w)) in
      (
        success,
        a1,
        record w1 {
          bb = no_bomb (plain_set (zone_key (result_zone a) "scan_result") (text "clear") w1.bb);
        },
      )

  -- The sweep goes on, at the waypoint that the leaf has got to.
  unfoldable pub go_on :
      CommandAction
      → ActionWorld Params Payload
      → Status × CommandAction × ActionWorld Params Payload
  unfolding finish_sweep dispatch_sweep_navigate
  go_on a w =
      if leb (length a.sweep_waypoints) a.sweep_index
      then finish_sweep a w
      else (let (a', w') = dispatch_sweep_navigate (record a { command_id = none }) w in
          (running, a', w'))

  abbrev pub advance : CommandAction → CommandAction
  advance a = record a { sweep_index = a.sweep_index + 1 }

  abbrev pub skip : CommandAction → CommandAction
  skip a = record a { sweep_index = a.sweep_index + 1; command_id = none }

  unfoldable pub in_state :
      CommandState
      → String
      → CommandAction
      → ActionWorld Params Payload
      → Status × CommandAction × ActionWorld Params Payload
  unfolding go_on publish_scan_grid
  in_state completed id a w =
      let a1 : CommandAction = record (advance a) {
        sweep_grid_cells = scan_at a.sweep_index a.sweep_grid_cells;
      } in
      go_on a1 (publish_scan_grid true a1 w)
  in_state failed id a w = go_on (skip a) w
  in_state _ id a w =
      if ltb sweep_timeout_sec (c.now - a.exec_start)
      then go_on (skip a) (record w { resolver = cancel id w.resolver })
      else (running, a, w)

  unfoldable pub poll_waypoint :
      String
      → CommandAction
      → ActionWorld Params Payload
      → Status × CommandAction × ActionWorld Params Payload
  unfolding in_state
  poll_waypoint id a w = in_state (get_status w.resolver id).state id a w

  abbrev pub at_command :
      Option String
      → CommandAction
      → ActionWorld Params Payload
      → Status × CommandAction × ActionWorld Params Payload
  at_command none a w = go_on a w
  at_command (some id) a w = poll_waypoint id a w

  -- `_poll_sweep`
  unfoldable pub poll_sweep :
      (Cell → Bool)
      → CommandAction
      → ActionWorld Params Payload
      → Status × CommandAction × ActionWorld Params Payload
  unfolding check_position_cells poll_waypoint go_on
  poll_sweep inside a w =
      let (a', w') = check_position_cells inside a w in at_command a.command_id a' w'
