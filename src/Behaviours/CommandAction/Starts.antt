-- ===== src/Behaviours/CommandAction/Starts.antt =====
-- How the leaf starts: it skips its zone, sweeps it, or sends its command.
use hmta_service.Prelude.{
  ◌||◌, ℕ, String, Option, none, some, Bool, false, List, ◌∷◌, ◌==◌, ◌&&◌, ltb, elem, length, not,
  if◌then◌else◌,
}
use hmta_service.Behaviours.{remove, path, put, Waypoint, lookup, Datum}
use hmta_service.Command.{Translators, refused, resolved}
use hmta_service.Behaviours.CommandAction.{
  param_request, sweeping, waiting_params, error, executing, ScanPlan, Ticking, navigation_intents,
  scan_intents, ActionWorld, CommandAction,
}
use hmta_service.Command.Resolver.{resolve, intent_lower}
use hmta_service.Prelude.Dict.{update_all, has, Dict}
use hmta_service.Behaviours.CommandAction.Zones.{
  report, is_cleared, is_set, update_zone_coverage, text_param,
}
use hmta_service.Behaviours.CommandAction.Sweep.{dispatch_sweep_navigate, publish_scan_grid}
use hmta_service.Prelude.Text.{concat}

-- What the parameter resolver says of a leaf's parameters.
pub data Resolution : Type 0 where
  unusable : Resolution
  incomplete : List String → Dict Datum → Resolution
  complete : Dict Datum → Resolution

abbrev pub skipped : String
skipped = "__skipped__"

abbrev pub is_navigation : CommandAction → Bool
is_navigation a = elem (intent_lower a.intent) navigation_intents

abbrev pub is_scan : CommandAction → Bool
is_scan a = elem (intent_lower a.intent) scan_intents

abbrev pub zone_id_of : CommandAction → String
zone_id_of a = text_param "zone_id" a.params

module _ {Params Payload : Type 0} where
  abbrev pub inject :
      Option (List Waypoint)
      → CommandAction
      → ActionWorld Params Payload
      → CommandAction × ActionWorld Params Payload
  inject (some (p ∷ ps)) a w =
      if a.intent == "follow_by_path" && not (has "waypoints" a.params)
      then (
        record a { params = put "waypoints" (path (p ∷ ps)) a.params },
        record w {
          bb = record (w.bb) { pending_waypoints = remove a.entity_id w.bb.pending_waypoints };
        },
      )
      else (a, w)
  inject _ a w = (a, w)

  -- A `follow_by_path` leaf takes the waypoints that the gate before it has left.
  abbrev pub inject_waypoints :
      CommandAction → ActionWorld Params Payload → CommandAction × ActionWorld Params Payload
  inject_waypoints a w = inject (lookup a.entity_id w.bb.pending_waypoints) a w

module _ {Params Payload : Type 0} (tx : Translators Params Payload) (zone_ids : List String)
    (get_effects : String → List String) (pack : Dict Datum → Params) (to_number : Datum → Option ℕ)
    (c : Ticking) where
  -- A navigation and a scan have a word each for the zone's coverage.
  unfoldable pub cover :
      String → String → CommandAction → ActionWorld Params Payload → ActionWorld Params Payload
  unfolding update_zone_coverage intent_lower
  cover moving scanning a w =
      if is_navigation a
      then update_zone_coverage zone_ids c.now moving a w
      else if is_scan a
      then update_zone_coverage zone_ids c.now scanning a w
      else w

  -- `_dispatch_command`
  unfoldable pub dispatch_command :
      CommandAction → ActionWorld Params Payload → CommandAction × ActionWorld Params Payload
  unfolding cover
  dispatch_command a w =
      let (r, result) =
        resolve tx
          (record {
            command_id = c.fresh_id 0;
            intent = a.intent;
            entity_id = a.entity_id;
            params = pack a.params;
            node_id = concat "py-" a.short_id;
          })
          w.resolver in
      elim result [
        | refused e ↦ (record a { state = error }, record w { resolver = r })
        | resolved id ↦
            (let a1 : CommandAction = record a {
              command_id = some id;
              state = executing;
              exec_start = c.now;
            } in
              (a1, cover "en_route" "scanning" a1 (record w { resolver = r })))
      ]

  abbrev pub skip_zone : CommandAction → CommandAction
  skip_zone a = record a { state = executing; command_id = some skipped }

  abbrev pub sweep_of : ScanPlan → CommandAction → CommandAction
  sweep_of plan a = record a {
    sweep_waypoints = plan.scan_waypoints;
    sweep_index = 0;
    sweep_grid_cells = plan.grid_cells;
    sweep_last_pub = 0;
    state = sweeping;
  }

  unfoldable pub enter_sweep :
      ScanPlan
      → CommandAction
      → ActionWorld Params Payload
      → CommandAction × ActionWorld Params Payload
  unfolding update_zone_coverage publish_scan_grid dispatch_sweep_navigate
  enter_sweep plan a w =
      let a1 = sweep_of plan a in
      dispatch_sweep_navigate tx zone_ids get_effects pack c a1 (
        publish_scan_grid tx zone_ids get_effects pack c false a1
          (update_zone_coverage zone_ids c.now "scanning" a1 w))

  unfoldable pub take_resolution :
      Resolution
      → CommandAction
      → ActionWorld Params Payload
      → CommandAction × ActionWorld Params Payload
  unfolding dispatch_command
  take_resolution unusable a w = (record a { state = error }, w)
  take_resolution (incomplete pending found) a w = (
    record a {
      pending_human = pending;
      state = waiting_params;
      wait_start = c.now;
      params = update_all a.params found;
    },
    report zone_ids a (param_request pending) w,
  )
  take_resolution (complete found) a w = dispatch_command (record a { params = found }) w

  -- The plan of a scan that has more than one waypoint.
  unfoldable pub sweep_plan : CommandAction → ActionWorld Params Payload → Option ScanPlan
  unfolding intent_lower
  sweep_plan a w =
      if is_scan a && not (zone_id_of a == "")
      then elim (lookup (zone_id_of a) w.scan_plans) [
        | none ↦ none
        | some plan ↦ if ltb 1 (length plan.scan_waypoints) then some plan else none
      ]
      else none

  -- A navigation to a zone that is cleared, or a scan of it, is not carried out.
  unfoldable pub is_done : CommandAction → ActionWorld Params Payload → Bool
  unfolding is_set intent_lower
  is_done a w =
      (is_navigation a || is_scan a) && not (zone_id_of a == "") && is_cleared w.bb (zone_id_of a)

  unfoldable pub start_leaf :
      (CommandAction → ActionWorld Params Payload → Resolution)
      → CommandAction
      → ActionWorld Params Payload
      → CommandAction × ActionWorld Params Payload
  unfolding enter_sweep take_resolution sweep_plan is_done
  start_leaf resolve_params a w = if is_done a w then (skip_zone a, w) else elim (sweep_plan a w) [
    | some plan ↦ enter_sweep plan a w
    | none ↦ take_resolution (resolve_params a w) a w
  ]

  -- `initialise`; the parameter resolver reads the blackboard after the waypoints are injected.
  unfoldable pub initialise :
      (CommandAction → ActionWorld Params Payload → Resolution)
      → CommandAction
      → ActionWorld Params Payload
      → CommandAction × ActionWorld Params Payload
  unfolding start_leaf
  initialise resolve_params a w =
      if not a.has_resolver
      then (record a { state = error }, w)
      else (let (a', w') = inject_waypoints a w in start_leaf resolve_params a' w')
