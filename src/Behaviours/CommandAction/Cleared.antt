-- ===== src/Behaviours/CommandAction/Cleared.antt =====
-- What a sweep leaves behind: a zone that is taken for cleared.
use hmta_service.Command.CommandState.{completed, failed}
use hmta_service.Prelude.{
  any, ltb, ◌&&◌, ◌+◌, ◌-◌, length, leb, subst, eq_of_==, inl, inr, ℕ, String, List, Bool, Option,
  none, some, true, false, [], ◌∷◌, ◌≡◌, ◌==◌, refl, arith, Bool-cases, all, map,
}
use hmta_service.Behaviours.{
  text, success, Status, Datum, Dict, number, word, bit, details, flag, lookup, lookup-put,
  plain_set, is_truthy, Value, Blackboard,
}
use hmta_service.Behaviours.CommandAction.Zones.{
  result_zone, write_effects, zone_marks, coverage_note, zone_key, zone_of, note_effect, report,
  is_cleared, note_effects, no_bomb, check_all_zones_cleared, update_zone_coverage, is_set,
}
use hmta_service.Prelude.Dict.{lookup-put_self}
use hmta_service.Behaviours.CommandAction.{
  sweep_timeout_sec, scan_grid, Ticking, Cell, zone_coverage, Report, ActionWorld, CommandAction,
}
use hmta_service.Command.{CommandState, Translators}
use hmta_service.Behaviours.CommandAction.Sweep.{
  newly, at_command, enter, poll_waypoint, scan_at, check_position_cells, publish_scan_grid,
  poll_sweep, in_state, finish_sweep, go_on, scan_all,
}
use hmta_service.Command.Status.{cancel, get_status}

-- What keeps every key that is set.
abbrev pub Keeps : Blackboard → Blackboard → Type 0
Keeps bb bb' = (key : String) → is_set bb key ≡ true → is_set bb' key ≡ true

pub plain_set-Keeps :
    (key : String) (v : Value) (bb : Blackboard)
    → is_truthy (some v) ≡ true
    → Keeps bb (plain_set key v bb)
unfolding is_set
plain_set-Keeps key v bb h k e = ground (arith, lookup-put key k v bb.plain)

plain_set-is_set :
    (key : String) (v : Value) (bb : Blackboard)
    → is_truthy (some v) ≡ true
    → is_set (plain_set key v bb) key ≡ true
unfolding is_set
plain_set-is_set key v bb h = rw (lookup-put_self key v bb.plain, h) refl

Keeps-then : (bb1 bb2 bb3 : Blackboard) → Keeps bb1 bb2 → Keeps bb2 bb3 → Keeps bb1 bb3
Keeps-then bb1 bb2 bb3 f g key h = g key (f key h)

no_bomb-Keeps : (bb : Blackboard) → Keeps bb (no_bomb bb)
unfolding is_set
no_bomb-Keeps bb k e = elim (Bool-cases (is_truthy (lookup "bomb_detected" bb.plain))) [
  | inl h ↦ rw h e
  | inr h ↦ elim (Bool-cases ("bomb_detected" == k)) [
    | inl q ↦
        let same = eq_of_== "bomb_detected" k q in
        let lost : is_truthy (lookup k bb.plain) ≡ false =
          subst (λ j. is_truthy (lookup j bb.plain) ≡ false) same h in
        rw (h, lookup-put "bomb_detected" k (flag false) bb.plain, q) (ground (arith, e, lost))
    | inr q ↦ rw (h, lookup-put "bomb_detected" k (flag false) bb.plain, q) e
  ]
]

note_effects-Keeps :
    (a : CommandAction) (now : ℕ) (effects : List String) (bb : Blackboard)
    → Keeps bb (note_effects a now effects bb)
unfolding is_truthy
note_effects-Keeps a now [] bb key h = h
note_effects-Keeps a now (e ∷ es) bb key h =
    note_effects-Keeps a now es (note_effect a now e bb) key (
      plain_set-Keeps e
        (details
          (("value", bit true) ∷ ("entity_id", word a.entity_id) ∷ ("timestamp", number now) ∷ []))
        bb refl key h)

check_all_zones_cleared-Keeps :
    (zone_ids : List String) (bb : Blackboard) → Keeps bb (check_all_zones_cleared zone_ids bb)
unfolding check_all_zones_cleared is_truthy
check_all_zones_cleared-Keeps [] bb key h = h
check_all_zones_cleared-Keeps (z ∷ zs) bb key h = elim (Bool-cases (all (is_cleared bb) (z ∷ zs))) [
  | inl e ↦ rw e (plain_set-Keeps "all_zones_cleared" (flag true) bb refl key h)
  | inr e ↦ rw e h
]

module _ {Params Payload : Type 0} (zone_ids : List String) where
  report-bb :
      (a : CommandAction) (r : Report) (w : ActionWorld Params Payload)
      → (report zone_ids a r w).bb ≡ w.bb
  report-bb a r w = ground arith

  update_zone_coverage-is_cleared :
      (now : ℕ) (a : CommandAction) (w : ActionWorld Params Payload)
      → (zone_of a == "") ≡ false
      → is_cleared (update_zone_coverage zone_ids now "scanned" a w).bb (zone_of a) ≡ true
  unfolding update_zone_coverage is_truthy
  update_zone_coverage-is_cleared now a w h =
      let bb1 =
        plain_set (zone_key (zone_of a) "coverage_status") (coverage_note a now "scanned") w.bb in
      let key = zone_key (zone_of a) "cleared" in
      let bb2 = plain_set key (flag true) bb1 in
      rw
        (
          h,
          report-bb a zone_coverage
              (record w { bb = zone_marks zone_ids (zone_of a) "scanned" bb1 }),
        )
        (check_all_zones_cleared-Keeps zone_ids bb2 key (plain_set-is_set key (flag true) bb1 refl))

-- A leaf whose sweep is over: it is the leaf that it was, and its zone counts as cleared.
abbrev pub IsSwept :
    {Params Payload : Type 0} → CommandAction → CommandAction → ActionWorld Params Payload → Type 0
IsSwept a a' w' =
    (a'.intent ≡ a.intent)
    × ((a'.params ≡ a.params)
        × ((a'.has_resolver ≡ a.has_resolver)
            × ((all (λ x. x.scanned) a'.sweep_grid_cells ≡ true)
                × (is_cleared w'.bb (zone_of a) ≡ true))))

all_scanned : (cells : List Cell) → all (λ c. c.scanned) (scan_all cells) ≡ true
all_scanned [] = refl
all_scanned (c ∷ cs) = all_scanned cs

module _ {Params Payload : Type 0} (tx : Translators Params Payload) (zone_ids : List String)
    (get_effects : String → List String) (pack : Dict Datum → Params) (c : Ticking) where
  abbrev SweptBy : CommandAction → Status × CommandAction × ActionWorld Params Payload → Type 0
  SweptBy a out = out.0 ≡ success → IsSwept a out.1 out.2

  finish_sweep-IsSwept :
      (a : CommandAction) (w : ActionWorld Params Payload)
      → (zone_of a == "") ≡ false
      → SweptBy a (finish_sweep tx zone_ids get_effects pack c a w)
  unfolding finish_sweep publish_scan_grid write_effects is_truthy
  finish_sweep-IsSwept a w h e =
      let a1 : CommandAction = record a { sweep_grid_cells = scan_all a.sweep_grid_cells } in
      let w1 = update_zone_coverage zone_ids c.now "scanned" a1 w in
      let bb1 = note_effects a1 c.now (get_effects a.intent) w1.bb in
      let key = zone_key (zone_of a) "cleared" in
      let bb2 = plain_set (zone_key (result_zone a) "scan_result") (text "clear") bb1 in
      (
        refl,
        (
          refl,
          (
            refl,
            (
              all_scanned a.sweep_grid_cells,
              rw (report-bb zone_ids a1 (scan_grid false a1.sweep_grid_cells) w1) (
                  no_bomb-Keeps bb2 key (
                    plain_set-Keeps (zone_key (result_zone a) "scan_result") (text "clear") bb1 refl
                      key
                      (note_effects-Keeps a1 c.now (get_effects a.intent) w1.bb key
                        (update_zone_coverage-is_cleared zone_ids c.now a1 w h)))),
            ),
          ),
        ),
      )

  go_on-IsSwept :
      (a : CommandAction) (w : ActionWorld Params Payload)
      → (zone_of a == "") ≡ false
      → SweptBy a (go_on tx zone_ids get_effects pack c a w)
  unfolding go_on
  go_on-IsSwept a w h = elim (Bool-cases (leb (length a.sweep_waypoints) a.sweep_index)) [
    | inl e ↦ rw e (finish_sweep-IsSwept a w h)
    | inr e ↦ rw e (λ q. absurd (ground arith))
  ]

  in_state-IsSwept :
      (s : CommandState) (id : String) (a : CommandAction) (w : ActionWorld Params Payload)
      → (zone_of a == "") ≡ false
      → SweptBy a (in_state tx zone_ids get_effects pack c s id a w)
  unfolding in_state
  in_state-IsSwept s id a w h =
      let skipped : (w' : ActionWorld Params Payload)
          → SweptBy a (
              go_on tx zone_ids get_effects pack c
                (record a { sweep_index = a.sweep_index + 1; command_id = none }) w') =
        λ w'.
          go_on-IsSwept (record a { sweep_index = a.sweep_index + 1; command_id = none }) w' h in
      elim s as (λ k. SweptBy a (in_state tx zone_ids get_effects pack c k id a w)) [
        | completed ↦
            let a1 : CommandAction = record a {
              sweep_index = a.sweep_index + 1;
              sweep_grid_cells = scan_at a.sweep_index a.sweep_grid_cells;
            } in
            go_on-IsSwept a1 (publish_scan_grid tx zone_ids get_effects pack c true a1 w) h
        | failed ↦ skipped w
        | _ ↦ elim (Bool-cases (ltb sweep_timeout_sec (c.now - a.exec_start))) [
          | inl e ↦ rw e (skipped (record w { resolver = cancel id w.resolver }))
          | inr e ↦ rw e (λ q. absurd (ground arith))
        ]
      ]

  at_command-IsSwept :
      (k : Option String) (a : CommandAction) (w : ActionWorld Params Payload)
      → (zone_of a == "") ≡ false
      → SweptBy a (at_command tx zone_ids get_effects pack c k a w)
  unfolding poll_waypoint
  at_command-IsSwept none a w h = go_on-IsSwept a w h
  at_command-IsSwept (some id) a w h = in_state-IsSwept (get_status w.resolver id).state id a w h

  pub poll_sweep-IsSwept :
      (inside : Cell → Bool) (a : CommandAction) (w : ActionWorld Params Payload)
      → (zone_of a == "") ≡ false
      → SweptBy a (poll_sweep tx zone_ids get_effects pack c inside a w)
  unfolding poll_sweep check_position_cells
  poll_sweep-IsSwept inside a w h =
      let cells = map (enter inside) a.sweep_grid_cells in
      elim (Bool-cases
        (any (newly inside) a.sweep_grid_cells && ltb 0 (c.now - a.sweep_last_pub))) [
          | inl e ↦
              let a1 : CommandAction = record a {
                sweep_grid_cells = cells;
                sweep_last_pub = c.now;
              } in
              rw e (
                at_command-IsSwept a.command_id a1
                  (publish_scan_grid tx zone_ids get_effects pack c true a1 w) h)
          | inr e ↦
              rw e (at_command-IsSwept a.command_id (record a { sweep_grid_cells = cells }) w h)
        ]
