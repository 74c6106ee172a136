-- ===== src/Behaviours/CommandAction/Ends.antt =====
-- Why a sweep comes to its end.
use hmta_service.Command.CommandState.{completed, failed}
use hmta_service.Prelude.{
  any, map, ◌&&◌, ℕ, String, Option, none, some, Bool, true, List, [], zero, suc, ◌∷◌, ◌⊎◌, inl,
  inr, ◌≡◌, ◌≤◌, ◌<◌, ◌+◌, ◌-◌, refl, arith, Bool-cases, length, leb, ltb, drop,
}
use hmta_service.Behaviours.CommandAction.{
  CommandResolver, Datum, Dict, ActionWorld, Cell, Waypoint, Ticking, CommandAction,
  sweep_timeout_sec,
}
use hmta_service.Command.{refused, resolved, CommandState, Translators}
use hmta_service.Behaviours.CommandAction.Sweep.{
  newly, enter, publish_scan_grid, at_command, scan_at, in_state, sweep_command,
  check_position_cells, poll_waypoint, tried, dispatch_sweep_navigate, poll_sweep, finish_sweep,
  dispatch_sweep, go_on,
}
use hmta_service.Behaviours.{success, ResolveResult, running, Status}
use hmta_service.Command.Resolver.{resolve}
use hmta_service.Command.Status.{cancel, get_status}
use hmta_service.Behaviours.Pace.{last_tick, AreTicks}

-- What one tick of a sweep meets: the clock, the cells that the robot is in, and what the rest of
-- the program has done to the world since the last tick.
pub record Moment (Params Payload : Type 0) : Type 0 where
  pub clock : Ticking
  pub inside : Cell → Bool
  pub change : ActionWorld Params Payload → ActionWorld Params Payload

abbrev pub times : {Params Payload : Type 0} → List (Moment Params Payload) → List ℕ
times [] = []
times (m ∷ ms) = m.clock.now ∷ times ms

-- How long a sweep may last with a number of waypoints left to try after the current one: each takes
-- up to its timeout, and the next tick comes up to `gap` later.
abbrev pub allowance : ℕ → ℕ → ℕ
allowance gap zero = sweep_timeout_sec + gap
allowance gap (suc n) = sweep_timeout_sec + gap + allowance gap n

timeout-allowance : (gap n : ℕ) → sweep_timeout_sec ≤ allowance gap n
timeout-allowance gap zero = omega arith
timeout-allowance gap (suc n) = omega arith

-- A sweep between two ticks: every waypoint has been tried, or a command has been sent at `start`.
abbrev pub IsSweep : ℕ → CommandAction → Type 0
IsSweep start a =
    ((a.command_id ≡ none) × (length a.sweep_waypoints ≤ a.sweep_index))
    ⊎ ((id : String) × ((a.command_id ≡ some id) × (a.exec_start ≡ start)))

length-drop_lem : {A : Type 0} (n : ℕ) (xs : List A) → length xs ≤ n + length (drop n xs)
length-drop_lem zero xs = omega arith
length-drop_lem (suc n) [] = omega arith
length-drop_lem (suc n) (x ∷ xs) = omega (arith, length-drop_lem n xs)

module _ {Params Payload : Type 0} (tx : Translators Params Payload) (zone_ids : List String)
    (get_effects : String → List String) (pack : Dict Datum → Params) where
  -- The ticks of a sweep until it ends, or until the list does.
  abbrev pub run_sweep :
      List (Moment Params Payload)
      → CommandAction
      → ActionWorld Params Payload
      → Status × CommandAction × ActionWorld Params Payload
  run_sweep [] a w = (running, a, w)
  run_sweep (m ∷ ms) a w =
      let (status, a', w') =
        poll_sweep tx zone_ids get_effects pack m.clock m.inside a (m.change w) in
      let rest = run_sweep ms a' w' in elim status [ running ↦ rest | s ↦ (s, a', w') ]

  -- What a tick leaves of a sweep that was to try the waypoint `i`.
  abbrev Forward : ℕ → ℕ → List Waypoint → CommandAction → Type 0
  Forward now i wps a' = (a'.sweep_waypoints ≡ wps) × ((i ≤ a'.sweep_index) × IsSweep now a')

  tried-Forward :
      (c : Ticking)
      (go : CommandAction → ActionWorld Params Payload → CommandAction × ActionWorld Params Payload)
      (a : CommandAction) (w : ActionWorld Params Payload)
      (p : CommandResolver Params Payload × ResolveResult)
      → ((w' : ActionWorld Params Payload)
          → let a' : CommandAction = record a { sweep_index = a.sweep_index + 1 } in
            Forward c.now a'.sweep_index a.sweep_waypoints (go a' w').0)
      → Forward c.now a.sweep_index a.sweep_waypoints
          (tried tx zone_ids get_effects pack c go a w p).0
  tried-Forward c go a w (r, refused e) next =
      let (wps, (later, state)) = next (record w { resolver = r }) in
      (wps, (omega (arith, later), state))
  tried-Forward c go a w (r, resolved id) next = (refl, (omega arith, inr (id, (refl, refl))))

  pub dispatch_sweep-Forward :
      (c : Ticking) (rest : List Waypoint) (a : CommandAction) (w : ActionWorld Params Payload)
      → a.command_id ≡ none
      → length a.sweep_waypoints ≤ a.sweep_index + length rest
      → Forward c.now a.sweep_index a.sweep_waypoints
          (dispatch_sweep tx zone_ids get_effects pack c rest a w).0
  unfolding dispatch_sweep
  dispatch_sweep-Forward c [] a w h e = (refl, (omega arith, inl (h, omega (arith, e))))
  dispatch_sweep-Forward c (wp ∷ rest) a w h e =
      tried-Forward c (dispatch_sweep tx zone_ids get_effects pack c rest) a w
        (resolve tx (sweep_command tx zone_ids get_effects pack c wp a) w.resolver)
        (λ w'.
          dispatch_sweep-Forward c rest (record a { sweep_index = a.sweep_index + 1 }) w' h
            (omega (arith, e)))

  -- The sweep has ended, or it goes on from the waypoint `i`.
  abbrev Goes : ℕ → ℕ → List Waypoint → Status × CommandAction × ActionWorld Params Payload → Type 0
  Goes now i wps out =
      (out.0 ≡ success) ⊎ ((out.0 ≡ running) × ((i < length wps) × Forward now i wps out.1))

  go_on-Goes :
      (c : Ticking) (a : CommandAction) (w : ActionWorld Params Payload)
      → Goes c.now a.sweep_index a.sweep_waypoints (go_on tx zone_ids get_effects pack c a w)
  unfolding go_on finish_sweep dispatch_sweep_navigate
  go_on-Goes c a w = elim (Bool-cases (leb (length a.sweep_waypoints) a.sweep_index)) [
    | inl e ↦ rw e (inl refl)
    | inr e ↦ rw e (
        inr (
          refl,
          (
            ground arith,
            dispatch_sweep-Forward c (drop a.sweep_index a.sweep_waypoints)
                (record a { command_id = none }) w refl
                (length-drop_lem a.sweep_index a.sweep_waypoints),
          ),
        ))
  ]

  -- The sweep has ended, or it goes on from the waypoint after `i`, or it waits for the command that
  -- it has sent at `start`, not more than the timeout ago.
  abbrev Polled :
      ℕ → ℕ → ℕ → List Waypoint → Status × CommandAction × ActionWorld Params Payload → Type 0
  Polled start now i wps out =
      Goes now (i + 1) wps out
      ⊎ ((out.0 ≡ running)
          × ((now ≤ start + sweep_timeout_sec)
              × ((out.1.sweep_waypoints ≡ wps) × ((out.1.sweep_index ≡ i) × IsSweep start out.1))))

  in_state-Polled :
      (c : Ticking) (s : CommandState) (id : String) (start : ℕ) (a : CommandAction)
      (w : ActionWorld Params Payload)
      → a.command_id ≡ some id
      → a.exec_start ≡ start
      → Polled start c.now a.sweep_index a.sweep_waypoints
          (in_state tx zone_ids get_effects pack c s id a w)
  unfolding in_state
  in_state-Polled c s id start a w sent at =
      let skipped : (w' : ActionWorld Params Payload)
          → Goes c.now (a.sweep_index + 1) a.sweep_waypoints (
              go_on tx zone_ids get_effects pack c
                (record a { sweep_index = a.sweep_index + 1; command_id = none }) w') =
        λ w'. go_on-Goes c (record a { sweep_index = a.sweep_index + 1; command_id = none }) w' in
      elim s
        as (λ k.
          Polled start c.now a.sweep_index a.sweep_waypoints
            (in_state tx zone_ids get_effects pack c k id a w)) [
              | completed ↦
                  let a1 : CommandAction = record a {
                    sweep_index = a.sweep_index + 1;
                    sweep_grid_cells = scan_at a.sweep_index a.sweep_grid_cells;
                  } in
                  inl (go_on-Goes c a1 (publish_scan_grid tx zone_ids get_effects pack c true a1 w))
              | failed ↦ inl (skipped w)
              | _ ↦ elim (Bool-cases (ltb sweep_timeout_sec (c.now - a.exec_start))) [
                | inl e ↦ rw e (inl (skipped (record w { resolver = cancel id w.resolver })))
                | inr e ↦ rw e (inr (refl, (ground arith, (refl, (refl, inr (id, (sent, at)))))))
              ]
            ]

  at_command-Polled :
      (c : Ticking) (start : ℕ) (k : Option String) (a : CommandAction)
      (w : ActionWorld Params Payload)
      → a.command_id ≡ k
      → IsSweep start a
      → Polled start c.now a.sweep_index a.sweep_waypoints
          (at_command tx zone_ids get_effects pack c k a w)
  unfolding poll_waypoint go_on finish_sweep
  at_command-Polled c start none a w q (inl (h, tried_all)) =
      let e : leb (length a.sweep_waypoints) a.sweep_index ≡ true = ground arith in
      rw e (inl (inl refl))
  at_command-Polled c start none a w q (inr (id, (h, at))) = absurd (cc)
  at_command-Polled c start (some id) a w q (inl (h, tried_all)) = absurd (cc)
  at_command-Polled c start (some id) a w q (inr (j, (h, at))) =
      in_state-Polled c (get_status w.resolver id).state id start a w q at

  poll_sweep-Polled :
      (c : Ticking) (inside : Cell → Bool) (start : ℕ) (a : CommandAction)
      (w : ActionWorld Params Payload)
      → IsSweep start a
      → Polled start c.now a.sweep_index a.sweep_waypoints
          (poll_sweep tx zone_ids get_effects pack c inside a w)
  unfolding poll_sweep check_position_cells
  poll_sweep-Polled c inside start a w sweep =
      let cells = map (enter inside) a.sweep_grid_cells in
      let cond = any (newly inside) a.sweep_grid_cells && ltb 0 (c.now - a.sweep_last_pub) in
      elim (Bool-cases cond) [
        | inl e ↦
            let a1 : CommandAction = record a {
              sweep_grid_cells = cells;
              sweep_last_pub = c.now;
            } in
            rw e (
              at_command-Polled c start a.command_id a1
                (publish_scan_grid tx zone_ids get_effects pack c true a1 w) refl sweep)
        | inr e ↦ rw e (
            at_command-Polled c start a.command_id (record a { sweep_grid_cells = cells }) w refl
              sweep)
      ]

  pub run_sweep-success :
      (n gap start before : ℕ) (ms : List (Moment Params Payload)) (a : CommandAction)
      (w : ActionWorld Params Payload)
      → IsSweep start a
      → start ≤ before
      → before ≤ start + sweep_timeout_sec
      → AreTicks gap before (times ms)
      → length a.sweep_waypoints ≤ a.sweep_index + n
      → start + allowance gap n < last_tick before (times ms)
      → (run_sweep ms a w).0 ≡ success
  run_sweep-success n gap start before [] a w sweep early soon paced left long =
      absurd (omega (arith, soon, long, timeout-allowance gap n))
  run_sweep-success zero gap start before (m ∷ ms) a w sweep early soon (later, (close, paced)) left
        long =
      let out = poll_sweep tx zone_ids get_effects pack m.clock m.inside a (m.change w) in
      elim (poll_sweep-Polled m.clock m.inside start a (m.change w) sweep) [
        | inl (inl e) ↦ rw (e, run_sweep) refl
        | inl (inr (e, (more, forward))) ↦ absurd (omega (arith, more, left))
        | inr (e, (in_time, (wps, (same, sweep')))) ↦
            rw (e, run_sweep)
              (run_sweep-success zero gap start m.clock.now ms out.1 out.2 sweep'
                (omega (arith, early, later)) in_time paced (rw (wps, same) left) long)
      ]
  run_sweep-success (suc n) gap start before (m ∷ ms) a w sweep early soon (later, (close, paced))
        left long =
      let out = poll_sweep tx zone_ids get_effects pack m.clock m.inside a (m.change w) in
      elim (poll_sweep-Polled m.clock m.inside start a (m.change w) sweep) [
        | inl (inl e) ↦ rw (e, run_sweep) refl
        | inl (inr (e, (more, (wps, (further, sweep'))))) ↦
            rw (e, run_sweep)
              (run_sweep-success n gap m.clock.now m.clock.now ms out.1 out.2 sweep' (omega arith)
                (omega arith) paced (rw wps (omega (arith, left, further)))
                (omega (arith, soon, close, long)))
        | inr (e, (in_time, (wps, (same, sweep')))) ↦
            rw (e, run_sweep)
              (run_sweep-success (suc n) gap start m.clock.now ms out.1 out.2 sweep'
                (omega (arith, early, later)) in_time paced (rw (wps, same) left) long)
      ]
