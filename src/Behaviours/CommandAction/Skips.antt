-- ===== src/Behaviours/CommandAction/Skips.antt =====
-- What a repeated scan of a swept zone does.
use hmta_service.Prelude.{
  ap, ◌∙◌, all, eq_of_==, elem, subst, inl, inr, ℕ, String, List, Bool, Option, none, some, true,
  false, [], ◌∷◌, ◌≡◌, ◌==◌, refl, arith, Bool-cases,
}
use hmta_service.Behaviours.CommandAction.Starts.{
  inject, skip_zone, zone_id_of, Resolution, is_done, initialise, is_scan,
}
use hmta_service.Behaviours.CommandAction.Ticks.{poll_execution, update}
use hmta_service.Command.Resolver.{intent_lower}
use hmta_service.Command.{Translators}
use hmta_service.Behaviours.CommandAction.{Cell, Ticking, scan_intents, ActionWorld, CommandAction}
use hmta_service.Behaviours.{success, lookup, Datum, Dict, Waypoint}
use hmta_service.Prelude.Text.{after_last_dot, lower}
use hmta_service.Behaviours.CommandAction.Sweep.{poll_sweep}
use hmta_service.Behaviours.CommandAction.Zones.{text_param, is_cleared, zone_of}
use hmta_service.Behaviours.CommandAction.Cleared.{poll_sweep-IsSwept}

-- A scan takes no waypoints of the gate before it.
scan-is_not_path : (a : CommandAction) → is_scan a ≡ true → (a.intent == "follow_by_path") ≡ false
unfolding intent_lower lower after_last_dot
scan-is_not_path a h = elim (Bool-cases (a.intent == "follow_by_path")) [
  | inl e ↦ absurd (
      cc (
        subst (λ s. elem (intent_lower s) scan_intents ≡ true)
          (eq_of_== a.intent "follow_by_path" e) h))
  | inr e ↦ e
]

module _ {Params Payload : Type 0} where
  inject-scan :
      (o : Option (List Waypoint)) (a : CommandAction) (w : ActionWorld Params Payload)
      → is_scan a ≡ true
      → inject o a w ≡ (a, w)
  inject-scan none a w h = refl
  inject-scan (some []) a w h = refl
  inject-scan (some (p ∷ ps)) a w h = rw (scan-is_not_path a h) refl

module _ {Params Payload : Type 0} (tx : Translators Params Payload) (zone_ids : List String)
    (get_effects : String → List String) (pack : Dict Datum → Params)
    (to_number : Datum → Option ℕ) where
  scan-is_done :
      (c : Ticking) (a : CommandAction) (w : ActionWorld Params Payload)
      → is_scan a ≡ true
      → (zone_id_of a == "") ≡ false
      → is_cleared w.bb (zone_id_of a) ≡ true
      → is_done tx zone_ids get_effects pack to_number c a w ≡ true
  unfolding is_done
  scan-is_done c a w scans named cleared = rw (scans, named, cleared) (ground arith)

  initialise-skip :
      (c : Ticking) (resolve_params : CommandAction → ActionWorld Params Payload → Resolution)
      (a : CommandAction) (w : ActionWorld Params Payload)
      → a.has_resolver ≡ true
      → is_scan a ≡ true
      → (zone_id_of a == "") ≡ false
      → is_cleared w.bb (zone_id_of a) ≡ true
      → initialise tx zone_ids get_effects pack to_number c resolve_params a w
        ≡ (skip_zone tx zone_ids get_effects pack to_number c a, w)
  unfolding initialise
  initialise-skip c resolve_params a w ready scans named cleared =
      let done : is_done tx zone_ids get_effects pack to_number c a w ≡ true =
        scan-is_done c a w scans named cleared in
      rw (inject-scan (lookup a.entity_id w.bb.pending_waypoints) a w scans, done, ready) refl

  update-skip :
      (c : Ticking) (inside : Cell → Bool) (a : CommandAction) (w : ActionWorld Params Payload)
      → let again = skip_zone tx zone_ids get_effects pack to_number c a in
        update tx zone_ids get_effects pack to_number c inside again w ≡ (success, again, w)
  unfolding update poll_execution
  update-skip c inside a w = refl

  -- A zone that is swept is not swept again. When a tick of a scan, which has its resolver and names
  -- a zone by `zone_id`, ends the sweep, then all the grid's cells count as scanned, whatever became
  -- of the commands that it sent; and the leaf, when the tree starts it over and ticks it, succeeds
  -- at once and changes nothing outside.
  pub swept_zone_is_skipped :
      (c c' : Ticking) (inside inside' : Cell → Bool)
      (resolve_params : CommandAction → ActionWorld Params Payload → Resolution) (a : CommandAction)
      (w : ActionWorld Params Payload)
      → a.has_resolver ≡ true
      → is_scan a ≡ true
      → (zone_id_of a == "") ≡ false
      → (poll_sweep tx zone_ids get_effects pack c inside a w).0 ≡ success
      → let (_, a', w') = poll_sweep tx zone_ids get_effects pack c inside a w in
        let again = skip_zone tx zone_ids get_effects pack to_number c' a' in
        (all (λ x. x.scanned) a'.sweep_grid_cells ≡ true)
        × ((initialise tx zone_ids get_effects pack to_number c' resolve_params a' w' ≡ (again, w'))
            × (update tx zone_ids get_effects pack to_number c' inside' again w'
                ≡ (success, again, w')))
  swept_zone_is_skipped c c' inside inside' resolve_params a w ready scans named done =
      let (status, a', w') = poll_sweep tx zone_ids get_effects pack c inside a w in
      let zone : (zone_of a ≡ zone_id_of a) = rw named refl in
      let (intent, (params, (resolver, (all_scanned, cleared)))) =
        poll_sweep-IsSwept tx zone_ids get_effects pack c inside a w (rw zone named) done in
      let same_zone : zone_id_of a' ≡ zone_id_of a = ap (text_param "zone_id") params in
      (
        all_scanned,
        (
          initialise-skip c' resolve_params a' w' (resolver ∙ ready) (rw intent scans)
              (rw same_zone named)
              (rw same_zone (subst (λ z. is_cleared w'.bb z ≡ true) zone cleared)),
          update-skip c' inside' a' w',
        ),
      )
