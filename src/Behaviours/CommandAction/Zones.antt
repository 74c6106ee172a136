-- ===== src/Behaviours/CommandAction/Zones.antt =====
-- The zone that a leaf works on: its coverage on the blackboard.
use hmta_service.Prelude.{
  none, false, all, some, true, [], ℕ, String, Bool, List, ◌==◌, ◌++◌, ◌||◌, ◌∷◌, if◌then◌else◌,
}
use hmta_service.Prelude.Dict.{Dict}
use hmta_service.Behaviours.{
  value, text, number, bit, word, flag, lookup, details, is_truthy, Value, Datum, plain_set,
  Blackboard,
}
use hmta_service.Prelude.Text.{concat}
use hmta_service.Behaviours.CommandAction.{zone_coverage, ActionWorld, Report, CommandAction}

abbrev pub text_param : String → Dict Datum → String
text_param key params = elim (lookup key params) [ some (value (text s)) ↦ s | _ ↦ "" ]

-- `zones/{zone}/{what}`
abbrev pub zone_key : String → String → String
zone_key zone what = concat "zones/" (concat zone (concat "/" what))

-- A key is read under both spellings, and written under the second alone.
unfoldable pub is_set : Blackboard → String → Bool
is_set bb key = is_truthy (lookup key bb.plain) || is_truthy (lookup key bb.values)

abbrev pub is_cleared : Blackboard → String → Bool
is_cleared bb zone = is_set bb (zone_key zone "cleared")

-- `_check_all_zones_cleared`, for the zones of the registry that machines can move in.
unfoldable pub check_all_zones_cleared : List String → Blackboard → Blackboard
unfolding is_set
check_all_zones_cleared [] bb = bb
check_all_zones_cleared (z ∷ zs) bb =
    if all (is_cleared bb) (z ∷ zs) then plain_set "all_zones_cleared" (flag true) bb else bb

abbrev pub coverage_note : CommandAction → ℕ → String → Value
coverage_note a now status =
    details
      (("status", word status) ∷ ("entity_id", word a.entity_id) ∷ ("timestamp", number now) ∷ [])

abbrev pub zone_marks : List String → String → String → Blackboard → Blackboard
zone_marks zone_ids zone status bb =
    if status == "arrived"
    then plain_set (zone_key zone "explored") (flag true) bb
    else if status == "scanned"
    then check_all_zones_cleared zone_ids (plain_set (zone_key zone "cleared") (flag true) bb)
    else bb

abbrev pub zone_of : CommandAction → String
zone_of a =
    let zone = text_param "zone_id" a.params in
    if zone == "" then text_param "zone" a.params else zone

abbrev pub note_effect : CommandAction → ℕ → String → Blackboard → Blackboard
note_effect a now effect bb =
    plain_set effect
      (details
        (("value", bit true) ∷ ("entity_id", word a.entity_id) ∷ ("timestamp", number now) ∷ []))
      bb

abbrev pub note_effects : CommandAction → ℕ → List String → Blackboard → Blackboard
note_effects a now [] bb = bb
note_effects a now (e ∷ es) bb = note_effects a now es (note_effect a now e bb)

abbrev pub no_bomb : Blackboard → Blackboard
no_bomb bb =
    if is_truthy (lookup "bomb_detected" bb.plain)
    then bb
    else plain_set "bomb_detected" (flag false) bb

abbrev pub result_zone : CommandAction → String
result_zone a = elim (lookup "zone_id" a.params) [
  | none ↦ "?"
  | some d ↦ text_param "zone_id" a.params
]

module _ {Params Payload : Type 0} (zone_ids : List String) where
  abbrev pub report :
      CommandAction → Report → ActionWorld Params Payload → ActionWorld Params Payload
  report a r w = if a.has_bridge then record w { reports = w.reports ++ r ∷ [] } else w

  -- `_update_zone_coverage`
  unfoldable pub update_zone_coverage :
      ℕ → String → CommandAction → ActionWorld Params Payload → ActionWorld Params Payload
  unfolding check_all_zones_cleared
  update_zone_coverage now status a w =
      if zone_of a == ""
      then w
      else report a zone_coverage (record w {
        bb =
            zone_marks zone_ids (zone_of a) status (
              plain_set (zone_key (zone_of a) "coverage_status") (coverage_note a now status) w.bb);
      })

  -- `_write_effects`; the effects of an intent are the ontology's.
  unfoldable pub write_effects :
      (String → List String)
      → ℕ
      → CommandAction
      → ActionWorld Params Payload
      → ActionWorld Params Payload
  write_effects get_effects now a w = record w {
    bb = note_effects a now (get_effects a.intent) w.bb;
  }
