-- ===== src/Examples/Zones.antt =====
-- Two rooms on one floor, one of them planned.
use hmta_service.Prelude.{none, true, false, [], ◌∷◌, ◌≡◌, refl, any, elem, ◌==◌, ne_of_==}
use hmta_service.Prelude.Text.{lower, strip}
use hmta_service.Behaviours.{text}
use hmta_service.Coverage.{ZoneInfo, Zone, RawZones, keyed, extract_zones, zone_floor, apply_scope}
use hmta_service.Coverage.Node.{
  Subtask, TaskPlan, planned_zone_ids, target_zones, coverage_ensurer_node,
}
use hmta_service.Coverage.Laws.{coverage_is_complete, coverage_ensurer_node_idempotent}

abbrev room : ZoneInfo
room = record {
  floor_name = "2F";
  floor = "";
  semantics_risk = "";
  risk = "";
  navigable = true;
  name = "";
  display_name = "";
  priority = none;
}

abbrev rooms : RawZones
rooms = keyed (("z1", room) ∷ ("z2", room) ∷ [])

abbrev scan_z1 : Subtask
scan_z1 = record {
  subtask_id = "s1";
  description = "";
  required_capabilities = "scan" ∷ [];
  params = ("zone_id", text "z1") ∷ [];
  zone_id = "";
  priority = none;
  auto_generated = false;
}

abbrev plan : TaskPlan
plan = record { zone_scope = none; zone_ids = []; subtasks = scan_z1 ∷ [] }

z2_in_scope : any (λ z. z.id == "z2") (target_zones rooms plan) ≡ true
unfolding target_zones extract_zones apply_scope lower strip
z2_in_scope = refl

coverage_is_complete_example :
    elem "z2" (planned_zone_ids (coverage_ensurer_node rooms plan).subtasks) ≡ true
coverage_is_complete_example =
    coverage_is_complete rooms plan "z2" (ne_of_== "z2" "" refl) z2_in_scope

all_named : any (λ z. z.id == "") (target_zones rooms plan) ≡ false
unfolding target_zones extract_zones apply_scope lower strip
all_named = refl

coverage_ensurer_node_idempotent_example :
    coverage_ensurer_node rooms (coverage_ensurer_node rooms plan)
    ≡ coverage_ensurer_node rooms plan
coverage_ensurer_node_idempotent_example = coverage_ensurer_node_idempotent rooms plan all_named

abbrev room_z1 : Zone
room_z1 = record { id = "z1"; info = room }

on_2f : zone_floor room_z1 ≡ "2F"
unfolding zone_floor strip
on_2f = refl
