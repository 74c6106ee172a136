-- ===== src/Coverage.antt =====
-- app/generation/graph/coverage_ensurer.py: the zones in a mission's scope, and the subtasks that are
-- added for the zones that no subtask covers.
pub mod Node
pub mod Lists
pub mod Laws
use Prim.Native.String.{String}
use hmta_service.Prelude.{
  ℕ, Option, none, some, Bool, true, false, not, ◌&&◌, ◌||◌, List, [], ◌∷◌, ◌==◌, nat_eq, map, elem,
  filter, if◌then◌else◌,
}
use Prim.Native.Char.{Char, code}
use hmta_service.Prelude.Dict.{Dict}
use hmta_service.Prelude.Text.{lower, strip, contains, after_prefix, is_space}
use hmta_service.Command.Status.{or_default}

-- What the node reads of a zone; a text is empty where it is missing.
pub record ZoneInfo : Type 0 where
  pub floor_name : String
  pub floor : String
  pub semantics_risk : String
  pub risk : String
  pub navigable : Bool
  pub name : String
  pub display_name : String
  pub priority : Option String

pub record Zone : Type 0 where
  pub id : String
  pub info : ZoneInfo

-- An entry of a list of zones.
pub record ListedZone : Type 0 where
  pub id : Option String
  pub zone_id : Option String
  pub info : ZoneInfo

-- `env["zones"]`
pub data RawZones : Type 0 where
  listed : List ListedZone → RawZones
  keyed : Dict ZoneInfo → RawZones

abbrev of_listed : ListedZone → Zone
of_listed z = record { id = or_default z.id (or_default z.zone_id ""); info = z.info }

abbrev of_entry : String × ZoneInfo → Zone
of_entry (zid, info) = record { id = zid; info = info }

unfoldable pub extract_zones : RawZones → List Zone
extract_zones (listed zs) = map of_listed zs
extract_zones (keyed d) = map of_entry d

abbrev pub first_text : String → String → String
first_text s other = if s == "" then other else s

unfoldable pub zone_floor : Zone → String
zone_floor z = strip (first_text z.info.floor_name z.info.floor)

unfoldable pub zone_risk : Zone → String
zone_risk z = lower (strip (first_text z.info.semantics_risk z.info.risk))

-- `(.+)` reads up to the end of the line.
until_newline : String → String
until_newline String.[] = String.[]
until_newline (String.◌∷◌ c s) =
    if nat_eq (code c) 10 then String.[] else String.◌∷◌ c (until_newline s)

abbrev some_text : String → Option String
some_text s = if s == "" then none else some s

abbrev is_separator : Char → Bool
is_separator c = nat_eq (code c) b':' || is_space c

after_separator : Option String → Option String
unfolding until_newline
after_separator none = none
after_separator (some String.[]) = none
after_separator (some (String.◌∷◌ c s)) =
    if is_separator c then some_text (until_newline s) else none

-- `re.match(word + r"[:\s](.+)", scope)`
unfoldable pub scope_value : String → String → Option String
unfolding after_separator
scope_value word scope = after_separator (after_prefix word scope)

abbrev by_floor : String → List Zone → List Zone
by_floor floor_val = filter (λ z. z.info.navigable && contains floor_val (zone_floor z))

abbrev by_risk : String → List Zone → List Zone
by_risk risk_val = filter (λ z.
    z.info.navigable
    && (zone_risk z == risk_val || (risk_val == "high" && zone_risk z == "critical")))

abbrev pub all_navigable : List Zone → List Zone
all_navigable = filter (λ z. z.info.navigable)

abbrev is_nil {ℓ} : {A : Type ℓ} → List A → Bool
is_nil [] = true
is_nil (_ ∷ _) = false

-- The scopes that a pattern reads, and the fall back for the rest.
abbrev pub by_pattern : Option String → Option String → List Zone → List Zone
by_pattern (some floor) risk zones = by_floor (strip floor) zones
by_pattern none (some risk) zones = by_risk (lower (strip risk)) zones
by_pattern none none zones = all_navigable zones

unfoldable pub apply_scope : List Zone → String → List String → List Zone
apply_scope all_zones zone_scope explicit_ids =
    let scope = if zone_scope == "" then "all_navigable" else lower (strip zone_scope) in
    if scope == "all_navigable" || scope == "all"
    then all_navigable all_zones
    else if scope == "zone_ids" && not (is_nil explicit_ids)
    then filter (λ z. elem z.id explicit_ids) all_zones
    else by_pattern (scope_value "floor" scope) (scope_value "risk" scope) all_zones
