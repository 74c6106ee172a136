-- ===== src/Coverage/Node.antt =====
-- app/generation/graph/coverage_ensurer.py: the template that is read off the planned subtasks, and
-- `coverage_ensurer_node`.
use hmta_service.Prelude.{
  ℕ, zero, suc, ◌+◌, String, Option, none, some, Bool, true, false, not, ◌&&◌, List, [], ◌∷◌, ◌==◌,
  leb, ltb, map, elem, filter, all, if◌then◌else◌,
}
use hmta_service.Prelude.Dict.{Dict, lookup, put, remove}
use hmta_service.Prelude.Text.{concat}
use hmta_service.Command.Status.{or_default}
use hmta_service.Behaviours.{Value, text, is_truthy, value_eq}
use hmta_service.Coverage.{Zone, RawZones, extract_zones, apply_scope, first_text}

-- A subtask; `params` is empty, and `zone_id` the empty text, where they are missing.
pub record Subtask : Type 0 where
  pub subtask_id : String
  pub description : String
  pub required_capabilities : List String
  pub params : Dict Value
  pub zone_id : String
  pub priority : Option String
  pub auto_generated : Bool

pub record TaskPlan : Type 0 where
  pub zone_scope : Option String
  pub zone_ids : List String
  pub subtasks : List Subtask

-- Equal capability patterns, entry by entry.
unfoldable pub same_caps : List String → List String → Bool
same_caps [] [] = true
same_caps (c ∷ cs) (d ∷ ds) = c == d && same_caps cs ds
same_caps _ _ = false

-- `Counter`: the patterns in the order of their first use.
abbrev pub count_caps : List String → List (List String × ℕ) → List (List String × ℕ)
count_caps caps [] = (caps, 1) ∷ []
count_caps caps ((c, n) ∷ rest) =
    if same_caps c caps then (c, n + 1) ∷ rest else (c, n) ∷ count_caps caps rest

abbrev pub count_all : List Subtask → List (List String × ℕ) → List (List String × ℕ)
count_all [] counts = counts
count_all (st ∷ sts) counts = elim st.required_capabilities [
  | [] ↦ count_all sts counts
  | c ∷ cs ↦ count_all sts (count_caps (c ∷ cs) counts)
]

-- `most_common(1)`: the first of the patterns with the largest count.
abbrev pub most_common : List String × ℕ → List (List String × ℕ) → List String
most_common (best, n) [] = best
most_common (best, n) ((c, k) ∷ rest) =
    if ltb n k then most_common (c, k) rest else most_common (best, n) rest

abbrev pub most_common_or : List String → List (List String × ℕ) → List String
most_common_or default_caps [] = default_caps
most_common_or default_caps (first ∷ rest) = most_common first rest

unfoldable pub infer_capabilities : List Subtask → List String
unfolding same_caps
infer_capabilities subtasks = most_common_or ("navigation" ∷ "scan" ∷ []) (count_all subtasks [])

abbrev pub has_param : String → Value → Subtask → Bool
has_param k v st = elim (lookup k st.params) [ none ↦ false | some w ↦ value_eq w v ]

unfoldable pub infer_shared_params : List Subtask → Dict Value
infer_shared_params [] = []
infer_shared_params (first ∷ others) =
    filter (λ entry. all (has_param entry.0 entry.1) others)
      (remove "end" (remove "zone_id" first.params))

-- The zone that a subtask covers, or the empty text; a parameter that is no text names no zone.
abbrev pub zone_of : Option Value → String → String
zone_of (some (text s)) other = first_text s other
zone_of v other = if is_truthy v then "" else other

unfoldable pub planned_zone : Subtask → String
planned_zone st = zone_of (lookup "zone_id" st.params) st.zone_id

unfoldable pub planned_zone_ids : List Subtask → List String
unfolding planned_zone
planned_zone_ids subtasks = filter (λ zid. not (zid == "")) (map planned_zone subtasks)

unfoldable pub missing_zones : List Zone → List String → List Zone
missing_zones targets planned = filter (λ z. not (elem z.id planned)) targets

-- `_priority_order.get(priority, 2)`, for a priority that is "normal" if it is missing.
unfoldable pub priority_rank : Option String → ℕ
priority_rank none = 2
priority_rank (some p) = if p == "critical" then 0 else if p == "urgent" then 1 else 2

abbrev rank_of : Subtask → ℕ
rank_of st = priority_rank st.priority

-- The position of the first subtask of normal priority, or the end.
unfoldable pub insert_index : List Subtask → ℕ
insert_index [] = 0
insert_index (st ∷ sts) = if leb 2 (rank_of st) then 0 else insert_index sts + 1

unfoldable pub fill_task : List String → Dict Value → Zone → Subtask
fill_task caps params z = record {
  subtask_id = concat "auto_" z.id;
  description = concat "扫描 " (first_text z.info.name (first_text z.info.display_name z.id));
  required_capabilities = caps;
  params = put "zone_id" (text z.id) params;
  zone_id = "";
  priority = some (or_default z.info.priority "normal");
  auto_generated = true;
}

-- The stable sort by rank.
abbrev pub insert_by_rank : Subtask → List Subtask → List Subtask
insert_by_rank st [] = st ∷ []
insert_by_rank st (u ∷ us) =
    if leb (rank_of st) (rank_of u) then st ∷ u ∷ us else u ∷ insert_by_rank st us

unfoldable pub sort_by_rank : List Subtask → List Subtask
sort_by_rank [] = []
sort_by_rank (st ∷ sts) = insert_by_rank st (sort_by_rank sts)

-- `subtasks.insert(index, ft)`
abbrev pub insert_at : ℕ → Subtask → List Subtask → List Subtask
insert_at n ft [] = ft ∷ []
insert_at zero ft (st ∷ sts) = ft ∷ st ∷ sts
insert_at (suc n) ft (st ∷ sts) = st ∷ insert_at n ft sts

-- The fills one by one, each at the place after the last.
unfoldable pub insert_all : ℕ → List Subtask → List Subtask → List Subtask
insert_all index [] subtasks = subtasks
insert_all index (ft ∷ fts) subtasks = insert_all (index + 1) fts (insert_at index ft subtasks)

unfoldable pub target_zones : RawZones → TaskPlan → List Zone
target_zones env plan =
    apply_scope (extract_zones env) (or_default plan.zone_scope "all_navigable") plan.zone_ids

abbrev pub fill_in : List Zone → TaskPlan → TaskPlan
fill_in [] plan = plan
fill_in (z ∷ zs) plan =
    let caps = infer_capabilities plan.subtasks in
    let params = infer_shared_params plan.subtasks in
    record plan {
      subtasks =
          insert_all (insert_index plan.subtasks)
            (sort_by_rank (map (fill_task caps params) (z ∷ zs))) plan.subtasks;
    }

unfoldable pub coverage_ensurer_node : RawZones → TaskPlan → TaskPlan
unfolding missing_zones planned_zone_ids
coverage_ensurer_node env plan =
    fill_in (missing_zones (target_zones env plan) (planned_zone_ids plan.subtasks)) plan
