-- ===== src/Coverage/Laws.antt =====
-- What app/generation/graph/coverage_ensurer.py promises: every zone in scope has a subtask, and the
-- planned subtasks stay as they are.
use hmta_service.Prelude.{
  String, Bool, true, false, not, ◌||◌, ◌&&◌, List, [], ◌∷◌, ◌==◌, ◌≡◌, ◌≢◌, inl, inr, refl, sym,
  ap, ◌∙◌, subst, arith, any, All, map, filter, elem, eq_of_==, ==_of_ne, ==_refl, Bool-cases,
}
use hmta_service.Prelude.Dict.{lookup-put_self, Dict}
use hmta_service.Prelude.Text.{contains, is_prefix}
use hmta_service.Behaviours.{Value, text}
use hmta_service.Coverage.{Zone, RawZones, zone_floor}
use hmta_service.Coverage.Node.{
  Subtask, TaskPlan, infer_capabilities, infer_shared_params, planned_zone, planned_zone_ids,
  missing_zones, insert_index, fill_task, sort_by_rank, target_zones, fill_in,
  coverage_ensurer_node,
}
use hmta_service.Coverage.Lists.{any-sort_by_rank, any-insert_all, filter-insert_all}

elem-planned_zone_ids :
    (id : String) (sts : List Subtask)
    → id ≢ ""
    → elem id (planned_zone_ids sts) ≡ any (λ st. planned_zone st == id) sts
unfolding planned_zone_ids
elem-planned_zone_ids id [] named = refl
elem-planned_zone_ids id (st ∷ sts) named = elim (Bool-cases (planned_zone st == "")) [
  | inl e ↦
      let apart : (planned_zone st == id) ≡ false =
        ==_of_ne (planned_zone st) id (λ q. named (sym q ∙ eq_of_== (planned_zone st) "" e)) in
      rw (e, apart) (elem-planned_zone_ids id sts named)
  | inr e ↦ rw e (ap (λ b. planned_zone st == id || b) (elem-planned_zone_ids id sts named))
]

fill_task-planned_zone :
    (caps : List String) (params : Dict Value) (z : Zone)
    → planned_zone (fill_task caps params z) ≡ z.id
unfolding planned_zone fill_task
fill_task-planned_zone caps params z = elim (Bool-cases (z.id == "")) [
  | inl e ↦ rw (lookup-put_self "zone_id" (text z.id) params, e) (sym (eq_of_== z.id "" e))
  | inr e ↦ rw (lookup-put_self "zone_id" (text z.id) params, e) refl
]

any-fill_task :
    (id : String) (caps : List String) (params : Dict Value) (zs : List Zone)
    → any (λ st. planned_zone st == id) (map (fill_task caps params) zs) ≡ any (λ z. z.id == id) zs
any-fill_task id caps params [] = refl
any-fill_task id caps params (z ∷ zs) =
    rw (fill_task-planned_zone caps params z)
      (ap (λ b. z.id == id || b) (any-fill_task id caps params zs))

fills_are_auto :
    (caps : List String) (params : Dict Value) (zs : List Zone)
    → any (λ st. not st.auto_generated) (map (fill_task caps params) zs) ≡ false
unfolding fill_task
fills_are_auto caps params [] = refl
fills_are_auto caps params (z ∷ zs) = fills_are_auto caps params zs

-- The zones that subtasks cover after the fill: those of the fills, and those of before.
fill_in-covers :
    (id : String) (zs : List Zone) (plan : TaskPlan)
    → any (λ st. planned_zone st == id) (fill_in zs plan).subtasks
      ≡ (any (λ z. z.id == id) zs || any (λ st. planned_zone st == id) plan.subtasks)
fill_in-covers id [] plan = refl
fill_in-covers id (z ∷ zs) plan =
    let caps = infer_capabilities plan.subtasks in
    let params = infer_shared_params plan.subtasks in
    let p : Subtask → Bool = λ st. planned_zone st == id in
    any-insert_all p (insert_index plan.subtasks)
      (sort_by_rank (map (fill_task caps params) (z ∷ zs))) plan.subtasks
    ∙ ap (λ b. b || any p plan.subtasks)
        (any-sort_by_rank p (map (fill_task caps params) (z ∷ zs))
          ∙ any-fill_task id caps params (z ∷ zs))

missing_or_planned :
    (id : String) (targets : List Zone) (planned : List String)
    → any (λ z. z.id == id) targets ≡ true
    → (any (λ z. z.id == id) (missing_zones targets planned) || elem id planned) ≡ true
unfolding missing_zones
missing_or_planned id [] planned h = absurd (cc)
missing_or_planned id (z ∷ zs) planned h = elim (Bool-cases (z.id == id)) [
  | inl e ↦ elim (Bool-cases (elem z.id planned)) [
    | inl f ↦
        let covered : elem id planned ≡ true =
          subst (λ s. elem s planned ≡ true) (eq_of_== z.id id e) f in
        ground (arith, covered)
    | inr f ↦ rw (f, e) refl
  ]
  | inr e ↦
      let rest = missing_or_planned id zs planned (ground arith) in
      elim (Bool-cases (elem z.id planned)) [ inl f ↦ rw f rest | inr f ↦ rw (f, e) rest ]
]

-- Every zone in scope that has an identifier is the zone of some subtask after the node.
pub coverage_is_complete :
    (env : RawZones) (plan : TaskPlan) (id : String)
    → id ≢ ""
    → any (λ z. z.id == id) (target_zones env plan) ≡ true
    → elem id (planned_zone_ids (coverage_ensurer_node env plan).subtasks) ≡ true
unfolding coverage_ensurer_node
coverage_is_complete env plan id named there =
    let planned = planned_zone_ids plan.subtasks in
    let missing = missing_zones (target_zones env plan) planned in
    elem-planned_zone_ids id (fill_in missing plan).subtasks named
    ∙ fill_in-covers id missing plan
    ∙ rw (sym (elem-planned_zone_ids id plan.subtasks named))
        (missing_or_planned id (target_zones env plan) planned there)

missing_none :
    (targets : List Zone) (planned : List String)
    → ((id : String) → any (λ z. z.id == id) targets ≡ true → elem id planned ≡ true)
    → missing_zones targets planned ≡ []
unfolding missing_zones
missing_none [] planned h = refl
missing_none (z ∷ zs) planned h =
    let covered : elem z.id planned ≡ true = h z.id (rw (==_refl z.id) refl) in
    rw covered (missing_none zs planned (λ id there. h id (ground (arith, there))))

fill_in-target_zones :
    (env : RawZones) (zs : List Zone) (plan : TaskPlan)
    → target_zones env (fill_in zs plan) ≡ target_zones env plan
unfolding target_zones
fill_in-target_zones env [] plan = refl
fill_in-target_zones env (z ∷ zs) plan = refl

nothing_missing :
    (env : RawZones) (plan : TaskPlan)
    → any (λ z. z.id == "") (target_zones env plan) ≡ false
    → missing_zones
        (target_zones env (coverage_ensurer_node env plan))
        (planned_zone_ids (coverage_ensurer_node env plan).subtasks)
      ≡ []
unfolding coverage_ensurer_node
nothing_missing env plan named =
    let missing = missing_zones (target_zones env plan) (planned_zone_ids plan.subtasks) in
    ap (λ targets. missing_zones targets (planned_zone_ids (fill_in missing plan).subtasks))
      (fill_in-target_zones env missing plan)
    ∙ missing_none (target_zones env plan) (planned_zone_ids (fill_in missing plan).subtasks)
        (λ id there.
          coverage_is_complete env plan id
            (λ q. absurd (
              cc (
                sym named
                ∙ subst (λ s. any (λ z. z.id == s) (target_zones env plan) ≡ true) q there)))
            there)

-- If every zone in scope has an identifier, a second run of the node changes nothing.
pub coverage_ensurer_node_idempotent :
    (env : RawZones) (plan : TaskPlan)
    → any (λ z. z.id == "") (target_zones env plan) ≡ false
    → coverage_ensurer_node env (coverage_ensurer_node env plan) ≡ coverage_ensurer_node env plan
unfolding coverage_ensurer_node
coverage_ensurer_node_idempotent env plan named =
    ap (λ zs. fill_in zs (coverage_ensurer_node env plan)) (nothing_missing env plan named)

-- The fills leave no trace in the planned subtasks, whose order stays.
fill_in-keeps :
    (zs : List Zone) (plan : TaskPlan)
    → filter (λ st. not st.auto_generated) (fill_in zs plan).subtasks
      ≡ filter (λ st. not st.auto_generated) plan.subtasks
fill_in-keeps [] plan = refl
fill_in-keeps (z ∷ zs) plan =
    let caps = infer_capabilities plan.subtasks in
    let params = infer_shared_params plan.subtasks in
    let p : Subtask → Bool = λ st. not st.auto_generated in
    filter-insert_all p (insert_index plan.subtasks)
      (sort_by_rank (map (fill_task caps params) (z ∷ zs))) plan.subtasks
      (any-sort_by_rank p (map (fill_task caps params) (z ∷ zs))
        ∙ fills_are_auto caps params (z ∷ zs))

by_floor_2f :
    (zones : List Zone)
    → All (λ z. zone_floor z ≡ "2F") zones
    → filter (λ z. z.info.navigable && contains "2f" (zone_floor z)) zones ≡ []
unfolding contains is_prefix
by_floor_2f [] h = refl
by_floor_2f (z ∷ zs) h = rw h.0 (elim (Bool-cases z.info.navigable) [
  | inl e ↦ rw e (by_floor_2f zs h.1)
  | inr e ↦ rw e (by_floor_2f zs h.1)
])
