-- ===== src/Validators/Structure/Steps.antt =====
-- What one call of the walk does, by cases that keep the tests' answers.
use hmta_service.Prelude.{
  ℕ, suc, String, Option, none, some, true, false, List, [], ◌∷◌, ◌++◌, ◌==◌, ◌≡◌, refl, ◌⊎◌, inl,
  inr, elem, Bool-cases, Option-cases,
}
use hmta_service.Prelude.Dict.{Dict, lookup}
use hmta_service.Validators.{BtNode, cycle_detected, self_loop}
use hmta_service.Validators.Structure.{Walk, report, visit_child, visit_node, walk}

pub walk-zero :
    (nodes : Dict BtNode) (node_id : String) (path : List String) (s : Walk)
    → walk nodes 0 node_id path s ≡ none
unfolding walk
walk-zero nodes node_id path s = refl

pub data WalkCase (nodes : Dict BtNode) (fuel : ℕ) (node_id : String) (path : List String)
    (s : Walk) : Type 0 where
  on :
      elem node_id s.visiting ≡ true
      → walk nodes (suc fuel) node_id path s
        ≡ some (report (cycle_detected node_id (path ++ node_id ∷ [])) s)
      → WalkCase nodes fuel node_id path s
  skip :
      elem node_id s.visiting ≡ false
      → (lookup node_id nodes ≡ none) ⊎ (elem node_id s.visited ≡ true)
      → walk nodes (suc fuel) node_id path s ≡ some s
      → WalkCase nodes fuel node_id path s
  inside :
      elem node_id s.visiting ≡ false
      → (node : BtNode) → lookup node_id nodes ≡ some node
      → elem node_id s.visited ≡ false
      → walk nodes (suc fuel) node_id path s ≡ visit_node (walk nodes fuel) node_id path node s
      → WalkCase nodes fuel node_id path s

pub walk_cases :
    (nodes : Dict BtNode) (fuel : ℕ) (node_id : String) (path : List String) (s : Walk)
    → WalkCase nodes fuel node_id path s
unfolding walk
walk_cases nodes fuel node_id path s = elim (Bool-cases (elem node_id s.visiting)) [
  | inl e ↦ on e (rw e refl)
  | inr e ↦ elim (Option-cases (lookup node_id nodes)) [
    | inl gone ↦ skip e (inl gone) (rw (e, gone) refl)
    | inr (node, found) ↦ elim (Bool-cases (elem node_id s.visited)) [
      | inl old ↦ skip e (inr old) (rw (e, found, old) refl)
      | inr new ↦ inside e node found new (rw (e, found, new) refl)
    ]
  ]
]

pub data ChildCase (call : String → Walk → Option Walk) (node_id c : String) (s : Walk)
    : Type 0 where
  self :
      (c == node_id) ≡ true
      → visit_child call node_id c s ≡ some (report (self_loop node_id) s)
      → ChildCase call node_id c s
  down :
      (c == node_id) ≡ false → visit_child call node_id c s ≡ call c s → ChildCase call node_id c s

pub visit_child_cases :
    (call : String → Walk → Option Walk) (node_id c : String) (s : Walk)
    → ChildCase call node_id c s
unfolding visit_child
visit_child_cases call node_id c s = elim (Bool-cases (c == node_id)) [
  | inl e ↦ self e (rw e refl)
  | inr e ↦ down e (rw e refl)
]
