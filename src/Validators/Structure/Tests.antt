-- ===== src/Validators/Structure/Tests.antt =====
-- The structure check on small trees.
use hmta_service.Prelude.{String, none, some, List, [], ◌∷◌, ◌≡◌, refl}
use hmta_service.Prelude.Dict.{lookup}
use hmta_service.Validators.{BtNode, Bt, self_loop, cycle_detected, unreachable_node}
use hmta_service.Validators.Structure.{
  check_node_id, unresolved, check_composite, check_leaf, check_decorator, check_node, check_nodes,
  visit_child, visit_children, visit_node, walk, unreachable, check_structure_integrity,
}

abbrev node : String → String → List String → BtNode
node id type children = record {
  node_id = some id;
  node_type = type;
  name = none;
  entity = none;
  intent = none;
  children = children;
}

abbrev two_leaves : Bt
two_leaves = record {
  root_id = "r";
  nodes =
      ("r", node "r" "sequence" ("a" ∷ "b" ∷ []))
      ∷ ("a", node "a" "action" [])
      ∷ ("b", node "b" "condition" [])
      ∷ [];
}

abbrev looped : Bt
looped = record {
  root_id = "r";
  nodes =
      ("r", node "r" "sequence" ("a" ∷ "r" ∷ []))
      ∷ ("a", node "a" "retry" ("r" ∷ []))
      ∷ ("b", node "b" "condition" [])
      ∷ [];
}

two_leaves_pass : check_structure_integrity two_leaves ≡ some []
unfolding check_structure_integrity check_node_id unresolved check_composite check_leaf
    check_decorator check_node check_nodes visit_child visit_children visit_node walk unreachable
    lookup
two_leaves_pass = refl

looped_fails :
    check_structure_integrity looped
    ≡ some (cycle_detected "r" ("r" ∷ "a" ∷ "r" ∷ []) ∷ self_loop "r" ∷ unreachable_node "b" ∷ [])
unfolding check_structure_integrity check_node_id unresolved check_composite check_leaf
    check_decorator check_node check_nodes visit_child visit_children visit_node walk unreachable
    lookup
looped_fails = refl
