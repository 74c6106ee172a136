-- ===== src/Examples/Tree.antt =====
-- A small behaviour tree through the validators and the repair loop.
use hmta_service.Prelude.{Option, String, none, some, false, List, [], ◌∷◌, ◌≡◌, ◌↔◌, refl, All}
use hmta_service.Prelude.Text.{strip, lower, contains}
use hmta_service.Validators.{BtNode, Bt, named, entry, Entity, Violation}
use hmta_service.Validators.Structure.{check_structure_integrity}
use hmta_service.Validators.Structure.Total.{check_structure_integrity_total}
use hmta_service.Validators.Structure.Sound.{IsWellFormed}
use hmta_service.Validators.Structure.Complete.{check_structure_integrity_iff}
use hmta_service.Validators.Capability.{matches_any_capability, check_capability_match}
use hmta_service.Validators.Capability.Exact.{IsCapable, check_capability_match_iff}
use hmta_service.Validators.Safety.{IsSafe, check_safety_constraints, check_safety_constraints_iff}
use hmta_service.Validators.Gate.{
  GenerationState, Report, IsAdmissible, passed, validator_node, validator_node_passes,
}
use hmta_service.Validators.Repair.{bt_builder_node, Ending, repair_loop}
use hmta_service.Json.Trees.{
  other_item, node_item, listed, read_tree, keyed, normalize_behavior_tree, object, Json,
  is_behavior_tree, extract_behavior_tree,
}
use hmta_service.Json.{extract_json}
use hmta_service.Prelude.Dict.{put}

abbrev root : BtNode
root = record {
  node_id = some "root";
  node_type = "sequence";
  name = none;
  entity = none;
  intent = none;
  children = "go" ∷ "ask" ∷ [];
}

abbrev leaf : String → String → String → String → BtNode
leaf id type entity intent = record {
  node_id = some id;
  node_type = type;
  name = none;
  entity = some entity;
  intent = some intent;
  children = [];
}

abbrev tree : Bt
tree = record {
  root_id = "root";
  nodes =
      ("root", root)
      ∷ ("go", leaf "go" "action" "dog-1" "Navigate")
      ∷ ("ask", leaf "ask" "humanGate" "op-1" "approve")
      ∷ [];
}

-- The same tree with a way back from `go` to the root.
abbrev cyclic : Bt
cyclic = record {
  root_id = "root";
  nodes =
      ("root", root)
      ∷ ("go", record (leaf "go" "retry" "dog-1" "navigate") { children = "root" ∷ [] })
      ∷ ("ask", leaf "ask" "humanGate" "op-1" "approve")
      ∷ [];
}

abbrev entities : List Entity
entities =
    record { entity_id = "dog-1"; status = some "idle"; capabilities = named "navigation" ∷ [] }
    ∷ record { entity_id = "op-1"; status = none; capabilities = entry "approve" "approval" ∷ [] }
    ∷ []

abbrev state : GenerationState
state = record {
  behavior_tree = tree;
  entities = entities;
  priority = "critical";
  violations = none;
  iteration_count = 0;
  max_iterations = none;
  generation_trace = [];
}

-- The documented example of a match by parts is none: `navigate` is not in `navigation`.
intent_in_part : matches_any_capability "Navigate" (("navigation", "navigation") ∷ []) ≡ false
unfolding matches_any_capability strip lower contains
intent_in_part = refl

check_structure_integrity_total_example :
    (vs : List Violation) × (check_structure_integrity cyclic ≡ some vs)
check_structure_integrity_total_example = check_structure_integrity_total cyclic

check_structure_integrity_iff_example :
    (check_structure_integrity tree ≡ some []) ↔ IsWellFormed tree
check_structure_integrity_iff_example = check_structure_integrity_iff tree

check_capability_match_iff_example :
    (check_capability_match tree entities ≡ [])
    ↔ All (λ entry. IsCapable entities entry.1) tree.nodes
check_capability_match_iff_example = check_capability_match_iff tree entities

check_safety_constraints_iff_example :
    (check_safety_constraints tree entities "critical" ≡ []) ↔ IsSafe tree entities "critical"
check_safety_constraints_iff_example = check_safety_constraints_iff tree entities "critical"

validator_node_passes_example :
    (report : Report) × (validator_node state ≡ some report)
    × ((report.validation_result ≡ passed) ↔ IsAdmissible state)
validator_node_passes_example = validator_node_passes state

abbrev report : Report
report = (validator_node_passes state).0

abbrev asks : GenerationState → String
asks s = "a tree"

abbrev parses : String → Option Json
parses answer = some (object ("nodes" ∷ "root_id" ∷ []) "root" "" (keyed cyclic.nodes))

abbrev no_fence : String → Option String
no_fence answer = none

-- An answer without a tree ends the loop in its first round.
raises : repair_loop asks (λ answer. none) no_fence 3 3 state ≡ some (Ending.raised state)
unfolding repair_loop bt_builder_node extract_behavior_tree extract_json
raises = refl

-- A list of nodes becomes a dictionary, and its first key the root.
names_nodes :
    read_tree (
      object
        ("nodes" ∷ "tree_id" ∷ [])
        ""
        ""
        (listed (node_item "" "r" root ∷ other_item ∷ node_item "" "" root ∷ [])))
    ≡ some (record { root_id = "r"; nodes = ("r", record root { node_id = some "r" }) ∷ [] })
unfolding is_behavior_tree normalize_behavior_tree put
names_nodes = refl
