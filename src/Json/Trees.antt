-- ===== src/Json/Trees.antt =====
-- app/generation/graph/json_utils.py: `extract_behavior_tree`, the tree in an answer, or an exception.
use hmta_service.Prelude.Options.{◌>>=◌}
use hmta_service.Validators.{Bt, BtNode}
use hmta_service.Json.{extract_json}
use hmta_service.Prelude.Dict.{Dict, put}
use hmta_service.Prelude.{
  ◌==◌, String, Option, none, some, Bool, List, [], ◌∷◌, ◌&&◌, ◌||◌, any, elem, if◌then◌else◌,
}

-- An entry of a list of nodes: a dictionary, of which the node is what is read later, or no
-- dictionary. A missing or empty `node_id` or `id` is the empty text.
pub data Item : Type 0 where
  node_item : String → String → BtNode → Item
  other_item : Item

pub data Nodes : Type 0 where
  no_nodes : Nodes
  keyed : Dict BtNode → Nodes
  listed : List Item → Nodes

-- What the parser returns: a dictionary with its keys and the values that are looked at, or anything
-- else. A missing or empty text is the empty text.
pub data Json : Type 0 where
  object : List String → String → String → Nodes → Json
  other : Json

abbrev pub task_plan_keys : List String
task_plan_keys = "phases" ∷ "subtasks" ∷ "doctrine_notes" ∷ []

unfoldable pub is_behavior_tree : List String → Bool
is_behavior_tree keys = elem "nodes" keys && (elem "root_id" keys || elem "tree_id" keys)

-- `item.get("node_id") or item.get("id")`
abbrev or_text : String → String → String
or_text s t = if s == "" then t else s

unfoldable pub nodes_dict : Dict BtNode → List Item → Dict BtNode
nodes_dict found [] = found
nodes_dict found (other_item ∷ items) = nodes_dict found items
nodes_dict found (node_item node_id id node ∷ items) =
    let nid = or_text node_id id in
    let kept = nodes_dict found items in
    let added = nodes_dict (put nid (record node { node_id = some nid }) found) items in
    if nid == "" then kept else added

abbrev normal_nodes : Nodes → Dict BtNode
normal_nodes no_nodes = []
normal_nodes (keyed nodes) = nodes
normal_nodes (listed items) = nodes_dict [] items

abbrev first_key : Dict BtNode → String
first_key [] = ""
first_key ((k, node) ∷ rest) = k

unfoldable pub normalize_behavior_tree : String → String → Nodes → Bt
unfolding nodes_dict
normalize_behavior_tree root_id tree_id nodes =
    let found = normal_nodes nodes in
    record { root_id = or_text root_id (or_text tree_id (first_key found)); nodes = found }

abbrev accept : Bt → Option Bt
accept bt = elim bt.nodes [ [] ↦ none | entry ∷ rest ↦ some bt ]

abbrev pub read_tree : Json → Option Bt
read_tree other = none
read_tree (object keys root_id tree_id nodes) =
    if any (λ k. elem k keys) task_plan_keys
    then none
    else if is_behavior_tree keys
    then accept (normalize_behavior_tree root_id tree_id nodes)
    else none

-- `none` is an exception: no JSON in the answer, JSON of another shape, a task plan, or no nodes.
unfoldable pub extract_behavior_tree :
    (String → Option Json) → (String → Option String) → String → Option Bt
unfolding is_behavior_tree normalize_behavior_tree
extract_behavior_tree loads fenced text = extract_json loads fenced text >>= read_tree
