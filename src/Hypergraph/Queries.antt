-- ===== src/Hypergraph/Queries.antt =====
-- The queries on the graph.
use hmta_service.Prelude.{
  elem, not, filter, discard, map, all, none, some, true, false, [], String, Option, Bool, List,
  ◌==◌, ◌||◌, ◌++◌, ◌∷◌, ◌&&◌, if◌then◌else◌,
}
use hmta_service.Hypergraph.{or_default, empty_graph, add_edge, HEdge, HNode, HyperGraph, add_node}
use hmta_service.Prelude.Dict.{lookup, Dict}

abbrev pub kind_fits : Option String → String → Bool
kind_fits none kind = true
kind_fits (some wanted) kind = wanted == "" || kind == wanted

abbrev pub is_online : HNode → Bool
is_online n = not (or_default (lookup "status" n.attrs) "online" == "offline")

-- Every element of the one stands in the other.
abbrev pub within : List String → List String → Bool
within xs ys = all (λ x. elem x ys) xs

module _ {W : Type 0} where
  abbrev pub keep : Bool → HEdge W → List (HEdge W) → List (HEdge W)
  keep true e rest = e ∷ rest
  keep false e rest = rest

  abbrev pub edges_in : (HEdge W → Bool) → Dict (HEdge W) → List (HEdge W)
  edges_in p [] = []
  edges_in p ((k, e) ∷ rest) = keep (p e) e (edges_in p rest)

  unfoldable pub edges_of : HyperGraph W → String → Option String → List (HEdge W)
  edges_of g node_id edge_kind =
      edges_in (λ e. elem node_id e.nodes && kind_fits edge_kind e.kind) g.edges

  abbrev pub all_nodes : List (HEdge W) → List String
  all_nodes [] = []
  all_nodes (e ∷ es) = e.nodes ++ all_nodes es

  unfoldable pub neighbors : HyperGraph W → String → Option String → List String
  unfolding edges_of
  neighbors g node_id edge_kind = discard node_id (all_nodes (edges_of g node_id edge_kind))

  -- The kind of a node, as `none` where there is no such node.
  abbrev pub kind_of : HyperGraph W → String → Option String
  kind_of g id = elim (lookup id g.nodes) [ none ↦ none | some n ↦ some n.kind ]

  abbrev pub is_kind : HyperGraph W → String → String → Bool
  is_kind g kind id = elim (kind_of g id) [ none ↦ false | some k ↦ k == kind ]

  abbrev weighted : HyperGraph W → String → List (HEdge W) → List (String × W)
  weighted g kind [] = []
  weighted g kind (e ∷ es) =
      map (λ id. (id, e.weight)) (filter (is_kind g kind) e.nodes) ++ weighted g kind es

  abbrev insert_by_weight : (W → W → Bool) → String × W → List (String × W) → List (String × W)
  insert_by_weight less x [] = x ∷ []
  insert_by_weight less x (y ∷ ys) =
      if less x.1 y.1 then y ∷ insert_by_weight less x ys else x ∷ y ∷ ys

  abbrev by_weight : (W → W → Bool) → List (String × W) → List (String × W)
  by_weight less [] = []
  by_weight less (x ∷ xs) = insert_by_weight less x (by_weight less xs)

  -- `less` compares weights.
  unfoldable pub entities_with_capability :
      (W → W → Bool) → HyperGraph W → String → List (String × W)
  entities_with_capability less g cap_id = by_weight less (
      weighted g "entity"
        (edges_in (λ e. e.kind == "has_capability" && elem cap_id e.nodes) g.edges))

  unfoldable pub capabilities_for_task : HyperGraph W → String → List (String × W)
  capabilities_for_task g task_id =
      weighted g "capability" (edges_in (λ e. e.kind == "requires" && elem task_id e.nodes) g.edges)

  unfoldable pub find_collaborations : HyperGraph W → String → List (HEdge W)
  find_collaborations g task_id =
      edges_in (λ e. e.kind == "collaborates" && elem task_id e.nodes) g.edges

  unfoldable pub tasks_depending_on : HyperGraph W → String → List String
  tasks_depending_on g task_id =
      discard task_id
        (all_nodes (edges_in (λ e. e.kind == "depends_on" && elem task_id e.nodes) g.edges))

  abbrev providers : String → HEdge W → List String
  providers task_id e = elim (lookup "dependent" e.attrs) [
    | none ↦ if elem task_id e.nodes then discard task_id e.nodes else []
    | some d ↦ elim (lookup "provider" e.attrs) [
      | none ↦ []
      | some p ↦ if d == task_id && not (p == "") then p ∷ [] else []
    ]
  ]

  abbrev all_providers : String → List (HEdge W) → List String
  all_providers task_id [] = []
  all_providers task_id (e ∷ es) = providers task_id e ++ all_providers task_id es

  unfoldable pub task_dependencies : HyperGraph W → String → List String
  task_dependencies g task_id =
      all_providers task_id (edges_in (λ e. e.kind == "depends_on") g.edges)

  abbrev pub nodes_at : HyperGraph W → String → List String → List HNode
  nodes_at g kind [] = []
  nodes_at g kind (id ∷ ids) =
      (elim (lookup id g.nodes) [ none ↦ [] | some n ↦ if n.kind == kind then n ∷ [] else [] ])
      ++ nodes_at g kind ids

  unfoldable pub devices_of : HyperGraph W → String → List HNode
  devices_of g entity_id = nodes_at g "device" (
      discard entity_id
        (all_nodes (edges_in (λ e. e.kind == "equips" && elem entity_id e.nodes) g.edges)))

  unfoldable pub channels_of_device : HyperGraph W → String → List String
  channels_of_device g device_id = filter (is_kind g "channel") (
      discard device_id
        (all_nodes (edges_in (λ e. e.kind == "provides" && elem device_id e.nodes) g.edges)))

  abbrev channels_of : HyperGraph W → List HNode → List String
  channels_of g [] = []
  channels_of g (d ∷ ds) =
      (if is_online d then channels_of_device g d.id else []) ++ channels_of g ds

  unfoldable pub available_channels : HyperGraph W → String → List String
  available_channels g entity_id = channels_of g (devices_of g entity_id)

  abbrev pub enabled : HyperGraph W → List String → List (HEdge W) → List String
  enabled g channels [] = []
  enabled g channels (e ∷ es) =
      (if within (filter (is_kind g "channel") e.nodes) channels
        then filter (is_kind g "capability") e.nodes
        else [])
      ++ enabled g channels es

  unfoldable pub capabilities_enabled_by : HyperGraph W → List String → List String
  capabilities_enabled_by g channels =
      enabled g channels (edges_in (λ e. e.kind == "enables") g.edges)

  abbrev copy_nodes : List String → HyperGraph W → HyperGraph W → HyperGraph W
  copy_nodes [] g sub = sub
  copy_nodes (id ∷ ids) g sub =
      copy_nodes ids g (elim (lookup id g.nodes) [ none ↦ sub | some n ↦ add_node n sub ])

  abbrev copy_edges : List String → Dict (HEdge W) → HyperGraph W → HyperGraph W
  copy_edges ids [] sub = sub
  copy_edges ids ((k, e) ∷ rest) sub =
      copy_edges ids rest (if within e.nodes ids then add_edge e sub else sub)

  unfoldable pub subgraph : List String → HyperGraph W → HyperGraph W
  unfolding add_node add_edge
  subgraph ids g = copy_edges ids g.edges (copy_nodes ids g empty_graph)
