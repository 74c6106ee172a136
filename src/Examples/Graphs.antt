-- ===== src/Examples/Graphs.antt =====
-- An operator with a ring, and what its channel enables.
use hmta_service.Prelude.{elem, none, some, false, [], refl, ℕ, String, List, ◌≡◌, ◌∷◌}
use hmta_service.Hypergraph.Queries.{
  neighbors, capabilities_enabled_by, channels_of_device, edges_of, devices_of, available_channels,
}
use hmta_service.Hypergraph.{remove_node, to_dict, HyperGraph, HNode, HEdge, from_dict}
use hmta_service.Prelude.Dict.{lookup}
use hmta_service.Hypergraph.RoundTrip.{from_dict-to_dict, SameEdges, IsGraph}
use hmta_service.Hypergraph.Laws.{remove_node_lem}

abbrev node_of : String → String → HNode
node_of id kind = record { id = id; kind = kind; attrs = [] }

abbrev edge_of : String → String → List String → HEdge ℕ
edge_of id kind nodes = record { id = id; kind = kind; nodes = nodes; weight = 10; attrs = [] }

abbrev equipment : HyperGraph ℕ
equipment = record {
  nodes =
      ("op", node_of "op" "entity")
      ∷ ("ring", node_of "ring" "device")
      ∷ ("tap", node_of "tap" "channel")
      ∷ ("approve", node_of "approve" "capability")
      ∷ [];
  edges =
      ("e1", edge_of "e1" "equips" ("ring" ∷ "op" ∷ []))
      ∷ ("e2", edge_of "e2" "provides" ("ring" ∷ "tap" ∷ []))
      ∷ ("e3", edge_of "e3" "enables" ("tap" ∷ "approve" ∷ []))
      ∷ [];
}

-- The ring's channel is the operator's, and approves.
ring_approves :
    (available_channels equipment "op" ≡ "tap" ∷ [])
    × (capabilities_enabled_by equipment (available_channels equipment "op") ≡ "approve" ∷ [])
unfolding available_channels devices_of channels_of_device capabilities_enabled_by lookup
ring_approves = (refl, refl)

equipment-IsGraph : IsGraph equipment
equipment-IsGraph = record {
  nodes_keyed = (refl, (refl, (refl, (refl, tt))));
  edges_keyed = (refl, (refl, (refl, tt)));
  nodes_once = (refl, (refl, (refl, (refl, tt))));
  edges_once = (refl, (refl, (refl, tt)));
}

from_dict-to_dict_example :
    ((from_dict 10 (to_dict equipment)).nodes ≡ equipment.nodes)
    × SameEdges equipment.edges (from_dict 10 (to_dict equipment)).edges
from_dict-to_dict_example = from_dict-to_dict 10 equipment equipment-IsGraph

remove_node_lem_example :
    (lookup "tap" (remove_node "ring" equipment).nodes ≡ some (node_of "tap" "channel"))
    × (edges_of (remove_node "ring" equipment) "ring" none ≡ [])
    × (elem "ring" (neighbors (remove_node "ring" equipment) "tap" none) ≡ false)
    × (edges_of (remove_node "ring" equipment) "tap" none
        ≡ edge_of "e3" "enables" ("tap" ∷ "approve" ∷ []) ∷ [])
unfolding lookup edges_of
remove_node_lem_example = remove_node_lem equipment "ring" "tap" none
