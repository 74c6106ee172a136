-- ===== src/Hypergraph.antt =====
-- app/capability/hypergraph.py: nodes, and edges that join any number of them. An edge's set of
-- nodes is a list of which the order means nothing; weights are of any type with an order.
pub mod Queries
pub mod Laws
pub mod RoundTrip
use hmta_service.Prelude.{
  elem, not, filter, add, some, true, false, [], String, Option, Bool, List, ◌∷◌, if◌then◌else◌,
}
use hmta_service.Prelude.Dict.{Dict, remove, put}
use hmta_service.Command.Status.{or_default}
use Prim.Native.Nat.{Ordering}
use Prim.Native.String.{compare}

-- What an attribute holds, as far as the queries read it: a text.
pub record HNode : Type 0 where
  pub id : String
  pub kind : String
  pub attrs : Dict String

pub record HEdge (W : Type 0) : Type 0 where
  pub id : String
  pub kind : String
  pub nodes : List String
  pub weight : W
  pub attrs : Dict String

pub record HyperGraph (W : Type 0) : Type 0 where
  pub nodes : Dict HNode
  pub edges : Dict (HEdge W)

-- The serialised form; what a dictionary may leave out is optional.
pub record NodeData : Type 0 where
  pub kind : String
  pub attrs : Option (Dict String)

pub record EdgeData (W : Type 0) : Type 0 where
  pub kind : String
  pub nodes : List String
  pub weight : Option W
  pub attrs : Option (Dict String)

pub record GraphData (W : Type 0) : Type 0 where
  pub nodes : Option (Dict NodeData)
  pub edges : Option (Dict (EdgeData W))

-- `frozenset`: each element once.
unfoldable pub frozenset : List String → List String
frozenset [] = []
frozenset (x ∷ xs) = add x (frozenset xs)

abbrev pub before : Ordering → Bool
before Ordering.gt = false
before _ = true

abbrev pub insert_sorted : String → List String → List String
insert_sorted x [] = x ∷ []
insert_sorted x (y ∷ ys) = if before (compare x y) then x ∷ y ∷ ys else y ∷ insert_sorted x ys

unfoldable pub sorted : List String → List String
sorted [] = []
sorted (x ∷ xs) = insert_sorted x (sorted xs)

abbrev pub node_data : Dict HNode → Dict NodeData
node_data [] = []
node_data ((k, n) ∷ rest) = (k, record { kind = n.kind; attrs = some n.attrs }) ∷ node_data rest

module _ {W : Type 0} where
  pub empty_graph : HyperGraph W
  empty_graph = record { nodes = []; edges = [] }

  unfoldable pub add_node : HNode → HyperGraph W → HyperGraph W
  add_node n g = record g { nodes = put n.id n g.nodes }

  abbrev pub without : String → Dict (HEdge W) → Dict (HEdge W)
  without node_id = filter (λ entry. not (elem node_id entry.1.nodes))

  unfoldable pub remove_node : String → HyperGraph W → HyperGraph W
  remove_node node_id g = record g {
    nodes = remove node_id g.nodes;
    edges = without node_id g.edges;
  }

  unfoldable pub add_edge : HEdge W → HyperGraph W → HyperGraph W
  add_edge e g = record g { edges = put e.id e g.edges }

  unfoldable pub remove_edge : String → HyperGraph W → HyperGraph W
  remove_edge edge_id g = record g { edges = remove edge_id g.edges }

  abbrev pub edge_data : Dict (HEdge W) → Dict (EdgeData W)
  edge_data [] = []
  edge_data ((k, e) ∷ rest) =
      (
        k,
        record {
          kind = e.kind;
          nodes = sorted e.nodes;
          weight = some e.weight;
          attrs = some e.attrs;
        },
      )
      ∷ edge_data rest

  unfoldable pub to_dict : HyperGraph W → GraphData W
  to_dict g = record { nodes = some (node_data g.nodes); edges = some (edge_data g.edges) }

  abbrev pub read_nodes : Dict NodeData → HyperGraph W → HyperGraph W
  read_nodes [] g = g
  read_nodes ((k, d) ∷ rest) g =
      read_nodes rest (add_node (record { id = k; kind = d.kind; attrs = or_default d.attrs [] }) g)

  abbrev pub read_edge : W → String → EdgeData W → HEdge W
  read_edge one k d = record {
    id = k;
    kind = d.kind;
    nodes = frozenset d.nodes;
    weight = or_default d.weight one;
    attrs = or_default d.attrs [];
  }

  abbrev pub read_edges : W → Dict (EdgeData W) → HyperGraph W → HyperGraph W
  read_edges one [] g = g
  read_edges one ((k, d) ∷ rest) g = read_edges one rest (add_edge (read_edge one k d) g)

  -- `one` is the weight 1.0 of an edge that does not say its weight.
  unfoldable pub from_dict : W → GraphData W → HyperGraph W
  unfolding add_node add_edge
  from_dict one d =
      read_edges one (or_default d.edges []) (read_nodes (or_default d.nodes []) empty_graph)
