-- ===== src/Hypergraph/RoundTrip.antt =====
-- The serialised graph is read back as it was.
use hmta_service.Prelude.{
  eq_iff, subst, arith, Bool-cases, sym, ap, All, elem-add, elem, inl, inr, false, [], refl, String,
  Bool, List, ◌∙◌, ◌≡◌, ◌++◌, ◌==◌, ◌||◌, ◌∷◌,
}
use hmta_service.Prelude.Dict.{has_append, IsDict, has, Dict, put}
use hmta_service.Hypergraph.{
  edge_data, node_data, before, read_nodes, read_edges, empty_graph, insert_sorted, to_dict, HNode,
  from_dict, HEdge, add_edge, frozenset, HyperGraph, sorted, add_node,
}
use Prim.Native.String.{compare}

elem-insert_sorted :
    (k x : String) (xs : List String) → elem k (insert_sorted x xs) ≡ ((x == k) || elem k xs)
elem-insert_sorted k x [] = refl
elem-insert_sorted k x (y ∷ ys) = elim (Bool-cases (before (compare x y))) [
  | inl e ↦ rw e refl
  | inr e ↦ rw e (ground (arith, elem-insert_sorted k x ys))
]

elem-sorted : (k : String) (xs : List String) → elem k (sorted xs) ≡ elem k xs
unfolding sorted
elem-sorted k [] = refl
elem-sorted k (x ∷ xs) =
    elem-insert_sorted k x (sorted xs) ∙ ap (λ (b : Bool). (x == k) || b) (elem-sorted k xs)

elem-frozenset : (k : String) (xs : List String) → elem k (frozenset xs) ≡ elem k xs
unfolding frozenset
elem-frozenset k [] = refl
elem-frozenset k (x ∷ xs) =
    elem-add k x (frozenset xs) ∙ ap (λ (b : Bool). (x == k) || b) (elem-frozenset k xs)

module _ {V : Type 0} where
  put-fresh : (k : String) (v : V) (d : Dict V) → has k d ≡ false → put k v d ≡ d ++ (k, v) ∷ []
  unfolding put
  put-fresh k v [] h = refl
  put-fresh k v ((j, w) ∷ d) h =
      let e : (j == k) ≡ false = ground arith in
      rw e (ap (λ (r : Dict V). (j, w) ∷ r) (put-fresh k v d (ground arith)))

  entry_fresh : (k : String) (v : V) (a b : Dict V) → IsDict (a ++ (k, v) ∷ b) → has k a ≡ false
  entry_fresh k v [] b h = refl
  entry_fresh k v ((j, w) ∷ a) b h =
      ground (arith, has_append k a b v, eq_iff j k, entry_fresh k v a b h.1)

  append_step : (k : String) (v : V) (a b : Dict V) → (a ++ (k, v) ∷ []) ++ b ≡ a ++ (k, v) ∷ b
  append_step k v [] b = refl
  append_step k v (x ∷ a) b = ap (λ (r : Dict V). x ∷ r) (append_step k v a b)

  append_nil : (a : Dict V) → a ++ [] ≡ a
  append_nil [] = refl
  append_nil (x ∷ a) = ap (λ (r : Dict V). x ∷ r) (append_nil a)

module _ {W : Type 0} where
  -- Keys are the ids of what they name, and no key stands twice.
  pub record IsGraph (g : HyperGraph W) : Type 0 where
    pub nodes_keyed : All (λ entry. entry.1.id ≡ entry.0) g.nodes
    pub edges_keyed : All (λ entry. entry.1.id ≡ entry.0) g.edges
    pub nodes_once : IsDict g.nodes
    pub edges_once : IsDict g.edges

  -- The same edge, its nodes as a set.
  pub record SameEdge (e f : HEdge W) : Type 0 where
    pub same_id : f.id ≡ e.id
    pub same_kind : f.kind ≡ e.kind
    pub same_nodes : (k : String) → elem k f.nodes ≡ elem k e.nodes
    pub same_weight : f.weight ≡ e.weight
    pub same_attrs : f.attrs ≡ e.attrs

  abbrev pub SameEdges : Dict (HEdge W) → Dict (HEdge W) → Type 0
  SameEdges [] [] = Unit
  SameEdges ((j, e) ∷ d) ((k, f) ∷ d') = (k ≡ j) × SameEdge e f × SameEdges d d'
  SameEdges _ _ = ⊥

  abbrev normal : Dict (HEdge W) → Dict (HEdge W)
  normal [] = []
  normal ((k, e) ∷ d) = (k, record e { id = k; nodes = frozenset (sorted e.nodes) }) ∷ normal d

  has-normal : (k : String) (d : Dict (HEdge W)) → has k (normal d) ≡ has k d
  has-normal k [] = refl
  has-normal k ((j, e) ∷ d) = ap (λ (b : Bool). (j == k) || b) (has-normal k d)

  normal-IsDict : (d : Dict (HEdge W)) → IsDict d → IsDict (normal d)
  normal-IsDict [] h = tt
  normal-IsDict ((j, e) ∷ d) h = (has-normal j d ∙ h.0, normal-IsDict d h.1)

  normal-SameEdges :
      (d : Dict (HEdge W)) → All (λ entry. entry.1.id ≡ entry.0) d → SameEdges d (normal d)
  normal-SameEdges [] h = tt
  normal-SameEdges ((k, e) ∷ d) h = (
    refl,
    record {
      same_id = sym h.0;
      same_kind = refl;
      same_nodes = λ j. elem-frozenset j (sorted e.nodes) ∙ elem-sorted j e.nodes;
      same_weight = refl;
      same_attrs = refl;
    },
    normal-SameEdges d h.1,
  )

  read_nodes-node_data :
      (d : Dict HNode) (g : HyperGraph W)
      → All (λ entry. entry.1.id ≡ entry.0) d
      → IsDict (g.nodes ++ d)
      → read_nodes (node_data d) g ≡ record g { nodes = g.nodes ++ d }
  unfolding add_node
  read_nodes-node_data [] g keyed once =
      ap (λ (n : Dict HNode). record g { nodes = n }) (sym (append_nil g.nodes))
  read_nodes-node_data ((k, n) ∷ d) g keyed once =
      let same : record n { id = k } ≡ n = ap (λ (x : String). record n { id = x }) (sym keyed.0) in
      let stored : put k (record n { id = k }) g.nodes ≡ g.nodes ++ (k, n) ∷ [] =
        put-fresh k (record n { id = k }) g.nodes (entry_fresh k n g.nodes d once)
        ∙ ap (λ (m : HNode). g.nodes ++ (k, m) ∷ []) same in
      ap (λ (x : Dict HNode). read_nodes (node_data d) (record g { nodes = x })) stored
      ∙ read_nodes-node_data d (record g { nodes = g.nodes ++ (k, n) ∷ [] }) keyed.1
          (rw (append_step k n g.nodes d) once)
      ∙ ap (λ (x : Dict HNode). record g { nodes = x }) (append_step k n g.nodes d)

  read_edges-edge_data :
      (one : W) (d : Dict (HEdge W)) (g : HyperGraph W)
      → IsDict (g.edges ++ normal d)
      → read_edges one (edge_data d) g ≡ record g { edges = g.edges ++ normal d }
  unfolding add_edge
  read_edges-edge_data one [] g once =
      ap (λ (n : Dict (HEdge W)). record g { edges = n }) (sym (append_nil g.edges))
  read_edges-edge_data one ((k, e) ∷ d) g once =
      let f : HEdge W = record e { id = k; nodes = frozenset (sorted e.nodes) } in
      let stored : put k f g.edges ≡ g.edges ++ (k, f) ∷ [] =
        put-fresh k f g.edges (entry_fresh k f g.edges (normal d) once) in
      ap (λ (x : Dict (HEdge W)). read_edges one (edge_data d) (record g { edges = x })) stored
      ∙ read_edges-edge_data one d (record g { edges = g.edges ++ (k, f) ∷ [] })
          (rw (append_step k f g.edges (normal d)) once)
      ∙ ap (λ (x : Dict (HEdge W)). record g { edges = x }) (append_step k f g.edges (normal d))

  -- What a graph is written to is read back as the same nodes, in their order, and the same edges:
  -- each with its id, kind, weight and attributes, and with the same set of nodes.
  pub from_dict-to_dict :
      (one : W) (g : HyperGraph W)
      → IsGraph g
      → ((from_dict one (to_dict g)).nodes ≡ g.nodes)
        × SameEdges g.edges (from_dict one (to_dict g)).edges
  unfolding from_dict to_dict empty_graph
  from_dict-to_dict one g valid =
      let read : from_dict one (to_dict g) ≡ record g { edges = normal g.edges } =
        ap (λ (h : HyperGraph W). read_edges one (edge_data g.edges) h)
          (read_nodes-node_data g.nodes empty_graph valid.nodes_keyed valid.nodes_once)
        ∙ read_edges-edge_data one g.edges (record g { edges = [] })
            (normal-IsDict g.edges valid.edges_once) in
      (
        ap (λ (h : HyperGraph W). h.nodes) read,
        subst (λ (h : HyperGraph W). SameEdges g.edges h.edges) (sym read)
            (normal-SameEdges g.edges valid.edges_keyed),
      )
