-- ===== src/Command/Registry/Import.antt =====
-- What the import of capabilities from the graph leaves
-- (app/execution/command/command_resolver.py, `sync_capabilities_from_graph`).
use hmta_service.Prelude.{
  String, Bool, ◌||◌, ◌&&◌, List, [], ◌∷◌, ◌==◌, ◌≡◌, ◌≢◌, inl, inr, refl, ap, ◌∙◌, arith, elem,
  any, eq_of_==, Bool-cases,
}
use hmta_service.Prelude.Dict.{lookup-put}
use hmta_service.Command.{CommandResolver}
use hmta_service.Command.Registry.{
  GraphNode, graph_caps, elem-union, elem-graph_caps, caps_of, merge_caps, sync_node,
  sync_capabilities_from_graph,
}

-- The node is the entity's, and has the capability on one of its edges.
abbrev pub provides : String → String → GraphNode → Bool
provides id k n = n.kind == "entity" && (n.id == id && any (elem k) n.capability_edges)

module _ {Params Payload : Type 0} where
  elem-merge_caps :
      (nid id k : String) (cs : List String) (r : CommandResolver Params Payload)
      → elem k (caps_of (merge_caps nid cs r) id)
        ≡ ((nid == id && elem k cs) || elem k (caps_of r id))
  elem-merge_caps nid id k [] r = ground arith
  elem-merge_caps nid id k (c ∷ cs) r = elim (Bool-cases (nid == id)) [
    | inr e ↦ rw (lookup-put nid id, e) refl
    | inl e ↦
        rw (lookup-put nid id, e)
          (elem-union k (caps_of r nid) (c ∷ cs)
            ∙ ap (λ j. elem k (caps_of r j) || elem k (c ∷ cs)) (eq_of_== nid id e)
            ∙ ground arith)
  ]

  elem-sync_node :
      (n : GraphNode) (id k : String) (r : CommandResolver Params Payload)
      → k ≢ id
      → elem k (caps_of (sync_node n r) id) ≡ (provides id k n || elem k (caps_of r id))
  unfolding sync_node
  elem-sync_node n id k r apart = elim (Bool-cases (n.kind == "entity")) [
    | inr e ↦ rw e refl
    | inl e ↦ rw e (
        elem-merge_caps n.id id k (graph_caps n.id n.capability_edges []) r
        ∙ elim (Bool-cases (n.id == id)) [
          | inr q ↦ rw q refl
          | inl q ↦ rw q (
              ap (λ b. b || elem k (caps_of r id))
                (elem-graph_caps k n.id n.capability_edges [] (λ p. apart (p ∙ eq_of_== n.id id q))
                  ∙ ground arith))
        ])
  ]

  -- After the import an entity has exactly the capabilities that it had before, and those that
  -- stand beside it on a capability edge of one of its nodes.
  pub elem-sync_capabilities_from_graph :
      (ns : List GraphNode) (id k : String) (r : CommandResolver Params Payload)
      → k ≢ id
      → elem k (caps_of (sync_capabilities_from_graph ns r) id)
        ≡ (any (provides id k) ns || elem k (caps_of r id))
  unfolding sync_capabilities_from_graph
  elem-sync_capabilities_from_graph [] id k r apart = refl
  elem-sync_capabilities_from_graph (n ∷ ns) id k r apart =
      elem-sync_capabilities_from_graph ns id k (sync_node n r) apart
      ∙ ap (λ b. any (provides id k) ns || b) (elem-sync_node n id k r apart)
      ∙ ground arith
