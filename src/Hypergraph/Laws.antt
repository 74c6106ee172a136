-- ===== src/Hypergraph/Laws.antt =====
-- What the changes of the graph of app/capability/hypergraph.py do, and what the queries see of them.
use hmta_service.Prelude.{
  elem-discard, ap, elem-append, not, sym, arith, Bool-cases, filter, elem, none, inl, inr, true,
  false, [], refl, String, Option, Bool, List, ◌∷◌, ◌≡◌, ◌∙◌, ◌||◌, ◌&&◌, ◌==◌, if◌then◌else◌,
}
use hmta_service.Hypergraph.{without, HyperGraph, HEdge, remove_node}
use hmta_service.Prelude.Dict.{lookup-remove, lookup, Dict}
use hmta_service.Hypergraph.Queries.{
  is_kind, edges_in, capabilities_enabled_by, enabled, all_nodes, kind_fits, neighbors, edges_of,
  within,
}

module _ {W : Type 0} where
  edges_in-without :
      (p : HEdge W → Bool) (n : String) (d : Dict (HEdge W))
      → edges_in p (without n d) ≡ filter (λ e. not (elem n e.nodes)) (edges_in p d)
  edges_in-without p n [] = refl
  edges_in-without p n ((k, e) ∷ d) = elim (Bool-cases (elem n e.nodes)) [
    | inl f ↦ elim (Bool-cases (p e)) [
      | inl q ↦ rw (f, q, f) (edges_in-without p n d)
      | inr q ↦ rw (f, q) (edges_in-without p n d)
    ]
    | inr f ↦ elim (Bool-cases (p e)) [
      | inl q ↦ rw (f, q, f) (ap (λ (l : List (HEdge W)). e ∷ l) (edges_in-without p n d))
      | inr q ↦ rw (f, q) (edges_in-without p n d)
    ]
  ]

  none_left :
      (n : String) (k : Option String) (d : Dict (HEdge W))
      → edges_in (λ e. elem n e.nodes && kind_fits k e.kind) (without n d) ≡ []
  none_left n k [] = refl
  none_left n k ((j, e) ∷ d) = elim (Bool-cases (elem n e.nodes)) [
    | inl f ↦ rw f (none_left n k d)
    | inr f ↦ rw (f, f) (none_left n k d)
  ]

  not_among :
      (n : String) (es : List (HEdge W))
      → elem n (all_nodes (filter (λ e. not (elem n e.nodes)) es)) ≡ false
  not_among n [] = refl
  not_among n (e ∷ es) = elim (Bool-cases (elem n e.nodes)) [
    | inl f ↦ rw f (not_among n es)
    | inr f ↦ rw f (
        elem-append n e.nodes (all_nodes (filter (λ x. not (elem n x.nodes)) es))
        ∙ ground (arith, not_among n es))
  ]

  -- A removed node is gone from the nodes, has no edge, and is nobody's neighbour; other nodes stay,
  -- and any other node keeps exactly its edges that did not join the removed one.
  pub remove_node_lem :
      (g : HyperGraph W) (n other : String) (kind : Option String)
      → (lookup other (remove_node n g).nodes ≡ (if n == other then none else lookup other g.nodes))
        × (edges_of (remove_node n g) n kind ≡ [])
        × (elem n (neighbors (remove_node n g) other kind) ≡ false)
        × (edges_of (remove_node n g) other kind
            ≡ filter (λ e. not (elem n e.nodes)) (edges_of g other kind))
  unfolding remove_node edges_of neighbors
  remove_node_lem g n other kind =
      let p : HEdge W → Bool = λ (e : HEdge W). elem other e.nodes && kind_fits kind e.kind in
      let left = edges_in-without p n g.edges in
      (
        lookup-remove n other g.nodes,
        none_left n kind g.edges,
        elem-discard n other (all_nodes (edges_in p (without n g.edges)))
            ∙ rw left (rw (not_among n (edges_in p g.edges)) (ground arith)),
        left,
      )

within_mono :
    (xs ys zs : List String)
    → ((c : String) → elem c ys ≡ true → elem c zs ≡ true)
    → within xs ys ≡ true
    → within xs zs ≡ true
within_mono [] ys zs more h = refl
within_mono (x ∷ xs) ys zs more h = ground (arith, more x, within_mono xs ys zs more)

module _ {W : Type 0} (g : HyperGraph W) where
  enabled_mono :
      (ys zs : List String) (cap : String) (es : List (HEdge W))
      → ((c : String) → elem c ys ≡ true → elem c zs ≡ true)
      → elem cap (enabled g ys es) ≡ true
      → elem cap (enabled g zs es) ≡ true
  enabled_mono ys zs cap [] more h = h
  enabled_mono ys zs cap (e ∷ es) more h =
      let chs = filter (is_kind g "channel") e.nodes in
      let caps = filter (is_kind g "capability") e.nodes in
      let rest = enabled_mono ys zs cap es more in
      elim (Bool-cases (within chs ys)) [
        | inl f ↦
            let k = within_mono chs ys zs more f in
            let before : (elem cap caps || elem cap (enabled g ys es)) ≡ true =
              sym (elem-append cap caps (enabled g ys es)) ∙ (rw f at h) in
            rw k (elem-append cap caps (enabled g zs es) ∙ ground arith)
        | inr f ↦
            let later = rest (rw f at h) in
            elim (Bool-cases (within chs zs)) [
              | inl k ↦ rw k (elem-append cap caps (enabled g zs es) ∙ ground arith)
              | inr k ↦ rw k later
            ]
      ]

  -- More channels never disable a capability.
  pub capabilities_enabled_by_mono :
      (ys zs : List String) (cap : String)
      → ((c : String) → elem c ys ≡ true → elem c zs ≡ true)
      → elem cap (capabilities_enabled_by g ys) ≡ true
      → elem cap (capabilities_enabled_by g zs) ≡ true
  unfolding capabilities_enabled_by
  capabilities_enabled_by_mono ys zs cap more h =
      enabled_mono ys zs cap (edges_in (λ e. e.kind == "enables") g.edges) more h
