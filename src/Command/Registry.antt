-- ===== src/Command/Registry.antt =====
-- app/execution/command/command_resolver.py: `register_entity` and `sync_capabilities_from_graph`.
pub mod Import
use hmta_service.Prelude.{
  String, Option, none, some, Bool, true, false, not, ◌||◌, ◌&&◌, List, [], ◌∷◌, ◌++◌, ◌==◌, ◌≡◌,
  ◌≢◌, ◌⊎◌, inl, inr, refl, sym, ap, ◌∙◌, arith, if◌then◌else◌, elem, add, discard, elem-add, any,
  Bool-cases, eq_of_==, ==_refl, ==_of_ne,
}
use hmta_service.Prelude.Dict.{Dict, lookup, has, put, lookup-put, lookup-put_self, has-eq-false}
use hmta_service.Command.{Capability, text, dict, EntityInfo, CommandResolver}
use hmta_service.Command.Status.{or_default}

abbrev pub is_nil {ℓ} : {A : Type ℓ} → List A → Bool
is_nil [] = true
is_nil (_ ∷ _) = false

abbrev non_empty : String → String → String
non_empty s other = if s == "" then other else s

unfoldable pub has_cap_fields : EntityInfo → Bool
has_cap_fields e = elim e.capabilities [
  | some _ ↦ true
  | none ↦ elim e.structured_capabilities [
    | some _ ↦ true
    | none ↦ elim e.structured_capabilities_camel [ some _ ↦ true | none ↦ false ]
  ]
]

-- The names of the field `capabilities`.
abbrev add_plain : List Capability → List String → List String
add_plain [] caps = caps
add_plain (text s ∷ rest) caps = add_plain rest (add s caps)
add_plain (dict _ name ∷ rest) caps = add_plain rest (add (or_default name "") caps)

-- The names of the structured capabilities; a plain text is passed over.
abbrev add_structured : List Capability → List String → List String
add_structured [] caps = caps
add_structured (text s ∷ rest) caps = add_structured rest caps
add_structured (dict id name ∷ rest) caps =
    let n = non_empty (or_default id "") (or_default name "") in
    add_structured rest (if n == "" then caps else add n caps)

abbrev sc_list : EntityInfo → List Capability
sc_list e = elim (or_default e.structured_capabilities []) [
  | [] ↦ or_default e.structured_capabilities_camel []
  | c ∷ cs ↦ c ∷ cs
]

-- The set that the payload of an entity names.
unfoldable pub entity_caps : EntityInfo → List String
entity_caps e =
    discard "" (add_structured (sc_list e) (add_plain (or_default e.capabilities []) []))

-- An entity node of the capability graph, with the nodes of each of its `has_capability` edges.
pub record GraphNode : Type 0 where
  pub id : String
  pub kind : String
  pub entity_type : String
  pub capability_edges : List (List String)

-- The peers on the edges, without the node itself.
abbrev pub add_peers : String → List String → List String → List String
add_peers nid [] caps = caps
add_peers nid (peer ∷ peers) caps =
    add_peers nid peers (if peer == nid then caps else add peer caps)

abbrev pub graph_caps : String → List (List String) → List String → List String
graph_caps nid [] caps = caps
graph_caps nid (edge ∷ edges) caps = graph_caps nid edges (add_peers nid edge caps)

-- `existing | caps`
abbrev pub union : List String → List String → List String
union [] caps = caps
union (x ∷ xs) caps = add x (union xs caps)

abbrev named_entity : String → EntityInfo
named_entity nid = record {
  is_blank = false;
  entity_id = nid;
  entity_type = none;
  status = none;
  comm_status = none;
  capabilities = none;
  structured_capabilities = none;
  structured_capabilities_camel = none;
}

abbrev with_type : String → EntityInfo → EntityInfo
with_type etype e =
    if etype == "" then e else record e { entity_type = some etype; is_blank = false }

module _ {Params Payload : Type 0} where
  abbrev pub caps_of : CommandResolver Params Payload → String → List String
  caps_of r entity_id = or_default (lookup entity_id r.capabilities) []

  unfoldable pub register_entity :
      EntityInfo → CommandResolver Params Payload → CommandResolver Params Payload
  register_entity e r =
      let r' : CommandResolver Params Payload = record r { schema = put e.entity_id e r.schema } in
      if not (has_cap_fields e)
      then r'
      else if not (is_nil (entity_caps e)) || not (has e.entity_id r.capabilities)
      then record r' { capabilities = put e.entity_id (entity_caps e) r.capabilities }
      else r'

  abbrev pub merge_caps :
      String → List String → CommandResolver Params Payload → CommandResolver Params Payload
  merge_caps nid [] r = r
  merge_caps nid (c ∷ cs) r = record r {
    capabilities = put nid (union (caps_of r nid) (c ∷ cs)) r.capabilities;
  }

  unfoldable pub sync_node :
      GraphNode → CommandResolver Params Payload → CommandResolver Params Payload
  sync_node n r =
      let r' = merge_caps n.id (graph_caps n.id n.capability_edges []) r in
      let e = or_default (lookup n.id r.schema) (named_entity n.id) in
      if n.kind == "entity"
      then record r' { schema = put n.id (with_type n.entity_type e) r.schema }
      else r

  unfoldable pub sync_capabilities_from_graph :
      List GraphNode → CommandResolver Params Payload → CommandResolver Params Payload
  unfolding sync_node
  sync_capabilities_from_graph [] r = r
  sync_capabilities_from_graph (n ∷ ns) r = sync_capabilities_from_graph ns (sync_node n r)

  -- A registration leaves the capabilities of every other entity; those of its own entity it
  -- replaces by the set that the payload names, or leaves as they were, and the known set of an
  -- entity is never replaced by an empty one.
  pub register_entity_capabilities :
      (e : EntityInfo) (r : CommandResolver Params Payload) (id : String)
      → (caps_of (register_entity e r) id ≡ caps_of r id)
        ⊎ ((id ≡ e.entity_id)
            × (caps_of (register_entity e r) id ≡ entity_caps e)
            × ((is_nil (entity_caps e) ≡ false) ⊎ (lookup id r.capabilities ≡ none)))
  unfolding register_entity
  register_entity_capabilities e r id = elim (Bool-cases (has_cap_fields e)) [
    | inr f ↦ inl (rw f refl)
    | inl f ↦
        elim (Bool-cases (not (is_nil (entity_caps e)) || not (has e.entity_id r.capabilities))) [
          | inr g ↦ inl (rw (f, g) refl)
          | inl g ↦ elim (Bool-cases (e.entity_id == id)) [
            | inr q ↦ inl (rw (f, g, lookup-put e.entity_id id, q) refl)
            | inl q ↦
                let same = sym (eq_of_== e.entity_id id q) in
                inr (
                  same,
                  rw (f, g, lookup-put e.entity_id id, q) refl,
                  elim (Bool-cases (is_nil (entity_caps e))) [
                    | inr n ↦ inl n
                    | inl n ↦ inr (
                        ap (λ k. lookup k r.capabilities) same
                        ∙ has-eq-false e.entity_id r.capabilities (ground (arith, g, n)))
                  ],
                )
          ]
        ]
  ]

pub elem-union :
    (k : String) (xs ys : List String) → elem k (union xs ys) ≡ (elem k xs || elem k ys)
elem-union k [] ys = refl
elem-union k (x ∷ xs) ys = elem-add k x (union xs ys) ∙ ground (arith, elem-union k xs ys)

elem-add_peers :
    (k nid : String) (peers caps : List String)
    → k ≢ nid
    → elem k (add_peers nid peers caps) ≡ (elem k peers || elem k caps)
elem-add_peers k nid [] caps apart = refl
elem-add_peers k nid (p ∷ peers) caps apart = elim (Bool-cases (p == nid)) [
  | inl e ↦
      let other : (p == k) ≡ false = ==_of_ne p k (λ q. apart (sym q ∙ eq_of_== p nid e)) in
      rw (e, other) (elem-add_peers k nid peers caps apart)
  | inr e ↦ rw e (
      elem-add_peers k nid peers (add p caps) apart
      ∙ ap (λ b. elem k peers || b) (elem-add k p caps)
      ∙ ground arith)
]

pub elem-graph_caps :
    (k nid : String) (edges : List (List String)) (caps : List String)
    → k ≢ nid
    → elem k (graph_caps nid edges caps) ≡ (any (elem k) edges || elem k caps)
elem-graph_caps k nid [] caps apart = refl
elem-graph_caps k nid (edge ∷ edges) caps apart =
    elem-graph_caps k nid edges (add_peers nid edge caps) apart
    ∙ ap (λ b. any (elem k) edges || b) (elem-add_peers k nid edge caps apart)
    ∙ ground arith
