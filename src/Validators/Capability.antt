-- ===== src/Validators/Capability.antt =====
-- app/generation/validators/capability_check.py: an entity must be capable of what it is to do.
pub mod Matching
pub mod Listing
pub mod Exact
use hmta_service.Prelude.{
  String, Option, none, some, Bool, true, ◌||◌, List, [], ◌∷◌, ◌++◌, ◌==◌, ◌≡◌, ◌≢◌, ◌↔◌, refl,
  arith, if◌then◌else◌, elem, any, All, ==_of_ne, ne_of_==, append-eq-nil, Bool-cases, inl, inr,
}
use hmta_service.Prelude.Dict.{Dict, lookup, put}
use hmta_service.Prelude.Options.{some-inj}
use hmta_service.Prelude.Text.{lower, strip, contains}
use hmta_service.Validators.{
  BtNode, Bt, Cap, named, entry, other, Entity, Violation, capability_mismatch,
}

-- An id and a name.
abbrev pub CapNames : Type 0
CapNames = String × String

unfoldable pub cap_names : List Cap → List CapNames
cap_names [] = []
cap_names (named c ∷ cs) = (c, c) ∷ cap_names cs
cap_names (entry id name ∷ cs) = (id, name) ∷ cap_names cs
cap_names (other ∷ cs) = cap_names cs

abbrev pub add_caps : String → List CapNames → Dict (List CapNames) → Dict (List CapNames)
add_caps eid [] found = found
add_caps eid (c ∷ cs) found = put eid (c ∷ cs) found

unfoldable pub capability_map_from : Dict (List CapNames) → List Entity → Dict (List CapNames)
capability_map_from found [] = found
capability_map_from found (e ∷ es) =
    capability_map_from (add_caps e.entity_id (cap_names e.capabilities) found) es

-- An entity without capabilities has no entry: it is not restricted.
unfoldable pub capability_map : List Entity → Dict (List CapNames)
unfolding capability_map_from cap_names
capability_map es = capability_map_from [] es

-- One round of the loop over the capabilities.
unfoldable pub matches_capability : String → CapNames → Bool
matches_capability intent cap =
    let cap_id = strip cap.0 in
    let cap_name = strip cap.1 in
    let intent_lower = strip (lower intent) in
    let id_lower = lower cap_id in
    let name_lower = lower cap_name in
    (intent == cap_id || intent == cap_name)
    || ((intent_lower == id_lower || intent_lower == name_lower)
        || ((contains intent_lower id_lower || contains id_lower intent_lower)
            || (contains intent_lower name_lower || contains name_lower intent_lower)))

unfoldable pub matches_any_capability : String → List CapNames → Bool
unfolding matches_capability
matches_any_capability intent caps = any (matches_capability intent) caps

abbrev pub acting_types : List String
acting_types = "action" ∷ "humanGate" ∷ []

abbrev mismatches : Option (List CapNames) → String → String → String → List Violation
mismatches none node_id entity_id intent = []
mismatches (some caps) node_id entity_id intent =
    if matches_any_capability intent caps
    then []
    else capability_mismatch node_id entity_id intent ∷ []

-- A missing or empty `entity` or `intent` is passed over.
check_acting : Dict (List CapNames) → String → Option String → Option String → List Violation
check_acting found node_id (some e) (some i) =
    if e == "" || i == "" then [] else mismatches (lookup e found) node_id e i
check_acting found node_id _ _ = []

-- The body of the loop over the nodes.
unfoldable pub check_capability : Dict (List CapNames) → String → BtNode → List Violation
unfolding check_acting
check_capability found node_id node =
    if elem node.node_type acting_types
    then check_acting found node_id node.entity node.intent
    else []

unfoldable pub check_capabilities : Dict (List CapNames) → Dict BtNode → List Violation
check_capabilities found [] = []
check_capabilities found ((node_id, node) ∷ rest) =
    check_capability found node_id node ++ check_capabilities found rest

unfoldable pub check_capability_match : Bt → List Entity → List Violation
unfolding check_capabilities capability_map
check_capability_match bt entities = check_capabilities (capability_map entities) bt.nodes

-- What the loop asks of an acting node: if it names an entity that lists capabilities, one of
-- these matches its intent.
abbrev pub IsActingCapable : Dict (List CapNames) → Option String → Option String → Type 0
IsActingCapable found entity intent =
    (e i : String) (caps : List CapNames)
    → entity ≡ some e
    → intent ≡ some i
    → e ≢ ""
    → i ≢ ""
    → lookup e found ≡ some caps
    → matches_any_capability i caps ≡ true

abbrev pub IsPassed : Dict (List CapNames) → BtNode → Type 0
IsPassed found node =
    elem node.node_type acting_types ≡ true → IsActingCapable found node.entity node.intent

mismatches-eq-nil :
    (o : Option (List CapNames)) (node_id e i : String) (caps : List CapNames)
    → mismatches o node_id e i ≡ []
    → o ≡ some caps
    → matches_any_capability i caps ≡ true
mismatches-eq-nil o node_id e i caps h q = elim (Bool-cases (matches_any_capability i caps)) [
  | inl ok ↦ ok
  | inr bad ↦ absurd (ground arith)
]

check_acting-eq-nil :
    (found : Dict (List CapNames)) (node_id : String) (entity intent : Option String)
    → check_acting found node_id entity intent ≡ []
    → IsActingCapable found entity intent
unfolding check_acting
check_acting-eq-nil found node_id none intent h e i caps p q e' i' there = absurd (cc)
check_acting-eq-nil found node_id (some x) none h e i caps p q e' i' there = absurd (cc)
check_acting-eq-nil found node_id (some x) (some y) h e i caps p q e' i' there =
    let ex : x ≡ e = some-inj p in
    let iy : y ≡ i = some-inj q in
    mismatches-eq-nil (lookup e found) node_id e i caps
      (rw (ex, iy, ==_of_ne e "" e', ==_of_ne i "" i') at h) there

matched_nil :
    (o : Option (List CapNames)) (node_id e i : String)
    → ((caps : List CapNames) → o ≡ some caps → matches_any_capability i caps ≡ true)
    → mismatches o node_id e i ≡ []
matched_nil none node_id e i h = refl
matched_nil (some caps) node_id e i h = rw (h caps refl) refl

check_acting_nil :
    (found : Dict (List CapNames)) (node_id : String) (entity intent : Option String)
    → IsActingCapable found entity intent
    → check_acting found node_id entity intent ≡ []
unfolding check_acting
check_acting_nil found node_id none intent h = refl
check_acting_nil found node_id (some x) none h = refl
check_acting_nil found node_id (some x) (some y) h = elim (Bool-cases (x == "")) [
  | inl e ↦ rw e refl
  | inr e ↦ elim (Bool-cases (y == "")) [
    | inl f ↦ rw (e, f) refl
    | inr f ↦
        rw (e, f)
          (matched_nil (lookup x found) node_id x y
            (λ caps there. h x y caps refl refl (ne_of_== x "" e) (ne_of_== y "" f) there))
  ]
]

check_capability_iff :
    (found : Dict (List CapNames)) (node_id : String) (node : BtNode)
    → (check_capability found node_id node ≡ []) ↔ IsPassed found node
unfolding check_capability
check_capability_iff found node_id node = elim (Bool-cases (elem node.node_type acting_types)) [
  | inl acts ↦ (
    λ h _. check_acting-eq-nil found node_id node.entity node.intent (rw acts at h),
    λ h. rw acts (check_acting_nil found node_id node.entity node.intent (h acts)),
  )
  | inr idle ↦ (λ h acts. absurd (ground arith), λ h. rw idle refl)
]

pub check_capabilities_iff :
    (found : Dict (List CapNames)) (nodes : Dict BtNode)
    → (check_capabilities found nodes ≡ []) ↔ All (λ entry. IsPassed found entry.1) nodes
unfolding check_capabilities
check_capabilities_iff found [] = (λ h. tt, λ h. refl)
check_capabilities_iff found ((node_id, node) ∷ rest) =
    let first = check_capability_iff found node_id node in
    let later = check_capabilities_iff found rest in
    (
      λ h.
          let (a, b) = append-eq-nil (check_capability found node_id node) _ h in
          (first.0 a, later.0 b),
      λ h. rw (first.1 h.0) (later.1 h.1),
    )
