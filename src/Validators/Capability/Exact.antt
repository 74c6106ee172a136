-- ===== src/Validators/Capability/Exact.antt =====
-- What the capability check reports, against an account of it that uses none of its functions.
use hmta_service.Prelude.{
  eq_of_==, Bool-cases, refl, ◌==◌, String, List, true, [], ◌≡◌, ◌≢◌, ◌⊎◌, ◌↔◌, inl, inr, sym, some,
  All, All-map, Any, arith, elem,
}
use hmta_service.Validators.Capability.{
  capability_map, IsPassed, check_capabilities_iff, CapNames, acting_types, check_capability_match,
}
use hmta_service.Validators.{Bt, BtNode, Entity}
use hmta_service.Validators.Capability.Listing.{capability_map_iff, IsListed}
use hmta_service.Validators.Capability.Matching.{matches_any_capability_iff, Matches}

-- An action or a human gate that names an entity and an intent: if capabilities are listed for the
-- entity, one of them matches the intent.
abbrev pub IsCapable : List Entity → BtNode → Type 0
IsCapable entities node =
    (node.node_type ≡ "action") ⊎ (node.node_type ≡ "humanGate")
    → (e i : String) (caps : List CapNames) → node.entity ≡ some e
    → node.intent ≡ some i
    → e ≢ ""
    → i ≢ ""
    → IsListed entities e caps
    → Any (Matches i) caps

acts_iff : (s : String) → (elem s acting_types ≡ true) ↔ ((s ≡ "action") ⊎ (s ≡ "humanGate"))
acts_iff s = (
  λ h. elim (Bool-cases ("action" == s)) [
    | inl e ↦ inl (sym (eq_of_== "action" s e))
    | inr e ↦ inr (sym (eq_of_== "humanGate" s (ground (arith, h, e))))
  ],
  λ h. elim h [ inl e ↦ rw e refl | inr e ↦ rw e refl ],
)

IsPassed-IsCapable :
    (entities : List Entity) (node : BtNode)
    → IsPassed (capability_map entities) node ↔ IsCapable entities node
IsPassed-IsCapable entities node = (
  λ h acts e i caps named meant e' i' listed. (matches_any_capability_iff i caps).0 (
      h ((acts_iff node.node_type).1 acts) e i caps named meant e' i'
        ((capability_map_iff entities e caps).1 listed)),
  λ h acts e i caps named meant e' i' there. (matches_any_capability_iff i caps).1 (
      h ((acts_iff node.node_type).0 acts) e i caps named meant e' i'
        ((capability_map_iff entities e caps).0 there)),
)

-- The capability check reports nothing exactly if each action or human gate that names an entity and
-- an intent names one of which a listed capability matches, where the entity's last entry with any
-- capability lists some: by the same text, by a text alike but for case and outer space, or by a
-- text of which one is a part of the other.
pub check_capability_match_iff :
    (bt : Bt) (entities : List Entity)
    → (check_capability_match bt entities ≡ []) ↔ All (λ entry. IsCapable entities entry.1) bt.nodes
unfolding check_capability_match
check_capability_match_iff bt entities =
    let both = check_capabilities_iff (capability_map entities) bt.nodes in
    (
      λ h. All-map _ _ bt.nodes (λ entry. (IsPassed-IsCapable entities entry.1).0) (both.0 h),
      λ h. both.1 (All-map _ _ bt.nodes (λ entry. (IsPassed-IsCapable entities entry.1).1) h),
    )
