-- ===== src/Validators/Capability/Listing.antt =====
-- Which capabilities count for an entity: those of its last entry that has any.
use hmta_service.Prelude.{
  ap, sym, ◌∙◌, String, List, some, [], ◌∷◌, ◌≡◌, ◌≢◌, ◌⊎◌, ◌↔◌, inl, inr, refl, All, Bool-cases,
  eq_of_==, ne_of_==, ◌==◌,
}
use hmta_service.Validators.Capability.{
  some-inj, add_caps, cap_names, capability_map_from, capability_map, CapNames,
}
use hmta_service.Validators.{Entity}
use hmta_service.Prelude.Dict.{put, lookup-put, lookup, Dict}

-- No entry of the entity has capabilities.
abbrev pub HasNone : List Entity → String → Type 0
HasNone es id = All (λ x. x.entity_id ≡ id → cap_names x.capabilities ≡ []) es

abbrev pub IsListed : List Entity → String → List CapNames → Type 0
IsListed [] id caps = ⊥
IsListed (x ∷ xs) id caps =
    ((x.entity_id ≡ id) × ((cap_names x.capabilities ≡ caps) × ((caps ≢ []) × HasNone xs id)))
    ⊎ IsListed xs id caps

-- Of the entries that are read, the last one counts, else what was found before.
abbrev Counts : Dict (List CapNames) → List Entity → String → List CapNames → Type 0
Counts found es id caps = IsListed es id caps ⊎ ((lookup id found ≡ some caps) × HasNone es id)

-- The same for an entry with these names before the others.
abbrev CountsWith :
    Dict (List CapNames) → String → List CapNames → List Entity → String → List CapNames → Type 0
CountsWith found eid names xs id caps =
    (((eid ≡ id) × ((names ≡ caps) × ((caps ≢ []) × HasNone xs id))) ⊎ IsListed xs id caps)
    ⊎ ((lookup id found ≡ some caps) × ((eid ≡ id → names ≡ []) × HasNone xs id))

add_caps_iff :
    (found : Dict (List CapNames)) (eid : String) (names : List CapNames) (xs : List Entity)
    (id : String) (caps : List CapNames)
    → Counts (add_caps eid names found) xs id caps ↔ CountsWith found eid names xs id caps
add_caps_iff found eid [] xs id caps = (
  λ h. elim h [ inl l ↦ inl (inr l) | inr p ↦ inr (p.0, ((λ e. refl), p.1)) ],
  λ h. elim h [
    | inl (inl p) ↦ absurd (p.1.1.0 (sym p.1.0))
    | inl (inr l) ↦ inl l
    | inr p ↦ inr (p.0, p.1.1)
  ],
)
add_caps_iff found eid (c ∷ cs) xs id caps =
    let q = lookup-put eid id (c ∷ cs) found in
    elim (Bool-cases (eid == id)) [
      | inl e ↦
          let now : lookup id (put eid (c ∷ cs) found) ≡ some (c ∷ cs) = q ∙ rw e refl in
          (
            λ h. elim h [
              | inl l ↦ inl (inr l)
              | inr p ↦
                  let names : (c ∷ cs) ≡ caps = some-inj (sym now ∙ p.0) in
                  inl (inl (eq_of_== eid id e, (names, ((λ z. absurd (cc (names ∙ z))), p.1))))
            ],
            λ h. elim h [
              | inl (inl p) ↦ inr (now ∙ ap (λ x. some x) p.1.0, p.1.1.1)
              | inl (inr l) ↦ inl l
              | inr p ↦ absurd (cc (p.1.0 (eq_of_== eid id e)))
            ],
          )
      | inr e ↦
          let now : lookup id (put eid (c ∷ cs) found) ≡ lookup id found = q ∙ rw e refl in
          (
            λ h. elim h [
              | inl l ↦ inl (inr l)
              | inr p ↦ inr (sym now ∙ p.0, ((λ z. absurd (ne_of_== eid id e z)), p.1))
            ],
            λ h. elim h [
              | inl (inl p) ↦ absurd (ne_of_== eid id e p.0)
              | inl (inr l) ↦ inl l
              | inr p ↦ inr (now ∙ p.0, p.1.1)
            ],
          )
    ]

capability_map_from_iff :
    (found : Dict (List CapNames)) (es : List Entity) (id : String) (caps : List CapNames)
    → (lookup id (capability_map_from found es) ≡ some caps) ↔ Counts found es id caps
unfolding capability_map_from
capability_map_from_iff found [] id caps =
    (λ h. inr (h, tt), λ h. elim h [ inl e ↦ absurd e | inr e ↦ e.0 ])
capability_map_from_iff found (x ∷ xs) id caps =
    let names = cap_names x.capabilities in
    let next = capability_map_from_iff (add_caps x.entity_id names found) xs id caps in
    let step = add_caps_iff found x.entity_id names xs id caps in
    (λ h. step.0 (next.0 h), λ h. next.1 (step.1 h))

pub capability_map_iff :
    (es : List Entity) (id : String) (caps : List CapNames)
    → (lookup id (capability_map es) ≡ some caps) ↔ IsListed es id caps
unfolding capability_map lookup
capability_map_iff es id caps =
    let both = capability_map_from_iff [] es id caps in
    (λ h. elim (both.0 h) [ inl e ↦ e | inr e ↦ absurd (cc (e.0)) ], λ h. both.1 (inl h))
