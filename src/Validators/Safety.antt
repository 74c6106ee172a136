-- ===== src/Validators/Safety.antt =====
-- app/generation/validators/safety_check.py: no action for an offline entity, and a human gate in
-- a critical task.
use hmta_service.Prelude.{
  ==_of_ne, ==_refl, subst, eq_iff, Any, ap, ◌≢◌, String, Option, none, some, Bool, true, false,
  not, ◌&&◌, ◌||◌, List, [], ◌∷◌, ◌++◌, ◌==◌, ◌≡◌, refl, ◌↔◌, arith, if◌then◌else◌, elem, All,
  Bool-cases, eq_of_==, ne_of_==, append-eq-nil, inl, inr,
}
use hmta_service.Prelude.Dict.{Dict}
use hmta_service.Prelude.Options.{some-inj}
use hmta_service.Validators.{
  BtNode, Bt, Entity, Violation, offline_entity_assigned, missing_human_gate_for_critical,
}

abbrev text_is : Option String → String → Bool
text_is none s = false
text_is (some t) s = t == s

unfoldable pub offline_entities : List Entity → List String
offline_entities [] = []
offline_entities (e ∷ es) =
    if text_is e.status "offline" then e.entity_id ∷ offline_entities es else offline_entities es

unfoldable pub has_human_gate : Dict BtNode → Bool
has_human_gate [] = false
has_human_gate ((node_id, node) ∷ rest) = node.node_type == "humanGate" || has_human_gate rest

abbrev offline_report : List String → String → Option String → List Violation
offline_report offline node_id none = []
offline_report offline node_id (some e) =
    if elem e offline then offline_entity_assigned node_id e ∷ [] else []

unfoldable pub check_offline : List String → Dict BtNode → List Violation
check_offline offline [] = []
check_offline offline ((node_id, node) ∷ rest) =
    (if node.node_type == "action" then offline_report offline node_id node.entity else [])
    ++ check_offline offline rest

unfoldable pub check_safety_constraints : Bt → List Entity → String → List Violation
unfolding check_offline has_human_gate offline_entities
check_safety_constraints bt entities priority =
    check_offline (offline_entities entities) bt.nodes
    ++ (if priority == "critical" && not (has_human_gate bt.nodes)
        then missing_human_gate_for_critical ∷ []
        else [])

-- The entity is not one that the payload gives as offline.
abbrev pub IsReachable : List Entity → String → Type 0
IsReachable entities e = All (λ x. x.status ≡ some "offline" → x.entity_id ≢ e) entities

abbrev pub IsOnline : List Entity → BtNode → Type 0
IsOnline entities node =
    node.node_type ≡ "action" → (e : String) → node.entity ≡ some e → IsReachable entities e

pub record IsSafe (bt : Bt) (entities : List Entity) (priority : String) : Type 0 where
  pub online : All (λ entry. IsOnline entities entry.1) bt.nodes
  pub gated : priority ≡ "critical" → Any (λ entry. entry.1.node_type ≡ "humanGate") bt.nodes

text_is_iff : (o : Option String) (s : String) → (text_is o s ≡ true) ↔ (o ≡ some s)
text_is_iff none s = (λ h. absurd (cc (h)), λ h. absurd (cc (h)))
text_is_iff (some t) s = (λ h. ap (λ x. some x) (eq_of_== t s h), λ h. rw (some-inj h) (==_refl s))

offline_iff :
    (entities : List Entity) (e : String)
    → (elem e (offline_entities entities) ≡ false) ↔ IsReachable entities e
unfolding offline_entities
offline_iff [] e = (λ h. tt, λ h. refl)
offline_iff (x ∷ xs) e =
    let later = offline_iff xs e in
    elim (Bool-cases (text_is x.status "offline")) [
      | inl off ↦ (
        λ h. (
          (λ s q. ground (arith, eq_iff x.entity_id e, rw off at h)),
          later.0 (ground (arith, rw off at h)),
        ),
        λ h.
            rw (off, ==_of_ne x.entity_id e (h.0 ((text_is_iff x.status "offline").0 off)))
              (later.1 h.1),
      )
      | inr on ↦ (
        λ h. ((λ s. absurd (cc (on, (text_is_iff x.status "offline").1 s))), later.0 (rw on at h)),
        λ h. rw on (later.1 h.1),
      )
    ]

human_gate_iff :
    (nodes : Dict BtNode)
    → (has_human_gate nodes ≡ true) ↔ Any (λ entry. entry.1.node_type ≡ "humanGate") nodes
unfolding has_human_gate
human_gate_iff [] = (λ h. absurd (cc (h)), λ h. absurd h)
human_gate_iff ((node_id, node) ∷ rest) =
    let later = human_gate_iff rest in
    elim (Bool-cases (node.node_type == "humanGate")) [
      | inl e ↦ (λ h. inl (eq_of_== node.node_type "humanGate" e), λ h. rw e refl)
      | inr e ↦ (
        λ h. inr (later.0 (rw e at h)),
        λ h. elim h [
          | inl q ↦ absurd (ne_of_== node.node_type "humanGate" e q)
          | inr q ↦ rw e (later.1 q)
        ],
      )
    ]

report_iff :
    (entities : List Entity) (node_id : String) (entity : Option String)
    → (offline_report (offline_entities entities) node_id entity ≡ [])
      ↔ ((e : String) → entity ≡ some e → IsReachable entities e)
report_iff entities node_id none = (λ h e q. absurd (cc (q)), λ h. refl)
report_iff entities node_id (some x) =
    let both = offline_iff entities x in
    elim (Bool-cases (elem x (offline_entities entities))) [
      | inl on ↦ (λ h. absurd (ground arith), λ h. absurd (cc (on, both.1 (h x refl))))
      | inr off ↦
          (λ h e q. subst (IsReachable entities) (some-inj q) (both.0 off), λ h. rw off refl)
    ]

node_iff :
    (entities : List Entity) (node_id : String) (node : BtNode)
    → ((if node.node_type == "action"
          then offline_report (offline_entities entities) node_id node.entity
          else [])
        ≡ [])
      ↔ IsOnline entities node
node_iff entities node_id node = elim (Bool-cases (node.node_type == "action")) [
  | inl acts ↦
      let both = report_iff entities node_id node.entity in
      (
        λ h _. both.0 (rw acts at h),
        λ h. rw acts (both.1 (h (eq_of_== node.node_type "action" acts))),
      )
  | inr idle ↦ (λ h acts. absurd (ne_of_== node.node_type "action" idle acts), λ h. rw idle refl)
]

check_offline_iff :
    (entities : List Entity) (nodes : Dict BtNode)
    → (check_offline (offline_entities entities) nodes ≡ [])
      ↔ All (λ entry. IsOnline entities entry.1) nodes
unfolding check_offline
check_offline_iff entities [] = (λ h. tt, λ h. refl)
check_offline_iff entities ((node_id, node) ∷ rest) =
    let first = node_iff entities node_id node in
    let later = check_offline_iff entities rest in
    (
      λ h.
          let (a, b) = append-eq-nil _ (check_offline (offline_entities entities) rest) h in
          (first.0 a, later.0 b),
      λ h. rw (first.1 h.0) (later.1 h.1),
    )

gate_iff :
    (priority : String) (nodes : Dict BtNode)
    → ((if priority == "critical" && not (has_human_gate nodes)
          then missing_human_gate_for_critical ∷ []
          else [])
        ≡ [])
      ↔ (priority ≡ "critical" → Any (λ entry. entry.1.node_type ≡ "humanGate") nodes)
gate_iff priority nodes =
    let both = human_gate_iff nodes in
    elim (Bool-cases (has_human_gate nodes)) [
      | inl gate ↦ (λ h _. both.0 gate, λ h. rw gate (ground arith))
      | inr bare ↦ elim (Bool-cases (priority == "critical")) [
        | inl e ↦ (
          λ h. absurd (ground arith),
          λ h. absurd (cc (bare, both.1 (h (eq_of_== priority "critical" e)))),
        )
        | inr e ↦ (λ h q. absurd (ne_of_== priority "critical" e q), λ h. rw e refl)
      ]
    ]

-- The safety check reports nothing exactly if no action node is for an entity that is given as
-- offline, and a critical task has a human gate, wherever it stands in the tree.
pub check_safety_constraints_iff :
    (bt : Bt) (entities : List Entity) (priority : String)
    → (check_safety_constraints bt entities priority ≡ []) ↔ IsSafe bt entities priority
unfolding check_safety_constraints
check_safety_constraints_iff bt entities priority =
    let offline = check_offline_iff entities bt.nodes in
    let gate = gate_iff priority bt.nodes in
    (
      λ h.
          let (a, b) = append-eq-nil (check_offline (offline_entities entities) bt.nodes) _ h in
          record { online = offline.0 a; gated = gate.0 b },
      λ h. rw (offline.1 h.online) (gate.1 h.gated),
    )
