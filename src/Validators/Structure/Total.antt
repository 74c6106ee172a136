-- ===== src/Validators/Structure/Total.antt =====
-- The fuel of the walk is enough: it enters a node only once.
use hmta_service.Prelude.{
  ℕ, zero, suc, ◌≤◌, ◌<◌, String, Option, some, true, false, List, [], ◌∷◌, ◌++◌, ◌==◌, ◌≡◌, refl,
  ◌∙◌, arith, inl, inr, elem, add, length, Bool-cases, eq_iff, elem-add, if◌then◌else◌,
}
use hmta_service.Prelude.Dict.{Dict, has, keys, elem-keys, lookup-has, length-keys}
use hmta_service.Validators.{
  BtNode, Bt, Violation, missing_root_id, root_not_found, cycle_detected, self_loop,
}
use hmta_service.Validators.Structure.Steps.{
  walk_cases, on, skip, inside, visit_child_cases, self, down,
}
use hmta_service.Validators.Structure.{
  Walk, enter, leave, report, visit_child, visit_children, visit_node, walk, start, finish,
  check_structure_integrity,
}

abbrev pub Sub : List String → List String → Type 0
Sub xs ys = (k : String) → elem k xs ≡ true → elem k ys ≡ true

-- How many of the texts `ks` the set lacks.
missing : List String → List String → ℕ
missing [] seen = 0
missing (k ∷ ks) seen = if elem k seen then missing ks seen else suc (missing ks seen)

missing_mono : (ks : List String) (xs ys : List String) → Sub xs ys → missing ks ys ≤ missing ks xs
unfolding missing
missing_mono [] xs ys h = omega arith
missing_mono (k ∷ ks) xs ys h = ground (arith, missing_mono ks xs ys h, h k)

Sub-add : (k : String) (xs : List String) → Sub xs (add k xs)
Sub-add k xs j h = ground (arith, elem-add j k xs)

missing-add :
    (ks : List String) (k : String) (xs : List String)
    → elem k ks ≡ true
    → elem k xs ≡ false
    → missing ks (add k xs) < missing ks xs
unfolding missing
missing-add [] k xs h new = absurd (ground arith)
missing-add (j ∷ ks) k xs h new = elim (Bool-cases (j == k)) [
  | inl e ↦
      ground (arith, eq_iff j k, elem-add j k xs, missing_mono ks xs (add k xs) (Sub-add k xs))
  | inr e ↦ ground (arith, eq_iff k j, elem-add j k xs, missing-add ks k xs, eq_iff j k)
]

missing-le : (ks xs : List String) → missing ks xs ≤ length ks
unfolding missing
missing-le [] xs = omega arith
missing-le (k ∷ ks) xs = ground (arith, missing-le ks xs)

-- A call comes back from every state with fewer than `fuel` nodes to visit, and only visits more.
abbrev Returns : Dict BtNode → ℕ → (Walk → Option Walk) → Type 0
Returns nodes fuel call =
    (s : Walk)
    → missing (keys nodes) s.visited < fuel
    → (s' : Walk) × (call s ≡ some s') × Sub s.visited s'.visited

module _ (nodes : Dict BtNode) (fuel : ℕ) (call : String → Walk → Option Walk)
    (returns : (c : String) → Returns nodes fuel (call c)) where
  visit_child-Returns : (node_id c : String) → Returns nodes fuel (visit_child call node_id c)
  visit_child-Returns node_id c s h = elim (visit_child_cases call node_id c s) [
    | self e r ↦ (report (self_loop node_id) s, r, λ k m. m)
    | down e r ↦ let (s', r', sub) = returns c s h in (s', r ∙ r', sub)
  ]

  visit_children-Returns :
      (node_id : String) (cs : List String) → Returns nodes fuel (visit_children call node_id cs)
  unfolding visit_children
  visit_children-Returns node_id [] s h = (s, refl, λ k m. m)
  visit_children-Returns node_id (c ∷ cs) s h =
      let (s', r, sub) = visit_child-Returns node_id c s h in
      let (s'', r', sub') =
        visit_children-Returns node_id cs s'
          (omega (arith, missing_mono (keys nodes) s.visited s'.visited sub)) in
      (s'', rw r r', λ k m. sub' k (sub k m))

visit_node-Returns :
    (nodes : Dict BtNode) (fuel : ℕ) (call : String → List String → Walk → Option Walk)
    → ((c : String) (path : List String) → Returns nodes fuel (call c path))
    → (node_id : String) (path : List String) (node : BtNode) (s : Walk)
    → missing (keys nodes) (add node_id s.visited) < fuel
    → (s' : Walk) × (visit_node call node_id path node s ≡ some s')
      × Sub (add node_id s.visited) s'.visited
unfolding visit_node
visit_node-Returns nodes fuel call returns node_id path node s h =
    let (s', r, sub) =
      visit_children-Returns nodes fuel (λ c. call c (path ++ node_id ∷ []))
        (λ c. returns c (path ++ node_id ∷ [])) node_id node.children (enter node_id s) h in
    (leave node_id s', rw r refl, sub)

walk-Returns :
    (nodes : Dict BtNode) (fuel : ℕ) (node_id : String) (path : List String)
    → Returns nodes fuel (walk nodes fuel node_id path)
walk-Returns nodes zero node_id path s h = elim h [ ]
walk-Returns nodes (suc fuel) node_id path s h = elim (walk_cases nodes fuel node_id path s) [
  | on e r ↦ (report (cycle_detected node_id (path ++ node_id ∷ [])) s, r, λ k m. m)
  | skip e why r ↦ (s, r, λ k m. m)
  | inside e node found new r ↦
      let fewer =
        missing-add (keys nodes) node_id s.visited
          (elem-keys node_id nodes ∙ lookup-has node_id nodes node found) new in
      let (s', r', sub) =
        visit_node-Returns nodes fuel (walk nodes fuel) (walk-Returns nodes fuel) node_id path node
          s (omega arith) in
      (s', r ∙ r', λ k m. sub k (Sub-add node_id s.visited k m))
]

-- The walk from the root always comes back, whatever the tree: `check_structure_integrity` answers
-- with a list of reports, and is not out of fuel.
pub check_structure_integrity_total :
    (bt : Bt) → (vs : List Violation) × (check_structure_integrity bt ≡ some vs)
unfolding check_structure_integrity
check_structure_integrity_total bt =
    let walked =
      walk-Returns bt.nodes (suc (length bt.nodes)) bt.root_id [] (start bt)
        (omega (arith, missing-le (keys bt.nodes) [], length-keys bt.nodes)) in
    elim (Bool-cases (bt.root_id == "")) [
      | inl e ↦ (missing_root_id ∷ [], rw e refl)
      | inr e ↦ elim (Bool-cases (has bt.root_id bt.nodes)) [
        | inl f ↦ (finish bt walked.0, rw (e, f, walked.1) refl)
        | inr f ↦ (root_not_found bt.root_id ∷ [], rw (e, f) refl)
      ]
    ]
