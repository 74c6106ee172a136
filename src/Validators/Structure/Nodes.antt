-- ===== src/Validators/Structure/Nodes.antt =====
-- The checks node by node report nothing exactly for valid nodes.
use hmta_service.Prelude.{
  String, Option, none, some, Bool, true, false, not, ◌&&◌, List, [], ◌∷◌, ◌==◌, ◌≡◌, ◌≢◌, refl, ap,
  arith, inl, inr, elem, All, nat_eq, length, Bool-cases, eq_iff, append-eq-nil, eq_of_==, ==_refl,
  first_elem, later_elem,
}
use hmta_service.Prelude.Dict.{Dict, lookup, has}
use hmta_service.Validators.{BtNode, Violation}
use hmta_service.Validators.Structure.{
  composite_types, leaf_types, decorator_types, is_empty, declares, report_if, unresolved,
  check_node_id, check_composite, check_leaf, check_decorator, check_node, check_nodes,
}

-- What the rules ask of one node.
pub record IsNodeValid (nodes : Dict BtNode) (node_id : String) (node : BtNode) : Type 0 where
  pub declared : node.node_id ≡ some node_id
  pub resolves : (c : String) → elem c node.children ≡ true → has c nodes ≡ true
  pub composite : elem node.node_type composite_types ≡ true → node.children ≢ []
  pub leaf : elem node.node_type leaf_types ≡ true → node.children ≡ []
  pub decorator : elem node.node_type decorator_types ≡ true → length node.children ≡ 1

pub report_if-eq-nil : (b : Bool) (v : Violation) → report_if b v ≡ [] → b ≡ false
report_if-eq-nil true v h = absurd (cc)
report_if-eq-nil false v h = refl

pub report_if-false : {b : Bool} (v : Violation) → b ≡ false → report_if b v ≡ []
report_if-false v h = rw h refl

unresolved-eq-nil :
    (nodes : Dict BtNode) (node_id : String) (cs : List String)
    → unresolved nodes node_id cs ≡ []
    → (c : String) → elem c cs ≡ true
    → has c nodes ≡ true
unfolding unresolved
unresolved-eq-nil nodes node_id [] h c m = absurd (ground arith)
unresolved-eq-nil nodes node_id (d ∷ cs) h c m =
    let (first, rest) = append-eq-nil (report_if (not (has d nodes)) _) _ h in
    let there = report_if-eq-nil (not (has d nodes)) _ first in
    elim (Bool-cases (d == c)) [
      | inl e ↦ rw (← eq_of_== d c e) (ground arith)
      | inr e ↦ unresolved-eq-nil nodes node_id cs rest c (ground arith)
    ]

unresolved_nil :
    (nodes : Dict BtNode) (node_id : String) (cs : List String)
    → ((c : String) → elem c cs ≡ true → has c nodes ≡ true)
    → unresolved nodes node_id cs ≡ []
unfolding unresolved
unresolved_nil nodes node_id [] h = refl
unresolved_nil nodes node_id (d ∷ cs) h =
    rw (h d (first_elem d cs)) (unresolved_nil nodes node_id cs (λ c m. h c (later_elem c d cs m)))

declares-true : (o : Option String) (k : String) → declares o k ≡ true → o ≡ some k
declares-true none k h = absurd (ground arith)
declares-true (some j) k h = ground (arith, eq_iff j k)

nil_of_is_empty {ℓ} : {A : Type ℓ} (xs : List A) → is_empty xs ≡ true → xs ≡ []
nil_of_is_empty [] h = refl
nil_of_is_empty (x ∷ xs) h = absurd (ground arith)

is_empty_of_ne {ℓ} : {A : Type ℓ} (xs : List A) → xs ≢ [] → is_empty xs ≡ false
is_empty_of_ne [] h = absurd (h refl)
is_empty_of_ne (x ∷ xs) h = refl

and_false : (a b : Bool) → (a ≡ true → b ≡ false) → (a && b) ≡ false
and_false true b h = h refl
and_false false b h = refl

pub check_node-IsNodeValid :
    (nodes : Dict BtNode) (node_id : String) (node : BtNode)
    → check_node nodes node_id node ≡ []
    → IsNodeValid nodes node_id node
unfolding check_node check_node_id check_composite check_leaf check_decorator
check_node-IsNodeValid nodes node_id node h =
    let (a, h₁) = append-eq-nil (check_node_id node_id node) _ h in
    let (b, h₂) = append-eq-nil (unresolved nodes node_id node.children) _ h₁ in
    let (c, h₃) = append-eq-nil (check_composite node_id node) _ h₂ in
    let (d, e) = append-eq-nil (check_leaf node_id node) (check_decorator node_id node) h₃ in
    let a' = report_if-eq-nil (not (declares node.node_id node_id)) _ a in
    let c' = report_if-eq-nil (elem node.node_type composite_types && is_empty node.children) _ c in
    let d' =
      report_if-eq-nil (elem node.node_type leaf_types && not (is_empty node.children)) _ d in
    let e' =
      report_if-eq-nil
        (elem node.node_type decorator_types && not (nat_eq (length node.children) 1)) _ e in
    record {
      declared = declares-true node.node_id node_id (ground arith);
      resolves = unresolved-eq-nil nodes node_id node.children b;
      composite = λ t n. let q = ap is_empty n in ground arith;
      leaf = λ t. nil_of_is_empty node.children (ground arith);
      decorator = λ t. ground arith;
    }

pub IsNodeValid-check_node :
    (nodes : Dict BtNode) (node_id : String) (node : BtNode)
    → IsNodeValid nodes node_id node
    → check_node nodes node_id node ≡ []
unfolding check_node check_node_id check_composite check_leaf check_decorator
IsNodeValid-check_node nodes node_id node v = rw (
  v.declared,
  ==_refl node_id,
  unresolved_nil nodes node_id node.children v.resolves,
  and_false (elem node.node_type composite_types) (is_empty node.children)
      (λ t. is_empty_of_ne node.children (v.composite t)),
  and_false (elem node.node_type leaf_types) (not (is_empty node.children))
      (λ t. rw (v.leaf t) refl),
  and_false (elem node.node_type decorator_types) (not (nat_eq (length node.children) 1))
      (λ t. rw (v.decorator t) refl),
)

abbrev pub AllValid : Dict BtNode → Dict BtNode → Type 0
AllValid nodes rest = All (λ entry. IsNodeValid nodes entry.0 entry.1) rest

pub check_nodes-AllValid :
    (nodes rest : Dict BtNode) → check_nodes nodes rest ≡ [] → AllValid nodes rest
unfolding check_nodes
check_nodes-AllValid nodes [] h = tt
check_nodes-AllValid nodes ((j, first) ∷ rest) h =
    let (a, b) = append-eq-nil (check_node nodes j first) _ h in
    (check_node-IsNodeValid nodes j first a, check_nodes-AllValid nodes rest b)

pub AllValid-check_nodes :
    (nodes rest : Dict BtNode) → AllValid nodes rest → check_nodes nodes rest ≡ []
unfolding check_nodes
AllValid-check_nodes nodes [] h = refl
AllValid-check_nodes nodes ((j, first) ∷ rest) h =
    rw (IsNodeValid-check_node nodes j first h.0) (AllValid-check_nodes nodes rest h.1)

pub AllValid-lookup :
    (nodes rest : Dict BtNode) (k : String) (node : BtNode)
    → AllValid nodes rest
    → lookup k rest ≡ some node
    → IsNodeValid nodes k node
unfolding lookup
AllValid-lookup nodes [] k node v found = absurd (cc)
AllValid-lookup nodes ((j, first) ∷ rest) k node v found = elim (Bool-cases (j == k)) [
  | inl e ↦ let q : first ≡ node = ground arith in rw (← q, ← eq_of_== j k e) v.0
  | inr e ↦ AllValid-lookup nodes rest k node v.1 (ground arith)
]
