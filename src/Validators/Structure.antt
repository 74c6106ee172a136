-- ===== src/Validators/Structure.antt =====
-- app/generation/validators/structure_check.py: the checks node by node, the depth-first walk
-- from the root, and the check of what the walk has not met.
pub mod Graph
mod Steps
mod Invariant
mod Nodes
pub mod Sound
pub mod Complete
mod Tests
pub mod Total
use hmta_service.Prelude.{
  ℕ, zero, suc, String, Option, none, some, Bool, true, false, not, ◌&&◌, ◌||◌, List, [], ◌∷◌, ◌++◌,
  ◌==◌, if◌then◌else◌, nat_eq, elem, add, discard, filter, length,
}
use hmta_service.Prelude.Dict.{Dict, lookup, has, keys}
use hmta_service.Prelude.Options.{◌>>=◌}
use hmta_service.Validators.{
  BtNode, Bt, Violation, missing_root_id, root_not_found, node_id_mismatch, unresolved_child,
  empty_composite, leaf_has_children, invalid_decorator_arity, cycle_detected, self_loop,
  unreachable_node,
}

abbrev pub composite_types : List String
composite_types = "sequence" ∷ "selector" ∷ "parallel" ∷ []

abbrev pub leaf_types : List String
leaf_types = "action" ∷ "humanGate" ∷ "condition" ∷ []

abbrev pub decorator_types : List String
decorator_types = "timeout" ∷ "retry" ∷ []

abbrev pub is_empty {ℓ} : {A : Type ℓ} → List A → Bool
is_empty [] = true
is_empty (_ ∷ _) = false

abbrev pub report_if : Bool → Violation → List Violation
report_if test v = if test then v ∷ [] else []

abbrev pub declares : Option String → String → Bool
declares none node_id = false
declares (some declared) node_id = declared == node_id

pub unresolved : Dict BtNode → String → List String → List Violation
unresolved nodes node_id [] = []
unresolved nodes node_id (c ∷ cs) =
    report_if (not (has c nodes)) (unresolved_child node_id c) ++ unresolved nodes node_id cs

pub check_node_id : String → BtNode → List Violation
check_node_id node_id node =
    report_if (not (declares node.node_id node_id)) (node_id_mismatch node_id node.node_id)

pub check_composite : String → BtNode → List Violation
check_composite node_id node =
    report_if (elem node.node_type composite_types && is_empty node.children)
      (empty_composite node_id node.node_type)

pub check_leaf : String → BtNode → List Violation
check_leaf node_id node =
    report_if (elem node.node_type leaf_types && not (is_empty node.children))
      (leaf_has_children node_id node.node_type)

pub check_decorator : String → BtNode → List Violation
check_decorator node_id node =
    report_if (elem node.node_type decorator_types && not (nat_eq (length node.children) 1))
      (invalid_decorator_arity node_id node.node_type (length node.children))

-- The body of the first loop, for one node.
pub check_node : Dict BtNode → String → BtNode → List Violation
check_node nodes node_id node =
    check_node_id node_id node
    ++ (unresolved nodes node_id node.children
        ++ (check_composite node_id node
            ++ (check_leaf node_id node ++ check_decorator node_id node)))

pub check_nodes : Dict BtNode → Dict BtNode → List Violation
check_nodes nodes [] = []
check_nodes nodes ((node_id, node) ∷ rest) = check_node nodes node_id node ++ check_nodes nodes rest

-- What the closure `walk` shares with its function: two sets and the reports.
pub record Walk : Type 0 where
  pub visited : List String
  pub visiting : List String
  pub violations : List Violation

abbrev pub report : Violation → Walk → Walk
report v s = record s { violations = s.violations ++ v ∷ [] }

abbrev pub enter : String → Walk → Walk
enter node_id s = record s { visited = add node_id s.visited; visiting = add node_id s.visiting }

abbrev pub leave : String → Walk → Walk
leave node_id s = record s { visiting = discard node_id s.visiting }

-- The loop over the children; `call` is the recursive call of `walk`.
pub visit_child : (String → Walk → Option Walk) → String → String → Walk → Option Walk
visit_child call node_id c s =
    if c == node_id then some (report (self_loop node_id) s) else call c s

pub visit_children : (String → Walk → Option Walk) → String → List String → Walk → Option Walk
visit_children call node_id [] s = some s
visit_children call node_id (c ∷ cs) s =
    visit_child call node_id c s >>= λ s'. visit_children call node_id cs s'

pub visit_node :
    (String → List String → Walk → Option Walk) → String → List String → BtNode → Walk → Option Walk
visit_node call node_id path node s =
    visit_children (λ c. call c (path ++ node_id ∷ [])) node_id node.children (enter node_id s)
    >>= λ s'. some (leave node_id s')

abbrev pub visit_found :
    (String → List String → Walk → Option Walk)
    → String
    → List String
    → Option BtNode
    → Walk
    → Option Walk
visit_found call node_id path none s = some s
visit_found call node_id path (some node) s =
    let inside = visit_node call node_id path node s in
    if elem node_id s.visited then some s else inside

-- `none` means that the fuel has run out: see `Total`.
pub walk : Dict BtNode → ℕ → String → List String → Walk → Option Walk
walk nodes zero node_id path s = none
walk nodes (suc fuel) node_id path s =
    let next = visit_found (walk nodes fuel) node_id path (lookup node_id nodes) s in
    if elem node_id s.visiting
    then some (report (cycle_detected node_id (path ++ node_id ∷ [])) s)
    else next

pub unreachable : List String → List String → List Violation
unreachable visited [] = []
unreachable visited (k ∷ ks) =
    report_if (not (elem k visited)) (unreachable_node k) ++ unreachable visited ks

abbrev pub start : Bt → Walk
start bt = record { visited = []; visiting = []; violations = check_nodes bt.nodes bt.nodes }

abbrev pub finish : Bt → Walk → List Violation
finish bt s = s.violations ++ unreachable s.visited (keys bt.nodes)

pub check_structure_integrity : Bt → Option (List Violation)
check_structure_integrity bt =
    let walked = walk bt.nodes (suc (length bt.nodes)) bt.root_id [] (start bt) in
    if bt.root_id == ""
    then some (missing_root_id ∷ [])
    else if has bt.root_id bt.nodes
    then (walked >>= λ s. some (finish bt s))
    else some (root_not_found bt.root_id ∷ [])
