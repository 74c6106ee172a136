-- ===== src/Validators/Structure/Complete.antt =====
-- The check reports nothing about a well-formed tree: the walk meets no node that it is inside of.
use mathlib.Core.WellFounded.{Acc}
use hmta_service.Prelude.{
  ℕ, zero, suc, String, Option, some, true, List, [], ◌∷◌, ◌++◌, ◌==◌, ◌≡◌, refl, sym, ◌∙◌, arith,
  ◌↔◌, inl, inr, elem, length, Bool-cases, elem-add, ==_refl, ==_of_ne, eq_of_==, first_elem,
  later_elem,
}
use hmta_service.Prelude.Dict.{Dict, lookup, has, keys, elem-keys}
use hmta_service.Prelude.Options.{>>=-eq-some, some-inj}
use hmta_service.Validators.{BtNode, Bt}
use hmta_service.Validators.Structure.{
  Walk, enter, visit_child, visit_children, visit_node, walk, unreachable, start, finish,
  check_structure_integrity,
}
use hmta_service.Validators.Structure.Graph.{Child, here, Ends}
use hmta_service.Validators.Structure.Steps.{
  walk-zero, walk_cases, on, skip, inside, visit_child_cases, self, down,
}
use hmta_service.Validators.Structure.Nodes.{AllValid, AllValid-check_nodes, AllValid-lookup}
use hmta_service.Validators.Structure.Invariant.{Passed, walk-Sends}
use hmta_service.Validators.Structure.Sound.{
  IsWellFormed, start-Sound, Done-of-Reach, check_structure_integrity_sound,
}
use hmta_service.Validators.Structure.Total.{check_structure_integrity_total}

-- `u` is some edges below `v`.
data Under (nodes : Dict BtNode) (u : String) : String → Type 0 where
  child : {v : String} → Child nodes u v → Under nodes u v
  deeper : {v c : String} → Child nodes c v → Under nodes u c → Under nodes u v

Under-trans :
    (nodes : Dict BtNode) {u v w : String} → Under nodes v w → Under nodes u v → Under nodes u w
Under-trans nodes (child ch) below = deeper ch below
Under-trans nodes (deeper ch rest) below = deeper ch (Under-trans nodes rest below)

no_loop :
    (nodes : Dict BtNode) {v : String}
    → Acc (Child nodes) v
    → (u : String) → Under nodes u v
    → Under nodes v u
    → ⊥
no_loop nodes (Acc.intro v smaller) u (child ch) back =
    no_loop nodes (smaller u ch) v back (child ch)
no_loop nodes (Acc.intro v smaller) u (deeper {c = c} ch rest) back =
    no_loop nodes (smaller c ch) v (Under-trans nodes rest back) (child ch)

Under-has : (nodes : Dict BtNode) {u v : String} → Under nodes u v → has u nodes ≡ true
Under-has nodes (child ch) = ch.resolved
Under-has nodes (deeper ch rest) = Under-has nodes rest

-- The walk is inside of the nodes above `c` only.
abbrev IsAbove : Dict BtNode → Walk → String → Type 0
IsAbove nodes s c = (v : String) → elem v s.visiting ≡ true → Under nodes c v

module _ (nodes : Dict BtNode) (valid : AllValid nodes nodes)
    (ends : (k : String) → has k nodes ≡ true → Ends nodes k) where
  not-Under_self : (c : String) → Under nodes c c → ⊥
  not-Under_self c u = no_loop nodes (ends c (Under-has nodes u)) c u u

  -- A call changes no set that its caller reads, and reports nothing.
  abbrev Quiet : (String → Walk → Option Walk) → Type 0
  Quiet call =
      (c : String) (s s' : Walk)
      → call c s ≡ some s'
      → Passed s s' × (IsAbove nodes s c → s'.violations ≡ s.violations)

  visit_children-Quiet :
      (call : String → Walk → Option Walk)
      → Quiet call
      → (node_id : String) (cs : List String) (s s' : Walk) → elem node_id s.visiting ≡ true
      → ((c : String) → elem c cs ≡ true → IsAbove nodes s c)
      → visit_children call node_id cs s ≡ some s'
      → s'.violations ≡ s.violations
  unfolding visit_children
  visit_children-Quiet call quiet node_id [] s s' held above h = rw (← some-inj h) refl
  visit_children-Quiet call quiet node_id (c ∷ cs) s s' held above h =
      let (t, first, rest) = >>=-eq-some (visit_child call node_id c s) _ h in
      let under = above c (first_elem c cs) in
      elim (visit_child_cases call node_id c s) [
        | self e r ↦ absurd (not-Under_self c (rw (← eq_of_== c node_id e) at (under node_id held)))
        | down e r ↦
            let (p, quiet_first) = quiet c s t (sym r ∙ first) in
            visit_children-Quiet call quiet node_id cs t s' (p.same node_id ∙ held)
              (λ d m v k. above d (later_elem d c cs m) v (sym (p.same v) ∙ k)) rest
            ∙ quiet_first under
      ]

  visit_node-Quiet :
      (call : String → List String → Walk → Option Walk)
      → ((path : List String) → Quiet (λ c. call c path))
      → (node_id : String) (path : List String) (node : BtNode) → lookup node_id nodes ≡ some node
      → (s s' : Walk) → IsAbove nodes s node_id
      → visit_node call node_id path node s ≡ some s'
      → s'.violations ≡ s.violations
  unfolding visit_node
  visit_node-Quiet call quiet node_id path node found s s' above h =
      let (t, inner, last) =
        >>=-eq-some (visit_children (λ c. call c (path ++ node_id ∷ [])) node_id node.children _) _
          h in
      rw (← some-inj last) (
        visit_children-Quiet (λ c. call c (path ++ node_id ∷ [])) (quiet (path ++ node_id ∷ []))
          node_id node.children (enter node_id s) t
          (elem-add node_id node_id s.visiting ∙ rw (==_refl node_id) refl) below inner)
    where
      edge : (c : String) → elem c node.children ≡ true → Child nodes c node_id
      edge c m = record {
        node = node;
        found = found;
        listed = m;
        resolved = (AllValid-lookup nodes nodes node_id node valid found).resolves c m;
      }

      below : (c : String) → elem c node.children ≡ true → IsAbove nodes (enter node_id s) c
      below c m v k = elim (Bool-cases (node_id == v)) [
        | inl e ↦ rw (← eq_of_== node_id v e) (child (edge c m))
        | inr e ↦
            Under-trans nodes (above v (ground (arith, elem-add v node_id s.visiting)))
              (child (edge c m))
      ]

  walk-Quiet : (root : String) (fuel : ℕ) (path : List String) → Quiet (λ c. walk nodes fuel c path)
  walk-Quiet root zero path c s s' h = absurd (cc (walk-zero nodes c path s))
  walk-Quiet root (suc fuel) path c s s' h = (
    (walk-Sends nodes root (suc fuel) path c s s' h).0,
    λ above. elim (walk_cases nodes fuel c path s) [
      | on e r ↦ absurd (not-Under_self c (above c e))
      | skip e why r ↦ rw (← some-inj (sym r ∙ h)) refl
      | inside e node found new r ↦
          visit_node-Quiet (walk nodes fuel) (walk-Quiet root fuel) c path node found s s' above
            (sym r ∙ h)
    ],
  )

unreachable_nil :
    (visited ks : List String)
    → ((k : String) → elem k ks ≡ true → elem k visited ≡ true)
    → unreachable visited ks ≡ []
unfolding unreachable
unreachable_nil visited [] h = refl
unreachable_nil visited (k ∷ ks) h =
    rw (h k (first_elem k ks)) (unreachable_nil visited ks (λ j m. h j (later_elem j k ks m)))

walk_complete :
    (bt : Bt) (s : Walk)
    → IsWellFormed bt
    → walk bt.nodes (suc (length bt.nodes)) bt.root_id [] (start bt) ≡ some s
    → finish bt s ≡ []
walk_complete bt s w walked =
    let (p, quiet) =
      walk-Quiet bt.nodes w.valid w.ends bt.root_id _ [] bt.root_id (start bt) s walked in
    let clean =
      quiet (λ v k. absurd (ground arith)) ∙ AllValid-check_nodes bt.nodes bt.nodes w.valid in
    let (ok, root_done) =
      (walk-Sends bt.nodes bt.root_id _ [] bt.root_id (start bt) s walked).1 clean (start-Sound bt)
        (λ _. here) in
    let met = unreachable_nil s.visited (keys bt.nodes) (λ k m.
      (Done-of-Reach bt.nodes bt.root_id s ok (root_done w.rooted)
        (w.reached k (sym (elem-keys k bt.nodes) ∙ m))).0) in
    rw (clean, met) refl

check_structure_integrity_complete :
    (bt : Bt) → IsWellFormed bt → check_structure_integrity bt ≡ some []
unfolding check_structure_integrity
check_structure_integrity_complete bt w =
    let named = ==_of_ne bt.root_id "" w.named in
    let (vs, answer) = check_structure_integrity_total bt in
    let (s, walked, out) =
      >>=-eq-some (walk bt.nodes (suc (length bt.nodes)) bt.root_id [] (start bt))
        (λ s. some (finish bt s)) (sym (rw (named, w.rooted) refl) ∙ answer) in
    rw (named, w.rooted, walked, walk_complete bt s w walked) refl

-- The check reports nothing about a tree exactly if the tree is well-formed: it is named by a root
-- that is a node, the nodes are valid one by one, each is reached from the root, and no way down
-- goes on for ever.
pub check_structure_integrity_iff :
    (bt : Bt) → (check_structure_integrity bt ≡ some []) ↔ IsWellFormed bt
check_structure_integrity_iff bt =
    (check_structure_integrity_sound bt, check_structure_integrity_complete bt)
