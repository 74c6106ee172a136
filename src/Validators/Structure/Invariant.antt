-- ===== src/Validators/Structure/Invariant.antt =====
-- What the walk keeps: a node that is left has all that is below it visited, and without cycle.
use mathlib.Core.WellFounded.{Acc}
use hmta_service.Prelude.{
  ℕ, zero, suc, String, Option, none, some, true, false, List, [], ◌∷◌, ◌++◌, ◌==◌, ◌≡◌, refl, sym,
  ◌∙◌, arith, ◌⊎◌, inl, inr, elem, add, discard, Bool-cases, elem-add, elem-discard, append-eq-nil,
  eq_of_==, ==_refl, first_elem, later_elem,
}
use hmta_service.Prelude.Dict.{Dict, lookup, has, lookup-has, has-eq-true}
use hmta_service.Prelude.Options.{>>=-eq-some, some-inj}
use hmta_service.Validators.{BtNode, Violation}
use hmta_service.Validators.Structure.{
  Walk, report, enter, leave, visit_child, visit_children, visit_node, walk,
}
use hmta_service.Validators.Structure.Graph.{Child, Reach, step, Ends}
use hmta_service.Validators.Structure.Steps.{
  walk-zero, walk_cases, on, skip, inside, visit_child_cases, self, down,
}

leave-same :
    (node_id k : String) (xs ys : List String)
    → ((j : String) → elem j ys ≡ elem j (add node_id xs))
    → elem node_id xs ≡ false
    → elem k (discard node_id ys) ≡ elem k xs
leave-same node_id k xs ys same off = elim (Bool-cases (node_id == k)) [
  | inl e ↦
      let q = eq_of_== node_id k e in
      let off' : elem k xs ≡ false = rw (← q) off in ground (arith, elem-discard k node_id ys)
  | inr e ↦ ground (arith, elem-discard k node_id ys, same k, elem-add k node_id xs)
]

-- A node that the walk has entered and left.
abbrev pub Done : Walk → String → Type 0
Done s v = (elem v s.visited ≡ true) × (elem v s.visiting ≡ false)

pub record Passed (s s' : Walk) : Type 0 where
  pub same : (k : String) → elem k s'.visiting ≡ elem k s.visiting
  pub more : (k : String) → elem k s.visited ≡ true → elem k s'.visited ≡ true
  pub clean : s'.violations ≡ [] → s.violations ≡ []

pub record Sound (nodes : Dict BtNode) (root : String) (s : Walk) : Type 0 where
  pub reached : (v : String) → elem v s.visited ≡ true → Reach nodes root v
  pub ends : (v : String) → Done s v → Ends nodes v
  pub below : (v c : String) → Done s v → Child nodes c v → Done s c

Passed-refl : (s : Walk) → Passed s s
Passed-refl s = record { same = λ k. refl; more = λ k h. h; clean = λ h. h }

Passed-trans : {s t u : Walk} → Passed s t → Passed t u → Passed s u
Passed-trans p q = record {
  same = λ k. q.same k ∙ p.same k;
  more = λ k h. q.more k (p.more k h);
  clean = λ h. p.clean (q.clean h);
}

Passed-Done : {s t : Walk} (k : String) → Passed s t → Done s k → Done t k
Passed-Done k p d = (p.more k d.0, p.same k ∙ d.1)

not_clean : (v : Violation) (s : Walk) → (report v s).violations ≡ [] → ⊥
not_clean v s h = let (_, e) = append-eq-nil s.violations (v ∷ []) h in cc

Passed-report : (v : Violation) (s : Walk) → Passed s (report v s)
Passed-report v s = record {
  same = λ k. refl;
  more = λ k h. h;
  clean = λ h. absurd (not_clean v s h);
}

module _ (nodes : Dict BtNode) (root : String) where
  -- A call keeps the invariant if it reports nothing, and then `c` is done.
  abbrev pub Sends : String → Walk → Walk → Type 0
  Sends c s s' =
      Passed s s'
      × (s'.violations ≡ []
          → Sound nodes root s
          → (has c nodes ≡ true → Reach nodes root c)
          → Sound nodes root s' × (has c nodes ≡ true → Done s' c))

  abbrev SendsAll : List String → Walk → Walk → Type 0
  SendsAll cs s s' =
      Passed s s'
      × (s'.violations ≡ []
          → Sound nodes root s
          → ((c : String) → elem c cs ≡ true → has c nodes ≡ true → Reach nodes root c)
          → Sound nodes root s'
            × ((c : String) → elem c cs ≡ true → has c nodes ≡ true → Done s' c))

  abbrev pub CallSends : (String → Walk → Option Walk) → Type 0
  CallSends call = (c : String) (s s' : Walk) → call c s ≡ some s' → Sends c s s'

  visit_child-Sends :
      (call : String → Walk → Option Walk)
      → CallSends call
      → (node_id : String) → CallSends (visit_child call node_id)
  visit_child-Sends call sends node_id c s s' h = elim (visit_child_cases call node_id c s) [
    | self e r ↦
        let q = some-inj (sym r ∙ h) in
        rw (← q) (Passed-report _ s, λ none_left. absurd (not_clean _ s none_left))
    | down e r ↦ sends c s s' (sym r ∙ h)
  ]

  visit_children-Sends :
      (call : String → Walk → Option Walk)
      → CallSends call
      → (node_id : String) (cs : List String) (s s' : Walk)
      → visit_children call node_id cs s ≡ some s'
      → SendsAll cs s s'
  unfolding visit_children
  visit_children-Sends call sends node_id [] s s' h =
      rw (← some-inj h) (Passed-refl s, λ clean ok reach. (ok, λ c m. absurd (cc)))
  visit_children-Sends call sends node_id (c ∷ cs) s s' h =
      let (t, first, rest) = >>=-eq-some (visit_child call node_id c s) _ h in
      let (p, sound) = visit_child-Sends call sends node_id c s t first in
      let (p', sound') = visit_children-Sends call sends node_id cs t s' rest in
      (
        Passed-trans p p',
        λ clean ok reach.
            let (ok', done) = sound (p'.clean clean) ok (reach c (first_elem c cs)) in
            let (ok'', dones) = sound' clean ok' (λ d m. reach d (later_elem d c cs m)) in
            (
              ok'',
              λ d m r. elim (Bool-cases (c == d)) [
                | inl e ↦ let q = eq_of_== c d e in rw (← q) (Passed-Done c p' (done (rw q r)))
                | inr e ↦ dones d (ground arith) r
              ],
            ),
      )

  enter-Sound :
      (node_id : String) (s : Walk)
      → elem node_id s.visited ≡ false
      → Reach nodes root node_id
      → Sound nodes root s
      → Sound nodes root (enter node_id s)
  enter-Sound node_id s new reach ok = record {
    reached = λ v h. elim (Bool-cases (node_id == v)) [
      | inl e ↦ rw (← eq_of_== node_id v e) reach
      | inr e ↦ ok.reached v (ground (arith, elem-add v node_id s.visited))
    ];
    ends = λ v d. ok.ends v (before v d);
    below = λ v c d ch. after c (ok.below v c (before v d) ch);
  }
    where
      before : (v : String) → Done (enter node_id s) v → Done s v
      before v d =
          ground (arith, d.0, d.1, elem-add v node_id s.visited, elem-add v node_id s.visiting)

      after : (c : String) → Done s c → Done (enter node_id s) c
      after c d = elim (Bool-cases (node_id == c)) [
        | inl e ↦
            let q = eq_of_== node_id c e in
            let old : elem node_id s.visited ≡ true = rw q (d.0) in absurd (ground arith)
        | inr e ↦
            ground (arith, d.0, d.1, elem-add c node_id s.visited, elem-add c node_id s.visiting)
      ]

  leave-Sound :
      (node_id : String) (node : BtNode) (t : Walk)
      → lookup node_id nodes ≡ some node
      → elem node_id t.visited ≡ true
      → ((c : String) → elem c node.children ≡ true → has c nodes ≡ true → Done t c)
      → Sound nodes root t
      → Sound nodes root (leave node_id t)
  leave-Sound node_id node t found seen dones ok = record {
    reached = ok.reached;
    ends = λ v d. elim (Bool-cases (node_id == v)) [
      | inl e ↦ rw (← eq_of_== node_id v e) (Acc.intro node_id (λ c ch. ok.ends c (child c ch)))
      | inr e ↦ ok.ends v (before v e d)
    ];
    below = λ v c d ch. elim (Bool-cases (node_id == v)) [
      | inl e ↦ after c (child c (rw (eq_of_== node_id v e) ch))
      | inr e ↦ after c (ok.below v c (before v e d) ch)
    ];
  }
    where
      child : (c : String) → Child nodes c node_id → Done t c
      child c ch =
          let q : ch.node ≡ node = some-inj (sym ch.found ∙ found) in
          dones c (rw (← q) ch.listed) ch.resolved

      before : (v : String) → (node_id == v) ≡ false → Done (leave node_id t) v → Done t v
      before v e d = ground (arith, d.0, d.1, elem-discard v node_id t.visiting)

      after : (c : String) → Done t c → Done (leave node_id t) c
      after c d = ground (arith, d.0, d.1, elem-discard c node_id t.visiting)

  visit_node-Sends :
      (call : String → List String → Walk → Option Walk)
      → ((path : List String) → CallSends (λ c. call c path))
      → (node_id : String) (path : List String) (node : BtNode) → lookup node_id nodes ≡ some node
      → (s s' : Walk) → elem node_id s.visiting ≡ false
      → elem node_id s.visited ≡ false
      → visit_node call node_id path node s ≡ some s'
      → Sends node_id s s'
  unfolding visit_node
  visit_node-Sends call sends node_id path node found s s' off new h =
      let (t, inner, last) =
        >>=-eq-some (visit_children (λ c. call c (path ++ node_id ∷ [])) node_id node.children _) _
          h in
      let (p, sound) =
        visit_children-Sends (λ c. call c (path ++ node_id ∷ [])) (sends (path ++ node_id ∷ []))
          node_id node.children (enter node_id s) t inner in
      let seen : elem node_id t.visited ≡ true =
        p.more node_id (elem-add node_id node_id s.visited ∙ rw (==_refl node_id) refl) in
      let there = lookup-has node_id nodes node found in
      rw (← some-inj last) (
        record {
          same = λ k. leave-same node_id k s.visiting t.visiting p.same off;
          more = λ k m. p.more k (elem-add k node_id s.visited ∙ ground arith);
          clean = p.clean;
        },
        λ clean ok reach.
            let (ok', dones) = sound clean (enter-Sound node_id s new (reach there) ok) (λ c m r.
              step (reach there)
                (record { node = node; found = found; listed = m; resolved = r })) in
            (
              leave-Sound node_id node t found seen dones ok',
              λ _. (seen, leave-same node_id node_id s.visiting t.visiting p.same off ∙ off),
            ),
      )

  seen_of_skip :
      (c : String) (s : Walk)
      → (lookup c nodes ≡ none) ⊎ (elem c s.visited ≡ true)
      → has c nodes ≡ true
      → elem c s.visited ≡ true
  seen_of_skip c s (inl gone) there = absurd (cc (has-eq-true c nodes there).1)
  seen_of_skip c s (inr old) there = old

  pub walk-Sends : (fuel : ℕ) (path : List String) → CallSends (λ c. walk nodes fuel c path)
  walk-Sends zero path c s s' h = absurd (cc (walk-zero nodes c path s))
  walk-Sends (suc fuel) path c s s' h = elim (walk_cases nodes fuel c path s) [
    | on e r ↦
        rw (← some-inj (sym r ∙ h))
          (Passed-report _ s, λ none_left. absurd (not_clean _ s none_left))
    | skip e why r ↦
        rw (← some-inj (sym r ∙ h))
          (Passed-refl s, λ clean ok reach. (ok, λ there. (seen_of_skip c s why there, e)))
    | inside e node found new r ↦
        visit_node-Sends (walk nodes fuel) (walk-Sends fuel) c path node found s s' e new
          (sym r ∙ h)
  ]
