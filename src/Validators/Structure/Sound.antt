-- ===== src/Validators/Structure/Sound.antt =====
-- A tree that the check passes is what the check promises.
use hmta_service.Prelude.{
  suc, String, some, true, not, List, [], ◌∷◌, ◌==◌, ◌≡◌, ◌≢◌, ◌∙◌, arith, inl, inr, elem, length,
  Bool-cases, append-eq-nil, eq_of_==, ne_of_==,
}
use hmta_service.Prelude.Dict.{Dict, has, keys, elem-keys}
use hmta_service.Prelude.Options.{>>=-eq-some, some-inj}
use hmta_service.Validators.{BtNode, Bt}
use hmta_service.Validators.Structure.{
  Walk, report_if, walk, unreachable, start, finish, check_structure_integrity,
}
use hmta_service.Validators.Structure.Graph.{Reach, here, step, Ends}
use hmta_service.Validators.Structure.Nodes.{report_if-eq-nil, AllValid, check_nodes-AllValid}
use hmta_service.Validators.Structure.Invariant.{Done, Sound, walk-Sends}

-- What they ask of the tree: its root is a node, every node is valid and reached from the root,
-- and no way down goes on for ever, so there is no cycle.
pub record IsWellFormed (bt : Bt) : Type 0 where
  pub named : bt.root_id ≢ ""
  pub rooted : has bt.root_id bt.nodes ≡ true
  pub valid : AllValid bt.nodes bt.nodes
  pub reached : (k : String) → has k bt.nodes ≡ true → Reach bt.nodes bt.root_id k
  pub ends : (k : String) → has k bt.nodes ≡ true → Ends bt.nodes k

unreachable-eq-nil :
    (visited ks : List String)
    → unreachable visited ks ≡ []
    → (k : String) → elem k ks ≡ true
    → elem k visited ≡ true
unfolding unreachable
unreachable-eq-nil visited [] h k m = absurd (ground arith)
unreachable-eq-nil visited (j ∷ ks) h k m =
    let (first, rest) = append-eq-nil (report_if (not (elem j visited)) _) _ h in
    let there = report_if-eq-nil (not (elem j visited)) _ first in
    elim (Bool-cases (j == k)) [
      | inl e ↦ rw (← eq_of_== j k e) (ground arith)
      | inr e ↦ unreachable-eq-nil visited ks rest k (ground arith)
    ]

pub Done-of-Reach :
    (nodes : Dict BtNode) (root : String) (s : Walk)
    → Sound nodes root s
    → Done s root
    → {k : String} → Reach nodes root k
    → Done s k
Done-of-Reach nodes root s ok done here = done
Done-of-Reach nodes root s ok done (step {v} {c} r ch) =
    ok.below v c (Done-of-Reach nodes root s ok done r) ch

pub start-Sound : (bt : Bt) → Sound bt.nodes bt.root_id (start bt)
start-Sound bt = record {
  reached = λ v h. absurd (ground arith);
  ends = λ v d. absurd (ground (arith, d.0));
  below = λ v c d ch. absurd (ground (arith, d.0));
}

walk_sound :
    (bt : Bt) (s : Walk)
    → bt.root_id ≢ ""
    → has bt.root_id bt.nodes ≡ true
    → walk bt.nodes (suc (length bt.nodes)) bt.root_id [] (start bt) ≡ some s
    → finish bt s ≡ []
    → IsWellFormed bt
walk_sound bt s named rooted walked h =
    let (clean, met) = append-eq-nil s.violations _ h in
    let (p, sound) = walk-Sends bt.nodes bt.root_id _ [] bt.root_id (start bt) s walked in
    let (ok, root_done) = sound clean (start-Sound bt) (λ _. here) in
    let seen = unreachable-eq-nil s.visited (keys bt.nodes) met in
    record {
      named = named;
      rooted = rooted;
      valid = check_nodes-AllValid bt.nodes bt.nodes (p.clean clean);
      reached = λ k m. ok.reached k (seen k (elem-keys k bt.nodes ∙ m));
      ends = λ k m. ok.ends k (seen k (elem-keys k bt.nodes ∙ m), p.same k);
    }

pub check_structure_integrity_sound :
    (bt : Bt) → check_structure_integrity bt ≡ some [] → IsWellFormed bt
unfolding check_structure_integrity
check_structure_integrity_sound bt h = elim (Bool-cases (bt.root_id == "")) [
  | inl e ↦ absurd (ground arith)
  | inr e ↦ elim (Bool-cases (has bt.root_id bt.nodes)) [
    | inl f ↦
        let (s, walked, out) =
          >>=-eq-some (walk bt.nodes (suc (length bt.nodes)) bt.root_id [] (start bt))
            (λ s. some (finish bt s)) (ground arith) in
        walk_sound bt s (ne_of_== bt.root_id "" e) f walked (some-inj out)
    | inr f ↦ absurd (ground arith)
  ]
]
