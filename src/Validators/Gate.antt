-- ===== src/Validators/Gate.antt =====
-- app/generation/graph/constraint_validator.py: the pipeline node that runs the three checks.
use hmta_service.Prelude.{
  ℕ, String, Option, none, some, Bool, List, [], ◌∷◌, ◌++◌, ◌≡◌, ◌↔◌, refl, sym, ◌∙◌, All, length,
  append-eq-nil,
}
use hmta_service.Prelude.Options.{◌>>=◌, some-inj}
use hmta_service.Validators.{Bt, Entity, Violation}
use hmta_service.Validators.Structure.{check_structure_integrity}
use hmta_service.Validators.Structure.Total.{check_structure_integrity_total}
use hmta_service.Validators.Structure.Sound.{IsWellFormed}
use hmta_service.Validators.Structure.Complete.{check_structure_integrity_iff}
use hmta_service.Validators.Capability.{check_capability_match}
use hmta_service.Validators.Capability.Exact.{IsCapable, check_capability_match_iff}
use hmta_service.Validators.Safety.{IsSafe, check_safety_constraints, check_safety_constraints_iff}

pub data Verdict : Type 0 where
  passed failed : Verdict

-- The entries of `generation_trace`: the validator's verdict and number of reports, the builder's
-- mode and number of nodes.
pub data TraceEntry : Type 0 where
  validator : Verdict → ℕ → TraceEntry
  bt_builder : Bool → ℕ → TraceEntry

-- What the nodes of the repair loop read of the pipeline's state.
pub record GenerationState : Type 0 where
  pub behavior_tree : Bt
  pub entities : List Entity
  pub priority : String
  pub violations : Option (List Violation)
  pub iteration_count : ℕ
  pub max_iterations : Option ℕ
  pub generation_trace : List TraceEntry

-- What it writes: `validation_report`, `violations` (`none` where there are none), the trace.
pub record Report : Type 0 where
  pub validation_result : Verdict
  pub found : List Violation
  pub violations : Option (List Violation)
  pub generation_trace : List TraceEntry

abbrev verdict : List Violation → Verdict
verdict [] = passed
verdict (_ ∷ _) = failed

abbrev non_empty : List Violation → Option (List Violation)
non_empty [] = none
non_empty (v ∷ vs) = some (v ∷ vs)

make_report : GenerationState → List Violation → Report
make_report state found = record {
  validation_result = verdict found;
  found = found;
  violations = non_empty found;
  generation_trace = state.generation_trace ++ validator (verdict found) (length found) ∷ [];
}

abbrev all_reports : GenerationState → List Violation → List Violation
all_reports state structure =
    check_capability_match state.behavior_tree state.entities
    ++ (check_safety_constraints state.behavior_tree state.entities state.priority ++ structure)

-- `none` only if the structure check were out of fuel.
pub validator_node : GenerationState → Option Report
validator_node state = check_structure_integrity state.behavior_tree >>= λ structure.
    some (make_report state (all_reports state structure))

validator_node_lem :
    (state : GenerationState) (structure : List Violation)
    → check_structure_integrity state.behavior_tree ≡ some structure
    → validator_node state ≡ some (make_report state (all_reports state structure))
unfolding validator_node
validator_node_lem state structure checked = rw checked refl

-- What a tree has to be to pass.
pub record IsAdmissible (state : GenerationState) : Type 0 where
  pub formed : IsWellFormed state.behavior_tree
  pub capable : All (λ entry. IsCapable state.entities entry.1) state.behavior_tree.nodes
  pub safe : IsSafe state.behavior_tree state.entities state.priority

verdict_passed : (vs : List Violation) → verdict vs ≡ passed → vs ≡ []
verdict_passed [] h = refl
verdict_passed (v ∷ vs) h = absurd (cc)

-- The node always comes back with a report, whose verdict is `passed` exactly if the tree is
-- well-formed, its acting nodes suit their entities, and it is safe for the task's priority.
pub validator_node_passes :
    (state : GenerationState)
    → (report : Report) × (validator_node state ≡ some report)
      × ((report.validation_result ≡ passed) ↔ IsAdmissible state)
unfolding make_report
validator_node_passes state =
    let bt = state.behavior_tree in
    let caps = check_capability_match bt state.entities in
    let rest = check_safety_constraints bt state.entities state.priority in
    let (structure, checked) = check_structure_integrity_total bt in
    (
      make_report state (caps ++ (rest ++ structure)),
      validator_node_lem state structure checked,
      (
        λ h.
            let (a, b) = append-eq-nil caps (rest ++ structure) (verdict_passed _ h) in
            let (c, d) = append-eq-nil rest structure b in
            record {
              formed = (check_structure_integrity_iff bt).0 (rw d at checked);
              capable = (check_capability_match_iff bt state.entities).0 a;
              safe = (check_safety_constraints_iff bt state.entities state.priority).0 c;
            },
        λ ok.
            let a = (check_capability_match_iff bt state.entities).1 ok.capable in
            let c = (check_safety_constraints_iff bt state.entities state.priority).1 ok.safe in
            let d = some-inj (sym checked ∙ (check_structure_integrity_iff bt).1 ok.formed) in
            rw (a, c, d) refl,
      ),
    )

non_empty_iff : (vs : List Violation) → (non_empty vs ≡ none) ↔ (verdict vs ≡ passed)
non_empty_iff [] = (λ h. refl, λ h. refl)
non_empty_iff (v ∷ vs) = (λ h. absurd (cc), λ h. absurd (cc))
