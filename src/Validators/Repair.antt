-- ===== src/Validators/Repair.antt =====
-- The loop of the generation pipeline between its builder and its validator:
-- app/generation/graph/bt_builder.py (what the node writes to the state),
-- app/generation/graph/node_registry.py (`_make_router`).
use hmta_service.Prelude.{
  String, ℕ, zero, suc, ◌+◌, ◌≤◌, Option, none, some, Bool, true, false, not, [], ◌∷◌, ◌++◌, ◌≡◌,
  length, leb,
}
use hmta_service.Prelude.Options.{◌>>=◌}
use hmta_service.Json.Trees.{Json, extract_behavior_tree}
use hmta_service.Validators.{Bt}
use hmta_service.Validators.Structure.{is_empty}
use hmta_service.Validators.Gate.{
  Verdict, passed, failed, GenerationState, Report, IsAdmissible, bt_builder, validator_node,
}

pub data Route : Type 0 where
  proceed give_up retry : Route

abbrev limit : ℕ → Option ℕ → ℕ
limit spec_limit none = spec_limit
limit spec_limit (some n) = n

abbrev route_failed : Bool → Route
route_failed true = give_up
route_failed false = retry

abbrev route_of : Verdict → Bool → Route
route_of passed worn_out = proceed
route_of failed worn_out = route_failed worn_out

-- `_router`, after the validator has written its report.
pub router : ℕ → GenerationState → Report → Route
router spec_limit state report =
    route_of report.validation_result
      (leb (limit spec_limit state.max_iterations) state.iteration_count)

-- How the loop ends: by a way out of the router, or by an exception of the builder.
pub data Ending : Type 0 where
  left_by : Route → GenerationState → Ending
  raised : GenerationState → Ending

-- The builder asks a language model for the tree: a first one where no violations are in the state,
-- else a repair. `ask` is the model's answer; `loads` and `fenced` are the parser and the pattern of
-- code fences.
module _ (ask : GenerationState → String) (loads : String → Option Json)
    (fenced : String → Option String) where
  abbrev is_repair : GenerationState → Bool
  is_repair state = elim state.violations [ none ↦ false | some vs ↦ not (is_empty vs) ]

  -- What the node returns for a tree.
  abbrev built_from : GenerationState → Bt → GenerationState
  built_from state bt = record state {
    behavior_tree = bt;
    violations = none;
    iteration_count = state.iteration_count + 1;
    generation_trace =
        state.generation_trace ++ bt_builder (is_repair state) (length bt.nodes) ∷ [];
  }

  -- The node does not catch the ValueError.
  unfoldable pub bt_builder_node : GenerationState → Option GenerationState
  bt_builder_node state =
      extract_behavior_tree loads fenced (ask state) >>= λ bt. some (built_from state bt)

  -- The state after the validator's update.
  abbrev pub after : GenerationState → Report → GenerationState
  after state report = record state {
    violations = report.violations;
    generation_trace = report.generation_trace;
  }

  abbrev next_round : (GenerationState → Option Ending) → Route → GenerationState → Option Ending
  next_round again retry state = again state
  next_round again route state = some (left_by route state)

  abbrev validate_next : ℕ → (GenerationState → Option Ending) → GenerationState → Option Ending
  validate_next spec_limit again built = validator_node built >>= λ report.
      next_round again (router spec_limit built report) (after built report)

  -- The rounds of builder, validator and router; `none` would be out of fuel.
  unfoldable pub repair_loop : ℕ → ℕ → GenerationState → Option Ending
  repair_loop spec_limit zero state = none
  repair_loop spec_limit (suc fuel) state =
      let again = repair_loop spec_limit fuel in
      elim (bt_builder_node state) [
        | none ↦ some (raised state)
        | some built ↦ validate_next spec_limit again built
      ]

  -- How the loop may end: with a tree that is admissible, after as many rounds as are allowed, or at
  -- an answer that holds no tree.
  abbrev pub IsEnd : ℕ → Ending → Type 0
  IsEnd spec_limit (left_by proceed state) = IsAdmissible state
  IsEnd spec_limit (left_by give_up state) =
      limit spec_limit state.max_iterations ≤ state.iteration_count
  IsEnd spec_limit (left_by retry state) = ⊥
  IsEnd spec_limit (raised state) = extract_behavior_tree loads fenced (ask state) ≡ none
