-- ===== src/Validators.antt =====
-- The behaviour tree as the generation pipeline passes it on, and what the validators of
-- app/generation/validators report about it.
pub mod Structure
pub mod Capability
pub mod Safety
pub mod Gate
pub mod Repair
use hmta_service.Prelude.{ℕ, String, Option, List}
use hmta_service.Prelude.Dict.{Dict}

-- One entry of `bt["nodes"]`; `none` is a missing key.
pub record BtNode : Type 0 where
  pub node_id : Option String
  pub node_type : String
  pub name : Option String
  pub entity : Option String
  pub intent : Option String
  pub children : List String

-- A missing `root_id` is the empty text, a missing `nodes` the empty dictionary.
pub record Bt : Type 0 where
  pub root_id : String
  pub nodes : Dict BtNode

-- A capability that an entity lists: a text, a dictionary with `id` and `name` (the empty text where
-- the key is missing), or anything else.
pub data Cap : Type 0 where
  named : String → Cap
  entry : String → String → Cap
  other : Cap

-- What the validators read of an entity; a missing `entity_id` is the empty text.
pub record Entity : Type 0 where
  pub entity_id : String
  pub status : Option String
  pub capabilities : List Cap

-- The rules, with the fields of a report that the code computes; its wording is left out.
pub data Violation : Type 0 where
  missing_root_id : Violation
  root_not_found : String → Violation
  node_id_mismatch : String → Option String → Violation
  unresolved_child : String → String → Violation
  empty_composite leaf_has_children : String → String → Violation
  invalid_decorator_arity : String → String → ℕ → Violation
  cycle_detected : String → List String → Violation
  self_loop unreachable_node : String → Violation
  capability_mismatch : String → String → String → Violation
  offline_entity_assigned : String → String → Violation
  missing_human_gate_for_critical : Violation
