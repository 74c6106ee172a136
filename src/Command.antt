-- ===== src/Command.antt =====
-- The command layer's data: app/schemas/command.py, and what app/execution/command/command_resolver.py
-- keeps of entities and commands.
pub mod Status
pub mod Resolver
pub mod Mutex
pub mod Completion
pub mod Directives
pub mod Registry
use hmta_service.Prelude.{
  ℕ, String, Option, none, some, Bool, true, false, ◌||◌, ◌&&◌, List, [], ◌∷◌,
}
use hmta_service.Prelude.Dict.{Dict}

-- A command's parameters, and what a translator makes of it, are not looked into.
pub record AbstractCommand (Params : Type 0) : Type 0 where
  pub command_id : String
  pub intent : String
  pub entity_id : String
  pub params : Params
  pub node_id : String

pub data CommandState : Type 0 where
  dispatched running executing completed failed cancelled unknown : CommandState

abbrev pub in_flight : CommandState → Bool
in_flight dispatched = true
in_flight running = true
in_flight _ = false

-- What a human's answer carries: its decision, if it has one, and its parameters.
pub record Response (Params : Type 0) : Type 0 where
  pub decision : Option String
  pub params : Option Params

pub record CommandStatus (Params : Type 0) : Type 0 where
  pub command_id : String
  pub entity_id : String
  pub node_id : String
  pub state : CommandState
  pub error : Option String
  pub result : Option (Response Params)

-- The status that a fresh `CommandStatus` has.
abbrev pub default_status :
    {Params : Type 0} → String → CommandState → Option String → CommandStatus Params
default_status command_id state error = record {
  command_id = command_id;
  entity_id = "";
  node_id = "";
  state = state;
  error = error;
  result = none;
}

-- A capability in an entity's payload: a text, or a dictionary with `id` and `name`.
pub data Capability : Type 0 where
  text : String → Capability
  dict : Option String → Option String → Capability

-- An entity's payload; `is_blank` tells the empty dictionary, which Python takes for false.
pub record EntityInfo : Type 0 where
  pub is_blank : Bool
  pub entity_id : String
  pub entity_type : Option String
  pub status : Option String
  pub comm_status : Option String
  pub capabilities : Option (List Capability)
  pub structured_capabilities : Option (List Capability)
  pub structured_capabilities_camel : Option (List Capability)

pub data ResolveError : Type 0 where
  entity_not_found capability_mismatch entity_offline comm_lost invalid_target : ResolveError
  dispatch_error : ResolveError

pub data ResolveResult : Type 0 where
  resolved : String → ResolveResult
  refused : ResolveError → ResolveResult

pub data Channel : Type 0 where
  robot_command human_directive detection_config : Channel

-- The resolver's dictionaries, and what it has published on the bus, the newest last.
pub record CommandResolver (Params Payload : Type 0) : Type 0 where
  pub schema : Dict EntityInfo
  pub capabilities : Dict (List String)
  pub commands : Dict (CommandStatus Params)
  pub directive_task_map : Dict String
  pub published : List (Channel × String × Payload)

-- What the resolver calls: the alias table of the ontology, and the translators, where `none` is
-- an exception. `detection` is `some none` if a command carries no detection classes.
pub record Translators (Params Payload : Type 0) : Type 0 where
  pub resolve_alias : String → String
  pub robot : AbstractCommand Params → EntityInfo → Option Payload
  pub is_invalid_target : Payload → Bool
  pub detection : AbstractCommand Params → Option (Option Payload)
  pub human : AbstractCommand Params → EntityInfo → Option Payload
