-- ===== src/Command/Completion.antt =====
-- app/execution/command/command_resolver.py: `complete_by_entity` and `complete_by_action_result`.
pub mod Laws
use hmta_service.Prelude.{
  String, Option, none, some, Bool, true, false, not, ◌&&◌, List, [], ◌∷◌, ◌++◌, ◌==◌, ◌≡◌, ◌⊎◌,
  inl, inr, refl, sym, ap, ◌∙◌, arith, if◌then◌else◌, All, Bool-cases, Option-cases,
}
use hmta_service.Prelude.Dict.{Dict, lookup, put, lookup-put, IsDict, lookup_entry}
use hmta_service.Prelude.Options.{some-inj}
use hmta_service.Command.{
  CommandState, completed, failed, in_flight, CommandStatus, CommandResolver,
}
use hmta_service.Command.Status.{set_state, is_open, update_status}

-- What a report from the simulation says of a command.
pub record ActionResult : Type 0 where
  pub node_id : String
  pub result : String  -- in upper case, the empty text if it is missing
  pub message : Option String

module _ {Params : Type 0} where
  -- The first hit from the newest command on: the last in the order of insertion.
  unfoldable pub newest :
      (CommandStatus Params → Bool)
      → Dict (CommandStatus Params)
      → Option (String × CommandStatus Params)
  newest test [] = none
  newest test ((k, status) ∷ rest) = elim (newest test rest) [
    | some hit ↦ some hit
    | none ↦ if test status then some (k, status) else none
  ]

  unfoldable pub is_open_node : String → CommandStatus Params → Bool
  is_open_node node_id status = status.node_id == node_id && in_flight status.state

-- Python takes a missing and an empty error for false.
abbrev pub is_error : Option String → Bool
is_error none = false
is_error (some e) = not (e == "")

abbrev pub end_state : Bool → CommandState
end_state true = failed
end_state false = completed

abbrev pub action_error : ActionResult → Option String
action_error action = if action.result == "FAILURE" then action.message else none

module _ {Params Payload : Type 0} where
  abbrev pub finish :
      Option (String × CommandStatus Params)
      → CommandState
      → Option String
      → CommandResolver Params Payload
      → CommandResolver Params Payload × Bool
  finish none state error r = (r, false)
  finish (some (k, status)) state error r = (update_status k state error r, true)

  unfoldable pub complete_newest :
      (CommandStatus Params → Bool)
      → CommandState
      → Option String
      → CommandResolver Params Payload
      → CommandResolver Params Payload × Bool
  complete_newest test state error r = finish (newest test r.commands) state error r

  unfoldable pub complete_by_entity :
      String
      → Option String
      → CommandResolver Params Payload
      → CommandResolver Params Payload × Bool
  complete_by_entity entity_id error r =
      complete_newest (is_open entity_id) (end_state (is_error error)) error r

  abbrev pub or_else :
      CommandResolver Params Payload × Bool
      → CommandResolver Params Payload × Bool
      → CommandResolver Params Payload × Bool
  or_else (r, true) other = (r, true)
  or_else (r, false) other = other

  -- By the node first, then by the entity.
  unfoldable pub complete_by_action_result :
      String → ActionResult → CommandResolver Params Payload → CommandResolver Params Payload × Bool
  unfolding complete_newest complete_by_entity
  complete_by_action_result entity_id action r =
      let by_entity = complete_by_entity entity_id (action_error action) r in
      let by_node =
        complete_newest (is_open_node action.node_id) (end_state (action.result == "FAILURE"))
          (action_error action) r in
      if action.node_id == "" then by_entity else or_else by_node by_entity
