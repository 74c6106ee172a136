-- ===== src/Command/Status.antt =====
-- app/execution/command/command_resolver.py: the updates of command statuses.
use hmta_service.Prelude.{
  String, Option, none, some, Bool, false, ◌&&◌, [], ◌∷◌, ◌==◌, if◌then◌else◌,
}
use hmta_service.Prelude.Dict.{Dict, lookup, put}
use hmta_service.Command.{
  CommandState, cancelled, unknown, in_flight, CommandStatus, default_status, CommandResolver,
}

abbrev pub text_is : Option String → String → Bool
text_is none s = false
text_is (some t) s = t == s

abbrev pub or_default {ℓ} : {A : Type ℓ} → Option A → A → A
or_default none a = a
or_default (some b) a = b

abbrev pub superseded : String
superseded = "superseded by new motion command"

module _ {Params : Type 0} where
  -- `self._commands[command_id]` is written in place where it is, else a new status is made.
  unfoldable pub set_state :
      CommandState → Option String → CommandStatus Params → CommandStatus Params
  set_state state error status = record status { state = state; error = error }

  unfoldable pub update_commands :
      String
      → CommandState
      → Option String
      → Dict (CommandStatus Params)
      → Dict (CommandStatus Params)
  unfolding set_state
  update_commands command_id state error commands =
      put command_id
        (elim (lookup command_id commands) [
          | some status ↦ set_state state error status
          | none ↦ default_status command_id state error
        ])
        commands

  -- The mutex: one pass over the commands. A status is a shared object, so the update of a command
  -- that is there changes that entry alone.
  unfoldable pub is_open : String → CommandStatus Params → Bool
  is_open entity_id status = status.entity_id == entity_id && in_flight status.state

  unfoldable pub close_open : String → CommandStatus Params → CommandStatus Params
  unfolding is_open set_state
  close_open entity_id status =
      if is_open entity_id status then set_state cancelled (some superseded) status else status

  unfoldable pub cancel_open : String → Dict (CommandStatus Params) → Dict (CommandStatus Params)
  cancel_open entity_id [] = []
  cancel_open entity_id ((k, status) ∷ rest) =
      (k, close_open entity_id status) ∷ cancel_open entity_id rest

module _ {Params Payload : Type 0} where
  unfoldable pub update_status :
      String
      → CommandState
      → Option String
      → CommandResolver Params Payload
      → CommandResolver Params Payload
  unfolding update_commands
  update_status command_id state error r = record r {
    commands = update_commands command_id state error r.commands;
  }

  unfoldable pub cancel : String → CommandResolver Params Payload → CommandResolver Params Payload
  unfolding update_status
  cancel command_id r = update_status command_id cancelled none r

  unfoldable pub get_status : CommandResolver Params Payload → String → CommandStatus Params
  get_status r command_id =
      or_default (lookup command_id r.commands) (default_status "" unknown none)
