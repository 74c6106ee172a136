-- ===== src/Examples/Commands.antt =====
-- Commands for a robot and an operator through the resolver.
use hmta_service.Prelude.{String, none, some, true, false, [], ◌∷◌, ◌==◌, ◌≡◌, ◌≢◌, ◌⊎◌, refl, elem}
use hmta_service.Prelude.Dict.{lookup, put}
use hmta_service.Command.{
  AbstractCommand, CommandState, dispatched, completed, CommandStatus, EntityInfo, ResolveError,
  resolved, refused, CommandResolver, Translators, robot_command,
}
use hmta_service.Command.Status.{set_state, is_open, close_open, cancel_open}
use hmta_service.Command.Resolver.{
  intent_lower, is_motion, has_capability, dispatch, new_status, resolve,
}
use hmta_service.Command.Mutex.{IsReachable, resolve_guarded, resolve_mutex}
use hmta_service.Command.Completion.{
  ActionResult, newest, is_error, end_state, complete_by_entity, complete_by_action_result,
}
use hmta_service.Command.Completion.Laws.{
  IsCompletion, complete_by_entity_lem, complete_by_action_result_drops_failure,
}
use hmta_service.Command.Directives.{get_open_directives}

abbrev pub dog : EntityInfo
dog = record {
  is_blank = false;
  entity_id = "dog-1";
  entity_type = some "robot";
  status = some "idle";
  comm_status = none;
  capabilities = none;
  structured_capabilities = none;
  structured_capabilities_camel = none;
}

abbrev echo : Translators String String
echo = record {
  resolve_alias = λ intent. intent;
  robot = λ command entity. some command.params;
  is_invalid_target = λ payload. payload == "origin";
  detection = λ command. some none;
  human = λ command entity. some command.params;
}

abbrev scanning : CommandStatus String
scanning = record {
  command_id = "c1";
  entity_id = "dog-1";
  node_id = "n1";
  state = dispatched;
  error = none;
  result = none;
}

abbrev pub busy : CommandResolver String String
busy = record {
  schema = ("dog-1", dog) ∷ [];
  capabilities = ("dog-1", "navigate" ∷ []) ∷ [];
  commands = ("c1", scanning) ∷ [];
  directive_task_map = [];
  published = [];
}

abbrev go : AbstractCommand String
go = record {
  command_id = "c2";
  intent = "navigate";
  entity_id = "dog-1";
  params = "zone-a";
  node_id = "n2";
}

abbrev moved : CommandResolver String String
moved = record busy {
  commands =
      (
        "c1",
        record scanning {
          state = CommandState.cancelled;
          error = some "superseded by new motion command";
        },
      )
      ∷ ("c2", new_status echo go)
      ∷ [];
  published = (robot_command, "dog-1", "zone-a") ∷ [];
}

go_supersedes : resolve echo go busy ≡ (moved, resolved "c2")
unfolding resolve has_capability dispatch intent_lower lookup put cancel_open close_open
go_supersedes = refl

resolve_guarded_example :
    IsReachable echo busy go
    ⊎ (((resolve echo go busy).0 ≡ busy)
        × ((e : ResolveError) × ((resolve echo go busy).1 ≡ refused e)))
resolve_guarded_example = resolve_guarded echo go busy

go_is_motion : is_motion "navigate" ≡ true
unfolding intent_lower
go_is_motion = refl

resolve_mutex_example :
    (lookup "c2" moved.commands ≡ some (new_status echo go))
    × ((k : String) (status : CommandStatus String)
        → lookup k moved.commands ≡ some status
        → is_open "dog-1" status ≡ true
        → k ≡ "c2")
    × ((k : String) (status : CommandStatus String)
        → k ≢ "c2"
        → lookup k busy.commands ≡ some status
        → is_open "dog-1" status ≡ false
        → lookup k moved.commands ≡ some status)
resolve_mutex_example = resolve_mutex echo go busy moved "c2" go_supersedes go_is_motion

complete_by_entity_lem_example :
    IsCompletion
      (is_open "dog-1")
      (end_state (is_error (some "stuck")))
      (some "stuck")
      busy
      (complete_by_entity "dog-1" (some "stuck") busy)
complete_by_entity_lem_example = complete_by_entity_lem "dog-1" (some "stuck") busy (refl, tt)

abbrev silent_failure : ActionResult
silent_failure = record { node_id = ""; result = "FAILURE"; message = none }

busy_newest : newest (is_open "dog-1") busy.commands ≡ some ("c1", scanning)
unfolding newest is_open
busy_newest = refl

complete_by_action_result_drops_failure_example :
    ((complete_by_action_result "dog-1" silent_failure busy).1 ≡ true)
    × (lookup "c1" (complete_by_action_result "dog-1" silent_failure busy).0.commands
        ≡ some (set_state completed none scanning))
complete_by_action_result_drops_failure_example =
    complete_by_action_result_drops_failure "dog-1" silent_failure busy "c1" scanning (refl, tt)
      refl refl refl busy_newest

c1_is_open : elem "c1" (get_open_directives busy "dog-1") ≡ true
unfolding get_open_directives is_open
c1_is_open = refl
