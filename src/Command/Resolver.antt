-- ===== src/Command/Resolver.antt =====
-- app/execution/command/command_resolver.py: `resolve` and its helpers.
use hmta_service.Prelude.{
  String, Option, none, some, Bool, false, not, ◌||◌, ◌&&◌, List, [], ◌∷◌, ◌++◌, ◌==◌,
  if◌then◌else◌, elem, any,
}
use hmta_service.Prelude.Dict.{lookup, put}
use hmta_service.Prelude.Text.{lower, after_last_dot}
use hmta_service.Command.Status.{text_is, or_default, cancel_open}
use hmta_service.Command.{
  AbstractCommand, dispatched, CommandStatus, EntityInfo, ResolveError, entity_not_found,
  capability_mismatch, entity_offline, comm_lost, invalid_target, dispatch_error, ResolveResult,
  resolved, refused, Channel, robot_command, human_directive, detection_config, CommandResolver,
  Translators,
}

abbrev pub motion_intents : List String
motion_intents = "navigate" ∷ "navigation" ∷ "move" ∷ "patrol" ∷ "follow_by_path" ∷ []

abbrev pub detect_intents : List String
detect_intents = "detect" ∷ "scan" ∷ "surveil" ∷ "observe" ∷ []

abbrev pub human_directive_intents : List String
human_directive_intents =
    "path_planning" ∷ "plan_path" ∷ "plan_patrol" ∷ "plan_route" ∷ "approve" ∷ "approval"
    ∷ "command.approve" ∷ "observation" ∷ "observe" ∷ "reconnaissance" ∷ "survey" ∷ "override"
    ∷ "manual_control" ∷ "command.override" ∷ "remote_operate" ∷ "remote_control" ∷ "report"
    ∷ "system.report" ∷ "follow_by_path" ∷ "task.assist" ∷ "task_assist" ∷ "goal_confirmation" ∷ []

-- The last part of the intent, in lower case.
unfoldable pub intent_lower : String → String
unfolding lower after_last_dot
intent_lower intent = after_last_dot (lower intent)

abbrev pub is_motion : String → Bool
is_motion intent = elem (intent_lower intent) motion_intents

module _ {Params Payload : Type 0} (tx : Translators Params Payload) where
  -- `_has_capability`
  unfoldable pub has_capability : CommandResolver Params Payload → String → String → Bool
  has_capability r entity_id intent =
      (elim (lookup entity_id r.schema) [
        | none ↦ false
        | some e ↦
            text_is e.entity_type "human"
            && (elem intent human_directive_intents
                || elem (tx.resolve_alias intent) human_directive_intents)
      ])
      || (let caps = or_default (lookup entity_id r.capabilities) [] in
          elem intent caps || any (λ cap. tx.resolve_alias cap == tx.resolve_alias intent) caps)

  abbrev pub publish :
      Channel → String → Payload → CommandResolver Params Payload → CommandResolver Params Payload
  publish channel entity_id payload r = record r {
    published = r.published ++ (channel, entity_id, payload) ∷ [];
  }

  -- `_push_task_detection_config`, in the `try` of the dispatch.
  unfoldable pub push_detection :
      AbstractCommand Params
      → CommandResolver Params Payload
      → CommandResolver Params Payload × Option ResolveError
  push_detection command r = elim (tx.detection command) [
    | none ↦ (r, some dispatch_error)
    | some none ↦ (r, none)
    | some (some config) ↦ (publish detection_config command.entity_id config r, none)
  ]

  abbrev pub send_robot :
      AbstractCommand Params
      → Payload
      → CommandResolver Params Payload
      → CommandResolver Params Payload × Option ResolveError
  send_robot command payload r =
      let sent = publish robot_command command.entity_id payload r in
      if tx.is_invalid_target payload
      then (r, some invalid_target)
      else if elem (intent_lower command.intent) detect_intents
      then push_detection command sent
      else (sent, none)

  unfoldable pub dispatch :
      AbstractCommand Params
      → EntityInfo
      → CommandResolver Params Payload
      → CommandResolver Params Payload × Option ResolveError
  unfolding push_detection
  dispatch command entity r =
      if text_is entity.entity_type "robot"
      then elim (tx.robot command entity) [
        | none ↦ (r, some dispatch_error)
        | some payload ↦ send_robot command payload r
      ]
      else elim (tx.human command entity) [
        | none ↦ (r, some dispatch_error)
        | some directive ↦ (publish human_directive command.entity_id directive r, none)
      ]

  abbrev pub new_status : AbstractCommand Params → CommandStatus Params
  new_status command = record {
    command_id = command.command_id;
    entity_id = command.entity_id;
    node_id = command.node_id;
    state = dispatched;
    error = none;
    result = none;
  }

  abbrev pub track :
      AbstractCommand Params
      → CommandResolver Params Payload × Option ResolveError
      → CommandResolver Params Payload × ResolveResult
  track command (r, some error) = (r, refused error)
  track command (r, none) = (
    record r { commands = put command.command_id (new_status command) r.commands },
    resolved command.command_id,
  )

  abbrev pub with_mutex :
      AbstractCommand Params → CommandResolver Params Payload → CommandResolver Params Payload
  with_mutex command r =
      if is_motion command.intent
      then record r { commands = cancel_open command.entity_id r.commands }
      else r

  abbrev pub resolve_for :
      AbstractCommand Params
      → EntityInfo
      → CommandResolver Params Payload
      → CommandResolver Params Payload × ResolveResult
  resolve_for command entity r =
      if entity.is_blank
      then (r, refused entity_not_found)
      else if not (has_capability r command.entity_id command.intent)
      then (r, refused capability_mismatch)
      else if text_is entity.status "offline"
      then (r, refused entity_offline)
      else if text_is entity.comm_status "offline" || text_is entity.comm_status "comm_lost"
      then (r, refused comm_lost)
      else track command (dispatch command entity (with_mutex command r))

  unfoldable pub resolve :
      AbstractCommand Params
      → CommandResolver Params Payload
      → CommandResolver Params Payload × ResolveResult
  resolve command r = elim (lookup command.entity_id r.schema) [
    | none ↦ (r, refused entity_not_found)
    | some entity ↦ resolve_for command entity r
  ]
