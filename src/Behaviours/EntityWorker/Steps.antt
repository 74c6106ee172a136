-- ===== src/Behaviours/EntityWorker/Steps.antt =====
-- How the worker carries a task out: its steps, their commands, and the request for help.
use hmta_service.Prelude.{
  ◌+◌, String, Option, none, some, Bool, true, false, not, ◌&&◌, ◌||◌, List, [], ◌∷◌, ◌==◌, leb,
  elem, any, length, get_elem?, if◌then◌else◌,
}
use hmta_service.Prelude.Dict.{lookup}
use hmta_service.Prelude.Text.{concat}
use hmta_service.Command.{CommandState, completed, failed, cancelled, AbstractCommand, Translators}
use hmta_service.Command.Status.{or_default, get_status, cancel}
use hmta_service.Command.Resolver.{resolve}
use hmta_service.Command.Directives.{set_directive_task_id}
use hmta_service.Behaviours.{
  answer_id, text, is_truthy, Datum, value, path, fields, Task, Blackboard,
}
use hmta_service.Behaviours.EntityWorker.{
  EntityWorker, WorkerWorld, CommandParams, own, waypoints, target, assist,
}

abbrev pub nav_intents : List String
nav_intents = "navigation" ∷ "navigate" ∷ "move" ∷ "move_to" ∷ []

abbrev pub nav_not_needed : List String
nav_not_needed =
    "navigation" ∷ "navigate" ∷ "move" ∷ "move_to" ∷ "patrol" ∷ "follow_path" ∷ "follow_by_path"
    ∷ "halt" ∷ "wait" ∷ "stop" ∷ []

-- `_build_exec_steps`
unfoldable pub build_exec_steps : Task → List String
build_exec_steps t =
    if elem t.intent nav_not_needed
    then t.intent ∷ []
    else if any (λ c. elem c nav_intents) t.required_capabilities && not (elem t.intent nav_intents)
    then "navigation" ∷ t.intent ∷ []
    else t.intent ∷ []

abbrev is_given : Datum → Bool
is_given (value v) = is_truthy (some v)
is_given (path []) = false
is_given (path (p ∷ ps)) = true
is_given (fields []) = false
is_given (fields (f ∷ fs)) = true

abbrev or_else : Option Datum → Datum → Datum
or_else none other = other
or_else (some d) other = if is_given d then d else other

-- A text that is there.
abbrev pub given : Option String → Option String
given none = none
given (some s) = if s == "" then none else some s

abbrev pub step_name : EntityWorker → Task → String
step_name w t = or_default (get_elem? w.exec_steps w.step_index) t.intent

unfoldable pub supervisor : EntityWorker → Task → String
supervisor w t = if t.human_supervisor == "" then w.human_supervisor_id else t.human_supervisor

-- `_should_escalate_to_human`, for a worker with a task.
unfoldable pub should_escalate_to_human : EntityWorker → Task → Bool
unfolding supervisor
should_escalate_to_human w t = not (supervisor w t == "")

-- `_write_intervention_reason`
unfoldable pub write_intervention_reason : EntityWorker → Bool → Task → Task
write_intervention_reason w timed_out t = record t {
  human_intervention_reason = some (record {
    step = step_name w t;
    timed_out = timed_out;
    progress =
        if step_name w t == t.intent || leb (length w.exec_steps) 1
        then none
        else some (w.step_index + 1, length w.exec_steps);
  });
}

pub data Poll : Type 0 where
  succeeded broken open_still : Poll

abbrev read_state : CommandState → Poll
read_state completed = succeeded
read_state failed = broken
read_state cancelled = broken
read_state _ = open_still

module _ {Payload : Type 0} where
  -- `_poll_command_result`, for a command that is there.
  unfoldable pub poll_command_result : EntityWorker → WorkerWorld Payload → String → Poll
  poll_command_result w s id =
      if w.has_resolver then read_state (get_status s.resolver id).state else open_still

  abbrev pub cancel_command : EntityWorker → WorkerWorld Payload → WorkerWorld Payload
  cancel_command w s = elim (given w.command_id) [
    | none ↦ s
    | some id ↦ if w.has_resolver then record s { resolver = cancel id s.resolver } else s
  ]

  unfoldable pub terminate : EntityWorker → WorkerWorld Payload → WorkerWorld Payload
  terminate w s = cancel_command w s

module _ {Payload : Type 0} (tx : Translators CommandParams Payload) where
  abbrev pub assist_command : String → EntityWorker → Task → AbstractCommand CommandParams
  assist_command fresh_id w t = record {
    command_id = fresh_id;
    intent = "task.assist";
    entity_id = supervisor w t;
    params = assist (record {
      task_id = t.id;
      task_intent = t.intent;
      failing_step = step_name w t;
      step_progress = (w.step_index + 1, length w.exec_steps);
      task_params = t.params;
      required_capabilities = t.required_capabilities;
      entity = w.entity_id;
      reason = concat (step_name w t) "_failure";
    });
    node_id = concat "fallback_" t.id;
  }

  abbrev asked :
      EntityWorker → Task → WorkerWorld Payload → Option String → EntityWorker × WorkerWorld Payload
  asked w t s none = (w, s)
  asked w t s (some id) = (
    record w { command_id = some id },
    record s { resolver = set_directive_task_id id t.id s.resolver },
  )

  -- `_dispatch_human_fallback_directive`
  unfoldable pub dispatch_human_fallback_directive :
      String → EntityWorker → Task → WorkerWorld Payload → EntityWorker × WorkerWorld Payload
  unfolding supervisor set_directive_task_id
  dispatch_human_fallback_directive fresh_id w t s =
      if w.has_resolver
      then (let (r, result) = resolve tx (assist_command fresh_id w t) s.resolver in
          asked w t (record s { resolver = r }) (answer_id result))
      else (w, s)

module _ {Payload : Type 0} (tx : Translators CommandParams Payload)
    (zone_target : Blackboard → Datum → Datum) where
  -- The intent and the parameters of a step: a step of navigation follows the task's path if it has
  -- one, and else goes to its zone.
  unfoldable pub navigate : Blackboard → Task → String → String × CommandParams
  navigate bb t step =
      let zone = or_else (lookup "zone_id" t.params) (
        or_else (lookup "target_zone" t.params)
          (or_else (lookup "target" t.params) (value (text t.zone_id)))) in
      elim (lookup "waypoints" t.params) [
        | some (path (p ∷ ps)) ↦ ("follow_path", waypoints (p ∷ ps))
        | _ ↦ (step, target (if is_given zone then zone_target bb zone else zone))
      ]

  unfoldable pub step_command : Blackboard → Task → String → String × CommandParams
  unfolding navigate
  step_command bb t step =
      if elem step nav_intents then navigate bb t step else (step, own t.params)

  -- `_dispatch_step`
  unfoldable pub dispatch_step :
      String
      → EntityWorker
      → Task
      → String
      → WorkerWorld Payload
      → WorkerWorld Payload × Option String
  dispatch_step fresh_id w t step s =
      if w.has_resolver
      then (let (intent, params) = step_command s.bb t step in
          let (r, result) =
            resolve tx
              (record {
                command_id = fresh_id;
                intent = intent;
                entity_id = w.entity_id;
                params = params;
                node_id = t.id;
              })
              s.resolver in
          (record s { resolver = r }, given (answer_id result)))
      else (s, none)
