-- ===== src/Behaviours/CommandAction/Ticks.antt =====
-- How the leaf is ticked, and stopped.
use hmta_service.Prelude.{
  ℕ, String, Option, none, some, Bool, false, List, ◌∷◌, ◌+◌, ◌-◌, ◌==◌, ◌&&◌, ltb, length,
  if◌then◌else◌,
}
use hmta_service.Behaviours.{
  value, fields, is_truthy, text, plain_set, remove, running, path, success, failure, Status,
  lookup, Datum,
}
use hmta_service.Command.{Translators}
use hmta_service.Command.CommandState.{completed, failed}
use hmta_service.Behaviours.CommandAction.{
  param_wait_timeout_sec, sweeping, fallback_execution_timeout, Cell, waiting_params, executing,
  default_execution_timeout, Ticking, ActionWorld, CommandAction,
}
use hmta_service.Command.Resolver.{intent_lower}
use hmta_service.Prelude.Dict.{update_all, Dict}
use hmta_service.Behaviours.CommandAction.Zones.{write_effects}
use hmta_service.Command.Status.{get_status, or_default, cancel}
use hmta_service.Behaviours.CommandAction.Sweep.{poll_sweep}
use hmta_service.Behaviours.CommandAction.Starts.{skipped, is_navigation, cover, dispatch_command}

abbrev pub datum_truthy : Option Datum → Bool
datum_truthy none = false
datum_truthy (some (value v)) = is_truthy (some v)
datum_truthy (some (path ws)) = ltb 0 (length ws)
datum_truthy (some (fields d)) = ltb 0 (length d)

-- The first number that is there; `none` stands for an exception of `float`.
abbrev number_at : (Datum → Option ℕ) → Option Datum → Option ℕ
number_at to_number none = none
number_at to_number (some d) = to_number d

-- `_get_execution_timeout`
unfoldable pub get_execution_timeout : (Datum → Option ℕ) → CommandAction → ℕ
unfolding intent_lower
get_execution_timeout to_number a =
    let explicit = lookup "timeout_sec" a.params in
    elim (number_at to_number
      (if datum_truthy explicit then explicit else lookup "execution_timeout_sec" a.params)) [
        | some n ↦ n
        | none ↦ elim (number_at to_number (lookup "duration_sec" a.params)) [
          | some n ↦ n + 10
          | none ↦
              or_default (lookup (intent_lower a.intent) default_execution_timeout)
                fallback_execution_timeout
        ]
      ]

module _ {Params Payload : Type 0} (tx : Translators Params Payload) (zone_ids : List String)
    (get_effects : String → List String) (pack : Dict Datum → Params) (to_number : Datum → Option ℕ)
    (c : Ticking) where
  abbrev running_if_sent :
      CommandAction × ActionWorld Params Payload
      → Status × CommandAction × ActionWorld Params Payload
  running_if_sent (a, w) = elim a.state [ executing ↦ (running, a, w) | _ ↦ (failure, a, w) ]

  -- `_poll_waiting_params`
  unfoldable pub poll_waiting_params :
      CommandAction
      → ActionWorld Params Payload
      → Status × CommandAction × ActionWorld Params Payload
  unfolding dispatch_command
  poll_waiting_params a w = elim (lookup a.short_id w.answers) [
    | some (p ∷ ps) ↦ running_if_sent (
        dispatch_command tx zone_ids get_effects pack to_number c
          (record a { params = update_all a.params (p ∷ ps) })
          (record w { answers = remove a.short_id w.answers }))
    | _ ↦
        if ltb param_wait_timeout_sec (c.now - a.wait_start)
        then (failure, a, w)
        else (running, a, w)
  ]

  abbrev complete_command :
      CommandAction
      → ActionWorld Params Payload
      → Status × CommandAction × ActionWorld Params Payload
  complete_command a w = (
    success,
    a,
    write_effects zone_ids get_effects c.now a
        (cover tx zone_ids get_effects pack to_number c "arrived" "scanned" a w),
  )

  abbrev fail_command :
      Option String
      → CommandAction
      → ActionWorld Params Payload
      → Status × CommandAction × ActionWorld Params Payload
  fail_command reason a w = (
    failure,
    a,
    (if is_navigation a
        then record w {
          bb =
              plain_set "last_navigation_failure_reason" (text (or_default reason "command failed"))
                w.bb;
        }
        else w),
  )

  -- `_poll_execution`
  unfoldable pub poll_execution :
      CommandAction
      → ActionWorld Params Payload
      → Status × CommandAction × ActionWorld Params Payload
  unfolding cover write_effects get_execution_timeout intent_lower
  poll_execution a w = elim a.command_id [
    | none ↦ (failure, a, w)
    | some id ↦ if id == skipped then (success, a, w) else elim (get_status w.resolver id).state [
      | completed ↦ complete_command a w
      | failed ↦ fail_command (get_status w.resolver id).error a w
      | _ ↦
          if ltb (get_execution_timeout to_number a) (c.now - a.exec_start)
          then (failure, a, record w { resolver = cancel id w.resolver })
          else (running, a, w)
    ]
  ]

  unfoldable pub update :
      (Cell → Bool)
      → CommandAction
      → ActionWorld Params Payload
      → Status × CommandAction × ActionWorld Params Payload
  unfolding poll_waiting_params poll_execution poll_sweep
  update inside a w = elim a.state [
    | waiting_params ↦ poll_waiting_params a w
    | sweeping ↦ poll_sweep tx zone_ids get_effects pack c inside a w
    | executing ↦ poll_execution a w
    | _ ↦ (failure, a, w)
  ]

module _ {Params Payload : Type 0} where
  -- `terminate`; `is_invalid` says that the tree interrupts the leaf.
  unfoldable pub terminate :
      Bool → CommandAction → ActionWorld Params Payload → CommandAction × ActionWorld Params Payload
  terminate is_invalid a w = (
    record a { command_id = none },
    (elim a.command_id [
      | none ↦ w
      | some id ↦
          if is_invalid && a.has_resolver then record w { resolver = cancel id w.resolver } else w
    ]),
  )
