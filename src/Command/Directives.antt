-- ===== src/Command/Directives.antt =====
-- app/execution/command/command_resolver.py: the queries that `HumanMonitor` makes.
use hmta_service.Prelude.{
  String, Option, none, some, Bool, true, false, List, [], ◌∷◌, ◌==◌, ◌≡◌, refl, arith, inl, inr,
  if◌then◌else◌, elem, Bool-cases, eq_of_==,
}
use hmta_service.Prelude.Dict.{Dict, lookup, has, put, IsDict}
use hmta_service.Command.{CommandState, completed, failed, CommandStatus, CommandResolver}
use hmta_service.Command.Status.{is_open, or_default}

-- The answer of `get_directive_response`.
pub record DirectiveResponse (Params : Type 0) : Type 0 where
  pub status : CommandState
  pub error : Option String
  pub task_id : String
  pub params : Option Params
  pub decision : Option String

abbrev is_finished : CommandState → Bool
is_finished completed = true
is_finished failed = true
is_finished _ = false

module _ {Params : Type 0} where
  unfoldable pub open_ids : String → Dict (CommandStatus Params) → List String
  open_ids entity_id [] = []
  open_ids entity_id ((k, status) ∷ rest) =
      if is_open entity_id status then k ∷ open_ids entity_id rest else open_ids entity_id rest

  abbrev answer : String → CommandStatus Params → DirectiveResponse Params
  answer task_id status = record {
    status = status.state;
    error = status.error;
    task_id = task_id;
    params = elim status.result [ none ↦ none | some response ↦ response.params ];
    decision = elim status.result [ none ↦ none | some response ↦ response.decision ];
  }

  abbrev response_of : String → Option (CommandStatus Params) → Option (DirectiveResponse Params)
  response_of task_id none = none
  response_of task_id (some status) =
      if is_finished status.state then some (answer task_id status) else none

  open_not_finished :
      (entity_id : String) (status : CommandStatus Params)
      → is_open entity_id status ≡ true
      → is_finished status.state ≡ false
  unfolding is_open
  open_not_finished entity_id status opened = ground arith

  open_ids-has :
      (entity_id k : String) (commands : Dict (CommandStatus Params))
      → elem k (open_ids entity_id commands) ≡ true
      → has k commands ≡ true
  unfolding open_ids
  open_ids-has entity_id k [] m = absurd (cc)
  open_ids-has entity_id k ((j, first) ∷ rest) m = ground (arith, open_ids-has entity_id k rest)

  open_ids-lookup :
      (entity_id k : String) (commands : Dict (CommandStatus Params))
      → IsDict commands
      → elem k (open_ids entity_id commands) ≡ true
      → (status : CommandStatus Params) × (lookup k commands ≡ some status)
        × (is_open entity_id status ≡ true)
  unfolding open_ids lookup
  open_ids-lookup entity_id k [] unique m = absurd (cc)
  open_ids-lookup entity_id k ((j, first) ∷ rest) unique m = elim (Bool-cases (j == k)) [
    | inl e ↦ elim (Bool-cases (is_open entity_id first)) [
      | inl opened ↦ (first, rw e refl, opened)
      | inr closed ↦
          let there : has j rest ≡ true =
            rw (eq_of_== j k e) (open_ids-has entity_id k rest (rw closed at m)) in
          absurd (cc (unique.0))
    ]
    | inr e ↦
        let (status, there, opened) = open_ids-lookup entity_id k rest unique.1 (ground arith) in
        (status, rw e there, opened)
  ]

module _ {Params Payload : Type 0} where
  unfoldable pub get_open_directives : CommandResolver Params Payload → String → List String
  unfolding open_ids
  get_open_directives r entity_id = open_ids entity_id r.commands

  -- `decision` is `none` where the code answers with the state's name.
  unfoldable pub get_directive_response :
      CommandResolver Params Payload → String → Option (DirectiveResponse Params)
  get_directive_response r directive_id =
      response_of (or_default (lookup directive_id r.directive_task_map) "")
        (lookup directive_id r.commands)

  unfoldable pub set_directive_task_id :
      String → String → CommandResolver Params Payload → CommandResolver Params Payload
  set_directive_task_id command_id task_id r = record r {
    directive_task_map = put command_id task_id r.directive_task_map;
  }

  -- Of an open directive there is no response yet: a caller that asks for the response of each
  -- open directive, as `HumanMonitor` does, never gets one.
  pub open_directive_has_no_response :
      (r : CommandResolver Params Payload) (entity_id directive_id : String)
      → IsDict r.commands
      → elem directive_id (get_open_directives r entity_id) ≡ true
      → get_directive_response r directive_id ≡ none
  unfolding get_open_directives get_directive_response
  open_directive_has_no_response r entity_id directive_id unique m =
      let (status, there, opened) = open_ids-lookup entity_id directive_id r.commands unique m in
      rw (there, open_not_finished entity_id status opened) refl
