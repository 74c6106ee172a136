-- ===== src/Behaviours/HumanMonitor.antt =====
-- app/execution/behaviours/human_monitor.py: the poll of an operator's open directives.
use hmta_service.Prelude.{
  ℕ, ◌-◌, String, Option, none, some, Bool, true, false, ◌&&◌, List, [], ◌∷◌, ◌==◌, ◌≡◌, inl, inr,
  refl, ap, ltb, any, elem, later_elem, first_elem, Bool-cases, if◌then◌else◌,
}
use hmta_service.Prelude.Dict.{Dict, lookup, update_all, IsDict}
use hmta_service.Command.{CommandState, completed, CommandResolver}
use hmta_service.Command.Status.{or_default}
use hmta_service.Command.Directives.{
  DirectiveResponse, get_open_directives, get_directive_response, open_directive_has_no_response,
}
use hmta_service.Behaviours.{Status, success, running, text, Datum, value, Task}

-- `HumanMonitor`: the entity, and the state of its poll.
pub record HumanMonitor : Type 0 where
  pub entity_id : String
  pub poll_interval : ℕ
  pub last_poll : ℕ
  pub has_resolver : Bool

unfoldable pub initialise : HumanMonitor → HumanMonitor
initialise m = record m { last_poll = 0 }

abbrev waiting_statuses : List String
waiting_statuses = "pending" ∷ "executing" ∷ "assigned" ∷ []

-- `_compute_status`
unfoldable pub compute_status : String → List Task → Status
compute_status entity_id queue =
    if any (λ t. t.entity == entity_id && elem t.status waiting_statuses) queue
    then running
    else success

abbrev text_of : Option Datum → String
text_of (some (value (text s))) = s
text_of _ = ""

abbrev answered : DirectiveResponse (Dict Datum) → Task → Task
answered response t =
    let merged : Task = record t { params = update_all t.params (or_default response.params []) } in
    if t.status == "executing"
    then record merged {
      human_response = some (record {
        decision = or_default response.decision "completed";
        params = or_default response.params [];
      });
    }
    else merged

abbrev apply_to : String → DirectiveResponse (Dict Datum) → List Task → List Task
apply_to task_id response [] = []
apply_to task_id response (t ∷ ts) =
    if t.id == task_id then answered response t ∷ ts else t ∷ apply_to task_id response ts

-- `_apply_directive_response`
unfoldable pub apply_directive_response : DirectiveResponse (Dict Datum) → List Task → List Task
apply_directive_response response queue =
    let named = text_of (lookup "task_id" (or_default response.params [])) in
    let task_id = if response.task_id == "" then named else response.task_id in
    if task_id == "" then queue else apply_to task_id response queue

abbrev is_completed : CommandState → Bool
is_completed completed = true
is_completed _ = false

abbrev poll : Option (DirectiveResponse (Dict Datum)) → List Task → List Task
poll none queue = queue
poll (some response) queue =
    if is_completed response.status then apply_directive_response response queue else queue

module _ {Payload : Type 0} where
  abbrev poll_all : CommandResolver (Dict Datum) Payload → List String → List Task → List Task
  poll_all r [] queue = queue
  poll_all r (id ∷ ids) queue = poll_all r ids (poll (get_directive_response r id) queue)

  -- `_process_pending_directives`
  unfoldable pub process_pending_directives :
      HumanMonitor → CommandResolver (Dict Datum) Payload → List Task → List Task
  process_pending_directives m r queue =
      if m.has_resolver then poll_all r (get_open_directives r m.entity_id) queue else queue

  unfoldable pub update :
      ℕ
      → HumanMonitor
      → CommandResolver (Dict Datum) Payload
      → List Task
      → Status × HumanMonitor × List Task
  unfolding compute_status process_pending_directives
  update now m r queue =
      if ltb (now - m.last_poll) m.poll_interval
      then (compute_status m.entity_id queue, m, queue)
      else (let queue' = process_pending_directives m r queue in
          (compute_status m.entity_id queue', record m { last_poll = now }, queue'))

  poll_all-open :
      (r : CommandResolver (Dict Datum) Payload) (entity_id : String) (ids : List String)
      (queue : List Task)
      → IsDict r.commands
      → ((id : String) → elem id ids ≡ true → elem id (get_open_directives r entity_id) ≡ true)
      → poll_all r ids queue ≡ queue
  poll_all-open r entity_id [] queue unique h = refl
  poll_all-open r entity_id (id ∷ ids) queue unique h =
      rw (open_directive_has_no_response r entity_id id unique (h id (first_elem id ids))) (
        poll_all-open r entity_id ids queue unique
          (λ other there. h other (later_elem other id ids there)))

  -- The poll of an operator's directives never changes a task: it asks only the directives in
  -- flight, and only a finished one has a response.
  pub human_monitor_applies_nothing :
      (now : ℕ) (m : HumanMonitor) (r : CommandResolver (Dict Datum) Payload) (queue : List Task)
      → IsDict r.commands
      → ((update now m r queue).2 ≡ queue)
        × ((update now m r queue).0 ≡ compute_status m.entity_id queue)
  unfolding update process_pending_directives
  human_monitor_applies_nothing now m r queue unique =
      let same =
        poll_all-open r m.entity_id (get_open_directives r m.entity_id) queue unique (λ id h. h) in
      elim (Bool-cases (ltb (now - m.last_poll) m.poll_interval)) [
        | inl e ↦ rw e (refl, refl)
        | inr e ↦ elim (Bool-cases m.has_resolver) [
          | inl f ↦ rw (e, f) (same, ap (compute_status m.entity_id) same)
          | inr f ↦ rw (e, f) (refl, refl)
        ]
      ]
