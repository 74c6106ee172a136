-- ===== src/Behaviours/EntityWorker/Queue.antt =====
-- The task queue as the worker uses it: the choice of the next task, work stealing, and the writes
-- of statuses. An entry is named by its id.
use hmta_service.Prelude.{
  ℕ, String, Option, none, some, Bool, false, not, ◌&&◌, ◌||◌, List, [], ◌∷◌, ◌++◌, ◌==◌, ltb, leb,
  nat_eq, elem, all, filter, find, if◌then◌else◌,
}
use hmta_service.Prelude.Dict.{lookup}
use hmta_service.Command.Status.{or_default}
use hmta_service.Behaviours.{Task, HumanAnswer, Blackboard}
use hmta_service.Behaviours.EntityWorker.{
  EntityWorker, WorkerWorld, idle, Event, work_stealing, record_transition,
}
use hmta_service.Behaviours.EntityWorker.Goal.{is_mission_goal_met, check_preconditions}

-- `_find_task`
unfoldable pub find_task : List Task → String → Option Task
find_task queue id = find (λ t. t.id == id) queue

-- A task as the queue has it now.
unfoldable pub task_of : Blackboard → Task → Task
unfolding find_task
task_of bb t = or_default (find_task bb.task_queue t.id) t

-- A write to the first entry with the id.
unfoldable pub update_first : String → (Task → Task) → List Task → List Task
update_first id f [] = []
update_first id f (t ∷ ts) = if t.id == id then f t ∷ ts else t ∷ update_first id f ts

abbrev pub on_task : String → (Task → Task) → Blackboard → Blackboard
on_task id f bb = record bb { task_queue = update_first id f bb.task_queue }

abbrev pub terminal_statuses : List String
terminal_statuses = "completed" ∷ "skipped" ∷ "failed" ∷ []

abbrev started : ℕ → Option ℕ → Option ℕ
started wall none = some wall
started wall (some n) = if nat_eq n 0 then some wall else some n

abbrev pub or_kept {ℓ} : {A : Type ℓ} → Option A → Option A → Option A
or_kept none old = old
or_kept (some a) old = some a

abbrev pub write_status : ℕ → String → Option String → Option ℕ → Task → Task
write_status wall status reason elapsed t = record t {
  status = status;
  started_at = if status == "executing" then started wall t.started_at else t.started_at;
  completed_at = if elem status terminal_statuses then some wall else t.completed_at;
  failure_reason = or_kept reason t.failure_reason;
  elapsed_ms = or_kept elapsed t.elapsed_ms;
}

-- `_update_task_status`
unfoldable pub update_task_status :
    ℕ → String → String → Option String → Option ℕ → Blackboard → Blackboard
update_task_status wall id status reason elapsed bb =
    on_task id (write_status wall status reason elapsed) bb

-- `_read_task_human_response`
unfoldable pub read_task_human_response : String → Blackboard → Option HumanAnswer
unfolding find_task
read_task_human_response id bb = elim (find_task bb.task_queue id) [
  | none ↦ none
  | some t ↦ t.human_response
]

-- `_clear_task_human_response`
unfoldable pub clear_task_human_response : String → Blackboard → Blackboard
clear_task_human_response id bb = on_task id (λ t. record t { human_response = none }) bb

abbrev skip_pending : String → Task → Task
skip_pending entity t =
    if t.entity == entity && t.status == "pending"
    then record t { status = "skipped"; failure_reason = some "mission_goal_met" }
    else t

abbrev pub skip_all : String → List Task → List Task
skip_all entity [] = []
skip_all entity (t ∷ ts) = skip_pending entity t ∷ skip_all entity ts

-- `_skip_remaining_pending_tasks`
unfoldable pub skip_remaining_pending_tasks : String → Blackboard → Blackboard
skip_remaining_pending_tasks entity bb = record bb { task_queue = skip_all entity bb.task_queue }

abbrev pub is_terminal : Option Task → Bool
is_terminal none = false
is_terminal (some t) = elem t.status terminal_statuses

-- A dependency that the queue does not hold is never satisfied.
unfoldable pub deps_ok : List Task → Task → Bool
unfolding find_task
deps_ok queue t = all (λ id. is_terminal (find_task queue id)) t.depends_on

unfoldable pub priority_order : Task → ℕ
priority_order t = if t.priority == "critical" then 0 else if t.priority == "urgent" then 1 else 2

-- A stable sort; `le a b` says that `a` may stand before a later `b`.
abbrev pub insert : (Task → Task → Bool) → Task → List Task → List Task
insert le t [] = t ∷ []
insert le t (u ∷ us) = if le t u then t ∷ u ∷ us else u ∷ insert le t us

unfoldable pub sort_by : (Task → Task → Bool) → List Task → List Task
sort_by le [] = []
sort_by le (t ∷ ts) = insert le t (sort_by le ts)

abbrev pub head : List Task → Option Task
head [] = none
head (t ∷ ts) = some t

-- One round of the scan, with the entry as it is now: an own pending task that may run, or that its
-- precondition rules out.
unfoldable pub consider_entry :
    ℕ → String → Option Task → Blackboard × List Task → Blackboard × List Task
unfolding update_task_status
consider_entry wall entity none found = found
consider_entry wall entity (some t) (bb, eligible) =
    if t.entity == entity && t.status == "pending" && deps_ok bb.task_queue t
    then if check_preconditions bb t
      then (bb, eligible ++ t ∷ [])
      else (update_task_status wall t.id "skipped" (some "precondition_not_met") none bb, eligible)
    else (bb, eligible)

unfoldable pub consider : ℕ → String → Task → Blackboard × List Task → Blackboard × List Task
unfolding consider_entry find_task
consider wall entity t found = consider_entry wall entity (find_task found.0.task_queue t.id) found

unfoldable pub scan : ℕ → String → List Task → Blackboard × List Task → Blackboard × List Task
scan wall entity [] found = found
scan wall entity (t ∷ ts) found = scan wall entity ts (consider wall entity t found)

unfoldable pub can_steal : String → List String → Blackboard → Task → Bool
can_steal entity caps bb t =
    not (t.entity == entity)
    && t.status == "pending"
    && not (t.intent == "")
    && elem t.intent caps
    && deps_ok bb.task_queue t
    && check_preconditions bb t

abbrev pub priority_first : Task → Task → Bool
priority_first a b = leb (priority_order a) (priority_order b)

-- The priority first, then the greater proximity.
abbrev pub closer_first : (Task → ℕ) → Task → Task → Bool
closer_first proximity a b =
    ltb (priority_order a) (priority_order b)
    || (nat_eq (priority_order a) (priority_order b) && leb (proximity b) (proximity a))

abbrev pub claim : String → Task → Task
claim entity t = record t {
  entity = entity;
  stolen_from = some (or_default t.stolen_from t.entity);
}

module _ {Payload : Type 0} (proximity : String → Blackboard → Task → ℕ) where
  abbrev pub steal :
      ℕ
      → Option Task
      → EntityWorker
      → WorkerWorld Payload
      → Option Task × EntityWorker × WorkerWorld Payload
  steal wall none w s = (none, w, s)
  steal wall (some t) w s =
      let event : Event = work_stealing w.entity_id t.id t.entity t.intent wall in
      (
        some (claim w.entity_id t),
        record_transition
            (record {
              ts = wall;
              from_phase = idle;
              to_phase = idle;
              trigger = "work_stealing";
              task_id = some t.id;
              step = none;
              stolen_from = some t.entity;
            })
            w,
        record s {
          bb = on_task t.id (claim w.entity_id) s.bb;
          events = if w.has_zenoh then s.events ++ event ∷ [] else s.events;
        },
      )

  -- `_try_steal_task`
  unfoldable pub try_steal_task :
      ℕ → EntityWorker → WorkerWorld Payload → Option Task × EntityWorker × WorkerWorld Payload
  unfolding update_first record_transition sort_by
  try_steal_task wall w s =
      let caps = or_default (lookup w.entity_id s.resolver.capabilities) [] in
      if w.work_stealing_enabled && w.has_resolver
      then steal wall
          (head (
            sort_by (closer_first (proximity w.entity_id s.bb))
              (filter (can_steal w.entity_id caps s.bb) s.bb.task_queue)))
          w s
      else (none, w, s)

  abbrev pub choose :
      ℕ
      → Option Task
      → EntityWorker
      → WorkerWorld Payload
      → Option Task × EntityWorker × WorkerWorld Payload
  choose wall none w s = try_steal_task wall w s
  choose wall (some t) w s = (some t, w, s)

  -- `_pick_next_task`
  unfoldable pub pick_next_task :
      ℕ → EntityWorker → WorkerWorld Payload → Option Task × EntityWorker × WorkerWorld Payload
  unfolding try_steal_task scan sort_by
  pick_next_task wall w s =
      if is_mission_goal_met s.bb
      then (none, w, record s { bb = skip_remaining_pending_tasks w.entity_id s.bb })
      else (let (bb, eligible) = scan wall w.entity_id s.bb.task_queue (s.bb, []) in
          choose wall (head (sort_by priority_first eligible)) w (record s { bb = bb }))
