-- ===== src/Behaviours/EntityWorker/Fleet.antt =====
-- Several workers on one queue: whose tick may change what, and what holds of the queue.
use hmta_service.Prelude.{
  subst, sym, ==_refl, ap, some, inl, inr, true, false, refl, String, Bool, List, ◌≡◌, ◌⊎◌, ◌∙◌,
}
use hmta_service.Behaviours.{Task}
use hmta_service.Behaviours.EntityWorker.{idle, EntityWorker}
use hmta_service.Behaviours.EntityWorker.Finds.{ids-update_first, find_task-update_first, ids}
use hmta_service.Behaviours.EntityWorker.Writes.{IsWrite, Turn, is_busy}
use hmta_service.Behaviours.EntityWorker.Queue.{deps_ok, find_task}
use hmta_service.Behaviours.EntityWorker.Evolution.{update_first-Evolves, Advance, Evolves}
use hmta_service.Prelude.Options.{some-inj}

-- A worker with a task: the entry is executing, and it is the worker's.
pub record Busy (w : EntityWorker) (q : List Task) : Type 0 where
  pub busy : is_busy w.phase ≡ true
  pub task : Task
  pub current : w.current_task ≡ some task
  pub entry : Task
  pub found : find_task q task.id ≡ some entry
  pub working : entry.status ≡ "executing"
  pub own : entry.entity ≡ w.entity_id

abbrev pub Holds : EntityWorker → List Task → Type 0
Holds w q = (w.phase ≡ idle) ⊎ Busy w q

-- Whatever executes has no open dependency.
abbrev pub IsOrdered : List Task → Type 0
IsOrdered q =
    (id : String) (t : Task) → find_task q id ≡ some t → t.status ≡ "executing" → deps_ok q t ≡ true

-- What a tick leaves, for the worker itself and for the queue.
pub record Ticked (w : EntityWorker) (q : List Task) (w' : EntityWorker) (q' : List Task)
    : Type 0 where
  pub same_entity : w'.entity_id ≡ w.entity_id
  pub holds : Holds w' q'
  pub same_ids : ids q' ≡ ids q
  pub evolves : Evolves (Advance w.entity_id q') q q'

turn_entry :
    (kept : Bool) (t : Task) (entity : String) (q q' : List Task) (entry : Task)
    → find_task q t.id ≡ some entry
    → entry.status ≡ "executing"
    → entry.entity ≡ entity
    → IsWrite kept t.id q q'
    → (ids q' ≡ ids q) × Evolves (Advance entity q') q q'
turn_entry kept t entity q q' entry found working own wr =
    let A : Task → Task → Type 0 = Advance entity q' in
    (
      ap ids wr.written ∙ ids-update_first t.id wr.f q wr.is_edit.keeps_id,
      subst (λ (r : List Task). Evolves A q r) (sym wr.written)
          (update_first-Evolves A t.id wr.f q wr.is_edit.keeps_id
            (λ u. record {
              same_id = refl;
              same_deps = refl;
              changed = inl refl;
              starts = λ s. inl s;
            })
            (λ u e.
              let one : entry ≡ u = some-inj (sym found ∙ e) in
              let status = ap (λ (x : Task). x.status) (sym one) ∙ working in
              record {
                same_id = wr.is_edit.keeps_id u;
                same_deps = wr.is_edit.keeps_deps u;
                changed = inr (inr (status, ap (λ (x : Task). x.entity) (sym one) ∙ own));
                starts = λ s. inl status;
              })),
    )

-- A turn of a worker that has a task.
pub Turn-Ticked :
    (w : EntityWorker) (q : List Task) (w' : EntityWorker) (q' : List Task) (b : Busy w q)
    → Turn w.entity_id b.task q w' q'
    → Ticked w q w' q'
Turn-Ticked w q w' q' b turn = elim turn.outcome [
  | inl (busy, current, wr) ↦
      let (same, evolves) =
        turn_entry true b.task w.entity_id q q' b.entry b.found b.working b.own wr in
      record {
        same_entity = turn.same_entity;
        same_ids = same;
        evolves = evolves;
        holds = inr (record {
          busy = busy;
          task = b.task;
          current = current;
          entry = wr.f b.entry;
          found =
              ap (λ (r : List Task). find_task r b.task.id) wr.written
              ∙ find_task-update_first b.task.id wr.f q b.task.id wr.is_edit.keeps_id
              ∙ rw (==_refl b.task.id, b.found) refl;
          working = wr.stays refl b.entry b.working;
          own = wr.is_edit.keeps_entity b.entry ∙ b.own ∙ sym turn.same_entity;
        });
      }
  | inr (free, wr) ↦
      let (same, evolves) =
        turn_entry false b.task w.entity_id q q' b.entry b.found b.working b.own wr in
      record {
        same_entity = turn.same_entity;
        same_ids = same;
        evolves = evolves;
        holds = inl free;
      }
]
