-- ===== src/Behaviours/EntityWorker/Begun.antt =====
-- What the start of a task changes in the queue.
use hmta_service.Prelude.{
  ne_of_==, elem, sym, ap, subst, none, some, inl, inr, true, refl, ℕ, String, List, ◌∙◌, ◌≡◌, ◌⊎◌,
}
use hmta_service.Behaviours.{Task, Blackboard}
use hmta_service.Behaviours.EntityWorker.{idle, EntityWorker}
use hmta_service.Behaviours.EntityWorker.Queue.{
  terminal_statuses, find_task, update_first, deps_ok, write_status,
}
use hmta_service.Behaviours.EntityWorker.Evolution.{
  Calm-same, Calm-Advance, NextBy-map, update_first-Evolves, Evolves, Advance, Calm,
}
use hmta_service.Behaviours.EntityWorker.Picks.{ended_mono, deps_ok_mono, Ready}
use hmta_service.Behaviours.EntityWorker.Finds.{ids}
use hmta_service.Behaviours.EntityWorker.Fleet.{Ticked}
use hmta_service.Prelude.Options.{some-inj}
use hmta_service.Behaviours.EntityWorker.Writes.{update_first-twice}

-- One pending entry comes to execute; its dependencies have ended.
pub record Begun (later : List Task) (t u : Task) : Type 0 where
  pub same_id : u.id ≡ t.id
  pub same_deps : u.depends_on ≡ t.depends_on
  pub kept : (u ≡ t) ⊎ (t.status ≡ "pending")
  pub starts : u.status ≡ "executing" → (t.status ≡ "executing") ⊎ (deps_ok later u ≡ true)

pub Calm-Begun :
    (entity : String) (later : List Task) (t u v : Task)
    → Calm t u
    → Begun later u v
    → Advance entity later t v
Calm-Begun entity later t u v a b = record {
  same_id = b.same_id ∙ a.same_id;
  same_deps = b.same_deps ∙ a.same_deps;
  changed = elim a.changed [
    | inr (p, n) ↦ inr (inl p)
    | inl e ↦ elim b.kept [
      | inl f ↦ inl (f ∙ e)
      | inr p ↦ inr (inl (ap (λ (x : Task). x.status) (sym e) ∙ p))
    ]
  ];
  starts = λ s. elim (b.starts s) [
    | inr d ↦ inr d
    | inl x ↦ elim a.changed [
      | inl e ↦ inl (ap (λ (y : Task). y.status) (sym e) ∙ x)
      | inr (p, n) ↦ absurd (n x)
    ]
  ];
}

module _ (wall : ℕ) where
  abbrev pub to_executing : Task → Task
  to_executing = write_status wall "executing" none none

  abbrev pub to_failed : Task → Task
  to_failed = write_status wall "failed" (some "dispatch_error") none

  pub kept_status :
      (entity : String) (bb : Blackboard) (t : Task)
      → Ready entity bb t
      → (u : Task) → find_task bb.task_queue t.id ≡ some u
      → u.status ≡ "pending"
  kept_status entity bb t r u e =
      ap (λ (x : Task). x.status) (some-inj (sym e ∙ r.queued)) ∙ r.is_pending

  pub started_deps :
      (entity : String) (bb : Blackboard) (t : Task)
      → Ready entity bb t
      → deps_ok (update_first t.id to_executing bb.task_queue) (to_executing t) ≡ true
  started_deps entity bb t r =
      let q = bb.task_queue in
      let q' = update_first t.id to_executing q in
      let K : Task → Task → Type 0 = λ (x y : Task). (y ≡ x) ⊎ (x.status ≡ "pending") in
      deps_ok_mono q q' t (to_executing t)
        (λ id.
          ended_mono K q q' id
            (λ x y k ended. elim k [
              | inl e ↦ e
              | inr p ↦ absurd (cc (ap (λ (s : String). elem s terminal_statuses) p, ended))
            ])
            (update_first-Evolves K t.id to_executing q (λ u. refl) (λ u. inl refl)
              (λ u e. inr (kept_status entity bb t r u e))))
        refl r.ready

  pub to_executing-Begun :
      (entity : String) (bb : Blackboard) (t : Task)
      → Ready entity bb t
      → Evolves
          (Begun (update_first t.id to_executing bb.task_queue))
          bb.task_queue
          (update_first t.id to_executing bb.task_queue)
  to_executing-Begun entity bb t r =
      let q' = update_first t.id to_executing bb.task_queue in
      update_first-Evolves (Begun q') t.id to_executing bb.task_queue (λ u. refl)
        (λ u. record { same_id = refl; same_deps = refl; kept = inl refl; starts = λ s. inl s })
        (λ u e.
          let one : t ≡ u = some-inj (sym r.queued ∙ e) in
          record {
            same_id = refl;
            same_deps = refl;
            kept = inr (kept_status entity bb t r u e);
            starts = λ s. inr (
                subst (λ (x : Task). deps_ok q' (to_executing x) ≡ true) one
                  (started_deps entity bb t r));
          })

  -- Started and failed in one tick: nothing has come to execute.
  pub to_failed-Calm :
      (entity : String) (bb : Blackboard) (t : Task)
      → Ready entity bb t
      → Evolves Calm bb.task_queue
          (update_first t.id to_failed (update_first t.id to_executing bb.task_queue))
  to_failed-Calm entity bb t r =
      subst (λ (q : List Task). Evolves Calm bb.task_queue q)
        (sym (update_first-twice t.id to_executing to_failed bb.task_queue (λ u. refl)))
        (update_first-Evolves Calm t.id (λ (u : Task). to_failed (to_executing u)) bb.task_queue
          (λ u. refl) Calm-same
          (λ u e. record {
            same_id = refl;
            same_deps = refl;
            changed = inr (kept_status entity bb t r u e, ne_of_== "failed" "executing" refl);
          }))

pub Calm-Ticked :
    (w w' : EntityWorker) (q q' : List Task)
    → w'.entity_id ≡ w.entity_id
    → w'.phase ≡ idle
    → ids q' ≡ ids q
    → Evolves Calm q q'
    → Ticked w q w' q'
Calm-Ticked w w' q q' entity free same calm = record {
  same_entity = entity;
  holds = inl free;
  same_ids = same;
  evolves = λ id.
      NextBy-map Calm (Advance w.entity_id q') (Calm-Advance w.entity_id q') (find_task q id)
        (find_task q' id) (calm id);
}
