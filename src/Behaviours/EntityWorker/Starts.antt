-- ===== src/Behaviours/EntityWorker/Starts.antt =====
-- A task is picked off the queue, one's own or another's, and started.
use hmta_service.Prelude.{
  All-map, ==_refl, subst, eq_of_==, ne_of_==, sym, ap, Bool-cases, arith, filter, All, none, some,
  inl, inr, true, [], refl, ℕ, String, Option, Bool, List, ◌∷◌, ◌∙◌, ◌≡◌, ◌&&◌, ◌==◌,
}
use hmta_service.Behaviours.{lookup, bb_get, Task, Blackboard}
use hmta_service.Behaviours.EntityWorker.{WorkerWorld, record_transition, EntityWorker}
use hmta_service.Behaviours.EntityWorker.Queue.{
  skip_all, priority_first, sort_by, head, claim, closer_first, scan, update_first, steal, deps_ok,
  choose, skip_remaining_pending_tasks, can_steal, pick_next_task, try_steal_task, find_task,
}
use hmta_service.Behaviours.EntityWorker.Evolution.{
  update_first-Evolves, Calm-then, NextBy-then, Calm-same, NextBy-same, Calm, Evolves,
}
use hmta_service.Behaviours.EntityWorker.Finds.{
  find_task-update_first, ids-update_first, find_task-Has, IsUnique-as, IsUnique, Has, ids,
}
use hmta_service.Behaviours.EntityWorker.Goal.{is_mission_goal_met, check_preconditions}
use hmta_service.Behaviours.EntityWorker.Picks.{Calm-ended, deps_ok_mono, scan_lem, Ready}
use hmta_service.Command.Status.{or_default}
use hmta_service.Behaviours.EntityWorker.Sorting.{sort_by-All, head-All}
use hmta_service.Prelude.Options.{some-inj}

skip_all-Calm : (entity : String) (q : List Task) → Evolves Calm q (skip_all entity q)
unfolding find_task
skip_all-Calm entity [] id = tt
skip_all-Calm entity (t ∷ ts) id = elim (Bool-cases (t.entity == entity && t.status == "pending")) [
  | inl e ↦ elim (Bool-cases (t.id == id)) [
    | inl f ↦
        rw (e, f)
          (record {
            same_id = refl;
            same_deps = refl;
            changed =
                inr
                  (eq_of_== t.status "pending" (ground arith), ne_of_== "skipped" "executing" refl);
          })
    | inr f ↦ rw (e, f) (skip_all-Calm entity ts id)
  ]
  | inr e ↦ elim (Bool-cases (t.id == id)) [
    | inl f ↦ rw (e, f) (Calm-same t)
    | inr f ↦ rw (e, f) (skip_all-Calm entity ts id)
  ]
]

skip_all-ids : (entity : String) (q : List Task) → ids (skip_all entity q) ≡ ids q
skip_all-ids entity [] = refl
skip_all-ids entity (t ∷ ts) = elim (Bool-cases (t.entity == entity && t.status == "pending")) [
  | inl e ↦ rw e (ap (λ (l : List String). t.id ∷ l) (skip_all-ids entity ts))
  | inr e ↦ rw e (ap (λ (l : List String). t.id ∷ l) (skip_all-ids entity ts))
]

filter-All : (p : Task → Bool) (q : List Task) → All (λ t. Has t q × (p t ≡ true)) (filter p q)
filter-All p [] = tt
filter-All p (t ∷ ts) =
    let P : Task → Type 0 = λ (u : Task). Has u (t ∷ ts) × (p u ≡ true) in
    let rest : All P (filter p ts) =
      All-map (λ (u : Task). Has u ts × (p u ≡ true)) P (filter p ts) (λ u h. (inr h.0, h.1))
        (filter-All p ts) in
    elim (Bool-cases (p t)) [
      | inl e ↦ let first : P t = (inl refl, e) in rw e (first, rest)
      | inr e ↦ rw e rest
    ]

module _ {Payload : Type 0} where
  -- What the choice of a task leaves.
  pub record Picked (w : EntityWorker) (s : WorkerWorld Payload)
      (result : Option Task × EntityWorker × WorkerWorld Payload) : Type 0 where
    pub same_entity : result.1.entity_id ≡ w.entity_id
    pub same_phase : result.1.phase ≡ w.phase
    pub same_task : result.1.current_task ≡ w.current_task
    pub calm : Evolves Calm s.bb.task_queue result.2.bb.task_queue
    pub same_ids : ids result.2.bb.task_queue ≡ ids s.bb.task_queue
    pub ready : (t : Task) → result.0 ≡ some t → Ready w.entity_id result.2.bb t

  untouched : (w : EntityWorker) (s : WorkerWorld Payload) → Picked w s (none, w, s)
  untouched w s = record {
    same_entity = refl;
    same_phase = refl;
    same_task = refl;
    calm = λ id. NextBy-same Calm Calm-same (find_task s.bb.task_queue id);
    same_ids = refl;
    ready = λ t e. absurd (ground arith);
  }

module _ {Payload : Type 0} (proximity : String → Blackboard → Task → ℕ) (wall : ℕ) where
  steal-Picked :
      (o : Option Task) (w : EntityWorker) (s : WorkerWorld Payload)
      → ((t : Task)
          → o ≡ some t
          → (find_task s.bb.task_queue t.id ≡ some t)
            × (t.status ≡ "pending")
            × (deps_ok s.bb.task_queue t ≡ true)
            × (check_preconditions s.bb t ≡ true))
      → Picked w s (steal proximity wall o w s)
  unfolding record_transition check_preconditions bb_get
  steal-Picked none w s h = untouched w s
  steal-Picked (some t) w s h =
      let (queued, pending, deps, allowed) = h t refl in
      let q' = update_first t.id (claim w.entity_id) s.bb.task_queue in
      let calm : Evolves Calm s.bb.task_queue q' =
        update_first-Evolves Calm t.id (claim w.entity_id) s.bb.task_queue (λ u. refl) Calm-same
          (λ u e. record {
            same_id = refl;
            same_deps = refl;
            changed = inr (
              ap (λ (x : Task). x.status) (some-inj (sym e ∙ queued)) ∙ pending,
              λ x.
                  ne_of_== "pending" "executing" refl
                    (sym (ap (λ (y : Task). y.status) (some-inj (sym e ∙ queued)) ∙ pending) ∙ x),
            );
          }) in
      record {
        same_entity = refl;
        same_phase = refl;
        same_task = refl;
        calm = calm;
        same_ids = ids-update_first t.id (claim w.entity_id) s.bb.task_queue (λ u. refl);
        ready = λ u e.
            subst (Ready w.entity_id (record s.bb { task_queue = q' })) (some-inj e) (record {
              queued =
                  find_task-update_first t.id (claim w.entity_id) s.bb.task_queue t.id (λ x. refl)
                  ∙ rw (==_refl t.id, queued) refl;
              own = refl;
              is_pending = pending;
              ready =
                  deps_ok_mono s.bb.task_queue q' t (claim w.entity_id t)
                    (λ id. Calm-ended s.bb.task_queue q' id calm) refl deps;
              allowed = allowed;
            });
      }

  try_steal_task-Picked :
      (w : EntityWorker) (s : WorkerWorld Payload)
      → IsUnique s.bb.task_queue
      → Picked w s (try_steal_task proximity wall w s)
  unfolding try_steal_task can_steal
  try_steal_task-Picked w s unique = elim (Bool-cases (w.work_stealing_enabled && w.has_resolver)) [
    | inr e ↦ rw e (untouched w s)
    | inl e ↦
        let caps = or_default (lookup w.entity_id s.resolver.capabilities) [] in
        let may : Task → Bool = can_steal w.entity_id caps s.bb in
        let le = closer_first (proximity w.entity_id s.bb) in
        let P : Task → Type 0 = λ (t : Task). Has t s.bb.task_queue × (may t ≡ true) in
        rw e (
          steal-Picked (head (sort_by le (filter may s.bb.task_queue))) w s (λ t h.
            let (has, ok) =
              head-All P (sort_by le (filter may s.bb.task_queue)) t
                (sort_by-All P le (filter may s.bb.task_queue) (filter-All may s.bb.task_queue))
                h in
            (
              find_task-Has t s.bb.task_queue unique has,
              eq_of_== t.status "pending" (ground arith),
              ground arith,
              ground arith,
            )))
  ]

  chosen :
      (w : EntityWorker) (s : WorkerWorld Payload) (bb : Blackboard) (o : Option Task)
      → Evolves Calm s.bb.task_queue bb.task_queue
      → ids bb.task_queue ≡ ids s.bb.task_queue
      → IsUnique s.bb.task_queue
      → ((t : Task) → o ≡ some t → Ready w.entity_id bb t)
      → Picked w s (choose proximity wall o w (record s { bb = bb }))
  chosen w s bb (some t) calm same unique ready = record {
    same_entity = refl;
    same_phase = refl;
    same_task = refl;
    calm = calm;
    same_ids = same;
    ready = ready;
  }
  chosen w s bb none calm same unique ready =
      let p =
        try_steal_task-Picked w (record s { bb = bb })
          (IsUnique-as s.bb.task_queue bb.task_queue same unique) in
      let result = try_steal_task proximity wall w (record s { bb = bb }) in
      record {
        same_entity = p.same_entity;
        same_phase = p.same_phase;
        same_task = p.same_task;
        calm = λ id.
            NextBy-then Calm Calm Calm Calm-then (find_task s.bb.task_queue id)
              (find_task bb.task_queue id) (find_task result.2.bb.task_queue id) (calm id)
              (p.calm id);
        same_ids = p.same_ids ∙ same;
        ready = p.ready;
      }

  pub pick_next_task-Picked :
      (w : EntityWorker) (s : WorkerWorld Payload)
      → IsUnique s.bb.task_queue
      → Picked w s (pick_next_task proximity wall w s)
  unfolding pick_next_task skip_remaining_pending_tasks
  pick_next_task-Picked w s unique = elim (Bool-cases (is_mission_goal_met s.bb)) [
    | inl e ↦ rw e (record {
      same_entity = refl;
      same_phase = refl;
      same_task = refl;
      calm = skip_all-Calm w.entity_id s.bb.task_queue;
      same_ids = skip_all-ids w.entity_id s.bb.task_queue;
      ready = λ t h. absurd (ground arith);
    })
    | inr e ↦
        let found = scan wall w.entity_id s.bb.task_queue (s.bb, []) in
        rw e (
          chosen w s found.0 (head (sort_by priority_first found.1))
            (scan_lem wall w.entity_id s.bb).calm (scan_lem wall w.entity_id s.bb).same_ids unique
            (λ t h.
              head-All (Ready w.entity_id found.0) (sort_by priority_first found.1) t
                (sort_by-All (Ready w.entity_id found.0) priority_first found.1
                  (scan_lem wall w.entity_id s.bb).eligible)
                h))
  ]

  -- The task that a worker picks is in the queue, pending and its own after the pick; its
  -- dependencies are there and have all ended, and its preconditions hold.
  pub pick_next_task_lem :
      (w : EntityWorker) (s : WorkerWorld Payload) (t : Task)
      → IsUnique s.bb.task_queue
      → (pick_next_task proximity wall w s).0 ≡ some t
      → Ready w.entity_id (pick_next_task proximity wall w s).2.bb t
  pick_next_task_lem w s t unique picked = (pick_next_task-Picked w s unique).ready t picked
