-- ===== src/Behaviours/EntityWorker/Picks.antt =====
-- The choice of the next task: what it writes, and what it may choose.
use hmta_service.Prelude.{
  All-map, ne_of_==, All-append, Option, ◌&&◌, ◌++◌, eq_of_==, sym, elem, ap, Bool-cases,
  Option-cases, All, arith, all, none, some, inl, inr, true, false, [], refl, ℕ, String, Bool, List,
  ◌∷◌, ◌==◌, ◌∙◌, ◌≡◌,
}
use hmta_service.Behaviours.{bb_get, Task, Blackboard}
use hmta_service.Behaviours.EntityWorker.Queue.{
  update_task_status, consider, scan, consider_entry, terminal_statuses, update_first, find_task,
  is_terminal, deps_ok, write_status,
}
use hmta_service.Behaviours.EntityWorker.Goal.{check_preconditions}
use hmta_service.Behaviours.EntityWorker.Evolution.{
  NextBy-same, Calm-then, NextBy-then, Calm-Advance, ended_stays, NextBy-after, Calm-same,
  update_first-Evolves, Calm, Evolves,
}
use hmta_service.Behaviours.EntityWorker.Finds.{
  ids, ids-update_first, find_task-id, find_task-update_first,
}
use hmta_service.Prelude.Options.{some-inj}

abbrev pub has_ended : List Task → String → Bool
has_ended q id = is_terminal (find_task q id)

-- A dependency that has ended stays so.
pub ended_mono :
    (C : Task → Task → Type 0) (q q' : List Task) (id : String)
    → ((t u : Task) → C t u → elem t.status terminal_statuses ≡ true → u ≡ t)
    → Evolves C q q'
    → has_ended q id ≡ true
    → has_ended q' id ≡ true
ended_mono C q q' id keeps step ended = elim (Option-cases (find_task q id)) [
  | inl e ↦ absurd (cc (ap is_terminal e, ended))
  | inr (t, e) ↦
      let (u, found, change) = NextBy-after C (find_task q id) (find_task q' id) t (step id) e in
      let same : elem t.status terminal_statuses ≡ true = ap is_terminal (sym e) ∙ ended in
      rw found (ap (λ (x : Task). elem x.status terminal_statuses) (keeps t u change same) ∙ same)
]

pub Calm-ended :
    (q q' : List Task) (id : String)
    → Evolves Calm q q'
    → has_ended q id ≡ true
    → has_ended q' id ≡ true
Calm-ended q q' id calm =
    ended_mono Calm q q' id (λ t u h. ended_stays "" q' t u (Calm-Advance "" q' t u h)) calm

all_mono :
    (p r : String → Bool) (l : List String)
    → ((k : String) → p k ≡ true → r k ≡ true)
    → all p l ≡ true
    → all r l ≡ true
all_mono p r [] f h = refl
all_mono p r (k ∷ ks) f h = ground (arith, f k, all_mono p r ks f)

pub deps_ok_mono :
    (q q' : List Task) (t u : Task)
    → ((id : String) → has_ended q id ≡ true → has_ended q' id ≡ true)
    → u.depends_on ≡ t.depends_on
    → deps_ok q t ≡ true
    → deps_ok q' u ≡ true
unfolding deps_ok
deps_ok_mono q q' t u mono same h =
    rw same (all_mono (has_ended q) (has_ended q') t.depends_on mono h)

-- A task that the worker of `entity` may take up.
pub record Ready (entity : String) (bb : Blackboard) (t : Task) : Type 0 where
  pub queued : find_task bb.task_queue t.id ≡ some t
  pub own : t.entity ≡ entity
  pub is_pending : t.status ≡ "pending"
  pub ready : deps_ok bb.task_queue t ≡ true
  pub allowed : check_preconditions bb t ≡ true

module _ (wall : ℕ) (entity : String) where
  -- What a part of the scan leaves.
  pub record Scanned (bb : Blackboard) (found : Blackboard × List Task) : Type 0 where
    pub calm : Evolves Calm bb.task_queue found.0.task_queue
    pub same_ids : ids found.0.task_queue ≡ ids bb.task_queue
    pub eligible : All (Ready entity found.0) found.1

  abbrev skips : Task → Task
  skips = write_status wall "skipped" (some "precondition_not_met") none

  skip-Calm :
      (q : List Task) (t : Task)
      → find_task q t.id ≡ some t
      → t.status ≡ "pending"
      → Evolves Calm q (update_first t.id skips q)
  skip-Calm q t found pending =
      update_first-Evolves Calm t.id skips q (λ u. refl) Calm-same
        (λ u e. record {
          same_id = refl;
          same_deps = refl;
          changed = inr (
            ap (λ (x : Task). x.status) (some-inj (sym e ∙ found)) ∙ pending,
            ne_of_== "skipped" "executing" refl,
          );
        })

  -- The others stay ready where one is skipped.
  Ready-skip :
      (bb : Blackboard) (t e : Task)
      → find_task bb.task_queue t.id ≡ some t
      → t.status ≡ "pending"
      → check_preconditions bb t ≡ false
      → Ready entity bb e
      → Ready entity (record bb { task_queue = update_first t.id skips bb.task_queue }) e
  unfolding check_preconditions bb_get
  Ready-skip bb t e found pending barred r = record {
    queued =
        find_task-update_first t.id skips bb.task_queue e.id (λ u. refl)
        ∙ elim (Bool-cases (t.id == e.id)) [
          | inl same ↦
              let one : t ≡ e = some-inj (sym found ∙ rw (eq_of_== t.id e.id same) r.queued) in
              absurd (cc (ap (check_preconditions bb) one, barred, r.allowed))
          | inr other ↦ rw (other, r.queued) refl
        ];
    own = r.own;
    is_pending = r.is_pending;
    ready =
        deps_ok_mono bb.task_queue (update_first t.id skips bb.task_queue) e e
          (λ id.
            Calm-ended bb.task_queue (update_first t.id skips bb.task_queue) id
              (skip-Calm bb.task_queue t found pending))
          refl r.ready;
    allowed = r.allowed;
  }

  All-snoc : (P : Task → Type 0) (l : List Task) (t : Task) → All P l → P t → All P (l ++ t ∷ [])
  All-snoc P l t h p = All-append P l (t ∷ []) h (p, tt)

  consider_entry-Scanned :
      (id : String) (bb bb' : Blackboard) (eligible : List Task) (o : Option Task)
      → find_task bb'.task_queue id ≡ o
      → Scanned bb (bb', eligible)
      → Scanned bb (consider_entry wall entity o (bb', eligible))
  unfolding consider_entry update_task_status
  consider_entry-Scanned id bb bb' eligible none found before = before
  consider_entry-Scanned id bb bb' eligible (some t) found before =
      let queued : find_task bb'.task_queue t.id ≡ some t =
        ap (find_task bb'.task_queue) (find_task-id bb'.task_queue id t found) ∙ found in
      elim (Bool-cases (t.entity == entity && t.status == "pending" && deps_ok bb'.task_queue t)) [
        | inr e ↦ rw e before
        | inl e ↦
            let pending = eq_of_== t.status "pending" (ground arith) in
            elim (Bool-cases (check_preconditions bb' t)) [
              | inl f ↦
                  rw (e, f)
                    (record {
                      calm = before.calm;
                      same_ids = before.same_ids;
                      eligible = All-snoc (Ready entity bb') eligible t before.eligible (record {
                        queued = queued;
                        own = eq_of_== t.entity entity (ground arith);
                        is_pending = pending;
                        ready = ground arith;
                        allowed = f;
                      });
                    })
              | inr f ↦
                  rw (e, f)
                    (record {
                      calm = λ k.
                          NextBy-then Calm Calm Calm Calm-then (find_task bb.task_queue k)
                            (find_task bb'.task_queue k)
                            (find_task (update_first t.id skips bb'.task_queue) k) (before.calm k)
                            (skip-Calm bb'.task_queue t queued pending k);
                      same_ids =
                          ids-update_first t.id skips bb'.task_queue (λ u. refl) ∙ before.same_ids;
                      eligible =
                          All-map (Ready entity bb')
                            (Ready entity
                              (record bb' { task_queue = update_first t.id skips bb'.task_queue }))
                            eligible (λ x. Ready-skip bb' t x queued pending f) before.eligible;
                    })
            ]
      ]

  scan-Scanned :
      (bb : Blackboard) (ts : List Task) (found : Blackboard × List Task)
      → Scanned bb found
      → Scanned bb (scan wall entity ts found)
  unfolding scan consider
  scan-Scanned bb [] found before = before
  scan-Scanned bb (t ∷ ts) (bb', eligible) before =
      scan-Scanned bb ts (consider wall entity t (bb', eligible))
        (consider_entry-Scanned t.id bb bb' eligible (find_task bb'.task_queue t.id) refl before)

  pub scan_lem : (bb : Blackboard) → Scanned bb (scan wall entity bb.task_queue (bb, []))
  scan_lem bb =
      scan-Scanned bb bb.task_queue (bb, [])
        (record {
          calm = λ k. NextBy-same Calm Calm-same (find_task bb.task_queue k);
          same_ids = refl;
          eligible = tt;
        })
