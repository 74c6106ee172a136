-- ===== src/Behaviours/EntityWorker/Runs.antt =====
-- Any number of workers on one queue, ticked in any order: what every reachable state satisfies.
use hmta_service.Prelude.{
  some, true, All-append, subst, sym, eq_iff, ne_of_==, arith, All, elem, ap, inl, inr, false, [],
  refl, ℕ, String, List, ◌≡◌, ◌++◌, ◌≢◌, ◌∙◌, ◌∷◌,
}
use hmta_service.Behaviours.EntityWorker.Finds.{find_task-All, IsUnique-as, IsUnique, Distinct}
use hmta_service.Behaviours.{Datum, Blackboard, Task}
use hmta_service.Behaviours.EntityWorker.{WorkerWorld, CommandParams, EntityWorker}
use hmta_service.Command.{Translators}
use hmta_service.Behaviours.EntityWorker.Evolution.{
  ended_stays, NextBy-before, NextBy-after, Advance, Evolves,
}
use hmta_service.Behaviours.EntityWorker.Fleet.{Ticked, IsOrdered, Holds}
use hmta_service.Behaviours.EntityWorker.Ticks.{update}
use hmta_service.Behaviours.EntityWorker.Queue.{terminal_statuses, find_task}
use hmta_service.Behaviours.SupervisedFallback.{Clocks}
use hmta_service.Behaviours.EntityWorker.Picks.{ended_mono, deps_ok_mono}
use hmta_service.Behaviours.EntityWorker.Begins.{update-Ticked}

-- The state: the workers, and the world that they share.
pub record Team (Payload : Type 0) : Type 0 where
  pub workers : List EntityWorker
  pub world : WorkerWorld Payload

abbrev pub names : List EntityWorker → List String
names [] = []
names (w ∷ ws) = w.entity_id ∷ names ws

-- No two workers have one entity, no two tasks one id; each worker with a task holds an executing
-- task of its own; and what executes has no open dependency.
pub record IsTeam {Payload : Type 0} (a : Team Payload) : Type 0 where
  pub apart : Distinct (names a.workers)
  pub unique : IsUnique a.world.bb.task_queue
  pub each : All (λ w. Holds w a.world.bb.task_queue) a.workers
  pub ordered : IsOrdered a.world.bb.task_queue

names-replace :
    (before after : List EntityWorker) (w w' : EntityWorker)
    → w'.entity_id ≡ w.entity_id
    → names (before ++ w' ∷ after) ≡ names (before ++ w ∷ after)
names-replace [] after w w' e = ap (λ (n : String). n ∷ names after) e
names-replace (b ∷ bs) after w w' e =
    ap (λ (l : List String). b.entity_id ∷ l) (names-replace bs after w w' e)

abbrev OtherThan : String → EntityWorker → Type 0
OtherThan n v = v.entity_id ≢ n

others_after :
    (n : String) (ws : List EntityWorker) → elem n (names ws) ≡ false → All (OtherThan n) ws
others_after n [] h = tt
others_after n (v ∷ vs) h =
    (ne_of_== v.entity_id n (ground arith), others_after n vs (ground arith))

names_middle :
    (n : String) (before after : List EntityWorker) (w : EntityWorker)
    → elem n (names (before ++ w ∷ after)) ≡ false
    → n ≢ w.entity_id
names_middle n [] after w h e = ground (arith, (eq_iff w.entity_id n).1 (sym e))
names_middle n (b ∷ bs) after w h e = names_middle n bs after w (ground arith) e

others :
    (before after : List EntityWorker) (w : EntityWorker)
    → Distinct (names (before ++ w ∷ after))
    → All (OtherThan w.entity_id) before × All (OtherThan w.entity_id) after
others [] after w h = (tt, others_after w.entity_id after h.0)
others (b ∷ bs) after w h =
    let (x, y) = others bs after w h.1 in ((names_middle b.entity_id bs after w h.0, x), y)

All-parts :
    (P : EntityWorker → Type 0) (before after : List EntityWorker) (w : EntityWorker)
    → All P (before ++ w ∷ after)
    → All P before × P w × All P after
All-parts P [] after w h = (tt, h.0, h.1)
All-parts P (b ∷ bs) after w h = let (x, y, z) = All-parts P bs after w h.1 in ((h.0, x), y, z)

All-zip :
    (P Q R : EntityWorker → Type 0) (l : List EntityWorker)
    → ((v : EntityWorker) → P v → Q v → R v)
    → All P l
    → All Q l
    → All R l
All-zip P Q R [] f h k = tt
All-zip P Q R (v ∷ vs) f h k = (f v h.0 k.0, All-zip P Q R vs f h.1 k.1)

-- The tick of one worker leaves another with its task.
other-Holds :
    (entity : String) (q q' : List Task) (v : EntityWorker)
    → Evolves (Advance entity q') q q'
    → v.entity_id ≢ entity
    → Holds v q
    → Holds v q'
other-Holds entity q q' v step other (inl free) = inl free
other-Holds entity q q' v step other (inr b) =
    let A = Advance entity q' in
    let (u, found, a) =
      NextBy-after A (find_task q b.task.id) (find_task q' b.task.id) b.entry (step b.task.id)
        b.found in
    elim a.changed [
      | inl e ↦ inr (record {
        busy = b.busy;
        task = b.task;
        current = b.current;
        entry = u;
        found = found;
        working = ap (λ (x : Task). x.status) e ∙ b.working;
        own = ap (λ (x : Task). x.entity) e ∙ b.own;
      })
      | inr (inl p) ↦ absurd (ne_of_== "pending" "executing" refl (sym p ∙ b.working))
      | inr (inr (x, o)) ↦ absurd (other (sym b.own ∙ o))
    ]

Advance-IsOrdered :
    (entity : String) (q q' : List Task)
    → Evolves (Advance entity q') q q'
    → IsOrdered q
    → IsOrdered q'
Advance-IsOrdered entity q q' step ordered id u found working =
    let A = Advance entity q' in
    let (t, before, a) = NextBy-before A (find_task q id) (find_task q' id) u (step id) found in
    elim (a.starts working) [
      | inr d ↦ d
      | inl x ↦
          deps_ok_mono q q' t u (λ k. ended_mono A q q' k (λ y z. ended_stays entity q' y z) step)
            a.same_deps (ordered id t before x)
    ]

module _ {Payload : Type 0} (tx : Translators CommandParams Payload)
    (zone_target : Blackboard → Datum → Datum) (proximity : String → Blackboard → Task → ℕ) where
  -- One worker ticks.
  pub record Tick (a b : Team Payload) : Type 0 where
    pub before : List EntityWorker
    pub ticking : EntityWorker
    pub after : List EntityWorker
    pub clocks : Clocks
    pub from : a.workers ≡ before ++ ticking ∷ after
    pub to :
        b.workers ≡ before ++ (update tx zone_target proximity clocks ticking a.world).1 ∷ after
    pub world : b.world ≡ (update tx zone_target proximity clocks ticking a.world).2

  pub data Run (a : Team Payload) : Team Payload → Type 0 where
    start : Run a a
    next : {b c : Team Payload} → Run a b → Tick b c → Run a c

  Tick-Ticked :
      (a b : Team Payload) (k : Tick a b)
      → IsTeam a
      → Ticked k.ticking a.world.bb.task_queue
          (update tx zone_target proximity k.clocks k.ticking a.world).1
          b.world.bb.task_queue
  Tick-Ticked a b k team =
      let (x, own, y) =
        All-parts (λ w. Holds w a.world.bb.task_queue) k.before k.after k.ticking
          (subst (All (λ w. Holds w a.world.bb.task_queue)) k.from team.each) in
      subst
        (λ (s : WorkerWorld Payload).
          Ticked k.ticking a.world.bb.task_queue
            (update tx zone_target proximity k.clocks k.ticking a.world).1 s.bb.task_queue)
        (sym k.world)
        (update-Ticked tx zone_target proximity k.clocks k.ticking a.world team.unique own)

  Tick-IsTeam : (a b : Team Payload) → Tick a b → IsTeam a → IsTeam b
  Tick-IsTeam a b k team =
      let q = a.world.bb.task_queue in
      let q' = b.world.bb.task_queue in
      let w' = (update tx zone_target proximity k.clocks k.ticking a.world).1 in
      let t = Tick-Ticked a b k team in
      let apart = subst (λ (l : List EntityWorker). Distinct (names l)) k.from team.apart in
      let (left, right) = others k.before k.after k.ticking apart in
      let (x, own, y) =
        All-parts (λ w. Holds w q) k.before k.after k.ticking
          (subst (All (λ w. Holds w q)) k.from team.each) in
      let keep = λ (v : EntityWorker). other-Holds k.ticking.entity_id q q' v t.evolves in
      let O = OtherThan k.ticking.entity_id in
      record {
        apart =
            subst (λ (l : List EntityWorker). Distinct (names l)) (sym k.to)
              (subst Distinct (sym (names-replace k.before k.after k.ticking w' t.same_entity))
                apart);
        unique = IsUnique-as q q' t.same_ids team.unique;
        each = subst (All (λ w. Holds w q')) (sym k.to) (
            All-append (λ w. Holds w q') k.before (w' ∷ k.after)
              (All-zip O (λ w. Holds w q) (λ w. Holds w q') k.before keep left x)
              (t.holds, All-zip O (λ w. Holds w q) (λ w. Holds w q') k.after keep right y));
        ordered = Advance-IsOrdered k.ticking.entity_id q q' t.evolves team.ordered;
      }

  -- Whatever order the workers tick in: each worker with a task keeps holding a task that executes
  -- and is its own, so no two workers ever have one task; and no task ever executes while one of its
  -- dependencies is open.
  pub run-IsTeam : (a b : Team Payload) → IsTeam a → Run a b → IsTeam b
  run-IsTeam a b team start = team
  run-IsTeam a b team (next {b = m} run k) = Tick-IsTeam m b k (run-IsTeam a m team run)

  Tick-ended :
      (a b : Team Payload) (id : String) (t : Task)
      → Tick a b
      → IsTeam a
      → find_task a.world.bb.task_queue id ≡ some t
      → elem t.status terminal_statuses ≡ true
      → find_task b.world.bb.task_queue id ≡ some t
  Tick-ended a b id t k team found ended =
      let q = a.world.bb.task_queue in
      let q' = b.world.bb.task_queue in
      let A = Advance k.ticking.entity_id q' in
      let (u, there, step) =
        NextBy-after A (find_task q id) (find_task q' id) t ((Tick-Ticked a b k team).evolves id)
          found in
      there ∙ ap (λ (x : Task). some x) (ended_stays k.ticking.entity_id q' t u step ended)

  -- In a run that consists of worker ticks alone, in any order, and begins with a consistent team, the
  -- queue's entry of a task that is completed, failed or skipped stays as it is. Of a task that
  -- something else ends while a worker waits for an answer on it, it says nothing.
  pub run_keeps_ended :
      (a b : Team Payload) (id : String) (t : Task)
      → IsTeam a
      → Run a b
      → find_task a.world.bb.task_queue id ≡ some t
      → elem t.status terminal_statuses ≡ true
      → find_task b.world.bb.task_queue id ≡ some t
  run_keeps_ended a b id t team start found ended = found
  run_keeps_ended a b id t team (next {b = m} run k) found ended =
      Tick-ended m b id t k (run-IsTeam a m team run)
        (run_keeps_ended a m id t team run found ended) ended

-- A queue in which nothing executes yet is in order.
pub waiting-IsOrdered : (q : List Task) → All (λ t. t.status ≢ "executing") q → IsOrdered q
waiting-IsOrdered q waits id t found working =
    absurd (find_task-All (λ t. t.status ≢ "executing") q id t waits found working)
