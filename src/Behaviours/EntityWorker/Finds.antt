-- ===== src/Behaviours/EntityWorker/Finds.antt =====
-- Reads of the task queue after a write, and how the writes keep the queue's order.
use hmta_service.Prelude.{
  All, Option-cases, String, Option, some, Bool, true, false, List, [], ◌∷◌, ◌==◌, ◌≡◌, inl, inr,
  ◌⊎◌, refl, sym, ap, subst, arith, eq_iff, elem, Bool-cases, ==_refl, eq_of_==,
}
use hmta_service.Behaviours.{Blackboard, Task}
use hmta_service.Behaviours.EntityWorker.Queue.{
  task_of, read_task_human_response, find_task, update_first,
}
use hmta_service.Prelude.Options.{some-inj}

abbrev pub on_found : Bool → (Task → Task) → Option Task → Option Task
on_found true f (some t) = some (f t)
on_found _ f o = o

abbrev pub KeepsId : (Task → Task) → Type 0
KeepsId f = (t : Task) → (f t).id ≡ t.id

pub find_task-update_first :
    (id : String) (f : Task → Task) (q : List Task) (other : String)
    → KeepsId f
    → find_task (update_first id f q) other ≡ on_found (id == other) f (find_task q other)
unfolding find_task update_first
find_task-update_first id f [] other keeps = elim (Bool-cases (id == other)) [
  | inl e ↦ rw e refl
  | inr e ↦ rw e refl
]
find_task-update_first id f (t ∷ ts) other keeps = ground (
  arith,
  keeps t,
  eq_iff t.id id,
  eq_iff t.id other,
  eq_iff id other,
  find_task-update_first id f ts other keeps,
)

pub find_task-id : (q : List Task) (id : String) (t : Task) → find_task q id ≡ some t → t.id ≡ id
unfolding find_task
find_task-id [] id t h = absurd (ground arith)
find_task-id (u ∷ us) id t h = ground (arith, eq_iff u.id id, find_task-id us id t)

pub task_of-id : (bb : Blackboard) (t : Task) → (task_of bb t).id ≡ t.id
unfolding task_of
task_of-id bb t = elim (Option-cases (find_task bb.task_queue t.id)) [
  | inl e ↦ rw e refl
  | inr (u, e) ↦ rw e (find_task-id bb.task_queue t.id u e)
]

pub find_task-All :
    (P : Task → Type 0) (q : List Task) (id : String) (t : Task)
    → All P q
    → find_task q id ≡ some t
    → P t
unfolding find_task
find_task-All P [] id t h found = absurd (ground arith)
find_task-All P (u ∷ us) id t h found = elim (Bool-cases (u.id == id)) [
  | inl e ↦ subst P (some-inj (rw e at found)) h.0
  | inr e ↦ find_task-All P us id t h.1 (rw e at found)
]

pub task_of-found :
    (bb : Blackboard) (t u : Task) → find_task bb.task_queue t.id ≡ some u → task_of bb t ≡ u
unfolding task_of
task_of-found bb t u found = rw found refl

pub read_response-found :
    (bb : Blackboard) (t u : Task)
    → find_task bb.task_queue t.id ≡ some u
    → read_task_human_response t.id bb ≡ u.human_response
unfolding read_task_human_response
read_response-found bb t u found = rw (found, read_task_human_response) refl

-- No id stands twice.
abbrev pub ids : List Task → List String
ids [] = []
ids (t ∷ ts) = t.id ∷ ids ts

abbrev pub IsUnique : List Task → Type 0
IsUnique [] = Unit
IsUnique (t ∷ ts) = (elem t.id (ids ts) ≡ false) × IsUnique ts

abbrev pub Distinct : List String → Type 0
Distinct [] = Unit
Distinct (k ∷ ks) = (elem k ks ≡ false) × Distinct ks

Distinct-ids : (q : List Task) → IsUnique q → Distinct (ids q)
Distinct-ids [] h = tt
Distinct-ids (t ∷ ts) h = (h.0, Distinct-ids ts h.1)

IsUnique-ids : (q : List Task) → Distinct (ids q) → IsUnique q
IsUnique-ids [] h = tt
IsUnique-ids (t ∷ ts) h = (h.0, IsUnique-ids ts h.1)

pub IsUnique-as : (q q' : List Task) → ids q' ≡ ids q → IsUnique q → IsUnique q'
IsUnique-as q q' same h = IsUnique-ids q' (subst Distinct (sym same) (Distinct-ids q h))

pub ids-update_first :
    (id : String) (f : Task → Task) (q : List Task) → KeepsId f → ids (update_first id f q) ≡ ids q
unfolding update_first
ids-update_first id f [] keeps = refl
ids-update_first id f (t ∷ ts) keeps = elim (Bool-cases (t.id == id)) [
  | inl e ↦ rw (e, keeps t) refl
  | inr e ↦ rw e (ap (λ (l : List String). t.id ∷ l) (ids-update_first id f ts keeps))
]

-- An entry of the list.
abbrev pub Has : Task → List Task → Type 0
Has t [] = ⊥
Has t (u ∷ us) = (u ≡ t) ⊎ Has t us

pub Has-elem : (t : Task) (q : List Task) → Has t q → elem t.id (ids q) ≡ true
Has-elem t [] h = elim h [ ]
Has-elem t (u ∷ us) (inl e) = rw (ap (λ (v : Task). v.id) e, ==_refl t.id) refl
Has-elem t (u ∷ us) (inr later) = ground (arith, Has-elem t us later)

-- Where no id stands twice, an entry is what its id finds.
pub find_task-Has : (t : Task) (q : List Task) → IsUnique q → Has t q → find_task q t.id ≡ some t
unfolding find_task
find_task-Has t [] unique h = elim h [ ]
find_task-Has t (u ∷ us) unique (inl e) =
    subst (λ (v : Task). find_task (v ∷ us) t.id ≡ some t) (sym e) (rw (==_refl t.id) refl)
find_task-Has t (u ∷ us) unique (inr later) = elim (Bool-cases (u.id == t.id)) [
  | inl e ↦
      let there = Has-elem t us later in
      let absent : elem t.id (ids us) ≡ false = rw (← eq_of_== u.id t.id e) unique.0 in
      absurd (ground arith)
  | inr e ↦ rw e (find_task-Has t us unique.1 later)
]
