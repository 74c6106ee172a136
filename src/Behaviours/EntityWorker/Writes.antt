-- ===== src/Behaviours/EntityWorker/Writes.antt =====
-- What a tick writes to the entry of the worker's own task, and to no other.
use hmta_service.Prelude.{
  String, some, Bool, true, false, List, [], ◌∷◌, ◌==◌, ◌≡◌, inl, inr, ◌⊎◌, refl, sym, ap, ◌∙◌,
  subst, Bool-cases,
}
use hmta_service.Behaviours.{Task}
use hmta_service.Behaviours.EntityWorker.{
  EntityWorker, WorkerPhase, idle, executing, human_fallback,
}
use hmta_service.Behaviours.EntityWorker.Queue.{update_first}
use hmta_service.Behaviours.EntityWorker.Finds.{KeepsId}

-- An edit that leaves a task's identity, its entity and its dependencies.
pub record IsEdit (f : Task → Task) : Type 0 where
  pub keeps_id : KeepsId f
  pub keeps_entity : (t : Task) → (f t).entity ≡ t.entity
  pub keeps_deps : (t : Task) → (f t).depends_on ≡ t.depends_on

-- One edit of the first entry with the id; a kept task that executes goes on executing.
pub record IsWrite (kept : Bool) (id : String) (q q' : List Task) : Type 0 where
  pub f : Task → Task
  pub is_edit : IsEdit f
  pub written : q' ≡ update_first id f q
  pub stays : kept ≡ true → (t : Task) → t.status ≡ "executing" → (f t).status ≡ "executing"

abbrev pub same : Task → Task
same t = t

pub update_first-same : (id : String) (q : List Task) → update_first id same q ≡ q
unfolding update_first
update_first-same id [] = refl
update_first-same id (t ∷ ts) = elim (Bool-cases (t.id == id)) [
  | inl e ↦ rw e refl
  | inr e ↦ rw e (ap (λ (l : List Task). t ∷ l) (update_first-same id ts))
]

pub update_first-twice :
    (id : String) (f g : Task → Task) (q : List Task)
    → KeepsId f
    → update_first id g (update_first id f q) ≡ update_first id (λ t. g (f t)) q
unfolding update_first
update_first-twice id f g [] keeps = refl
update_first-twice id f g (t ∷ ts) keeps = elim (Bool-cases (t.id == id)) [
  | inl e ↦ rw (e, keeps t, e) refl
  | inr e ↦ rw (e, e) (ap (λ (l : List Task). t ∷ l) (update_first-twice id f g ts keeps))
]

pub same-IsEdit : IsEdit same
same-IsEdit = record { keeps_id = λ t. refl; keeps_entity = λ t. refl; keeps_deps = λ t. refl }

pub unwritten : (kept : Bool) (id : String) (q : List Task) → IsWrite kept id q q
unwritten kept id q = record {
  f = same;
  is_edit = same-IsEdit;
  written = sym (update_first-same id q);
  stays = λ k t e. e;
}

pub then_written :
    {kept : Bool} {id : String} {q q' q'' : List Task}
    → IsWrite kept id q q'
    → IsWrite kept id q' q''
    → IsWrite kept id q q''
then_written {kept} {id} {q} {q'} {q''} a b = record {
  f = λ t. b.f (a.f t);
  is_edit = record {
    keeps_id = λ t. b.is_edit.keeps_id (a.f t) ∙ a.is_edit.keeps_id t;
    keeps_entity = λ t. b.is_edit.keeps_entity (a.f t) ∙ a.is_edit.keeps_entity t;
    keeps_deps = λ t. b.is_edit.keeps_deps (a.f t) ∙ a.is_edit.keeps_deps t;
  };
  written =
      b.written
      ∙ ap (update_first id b.f) a.written
      ∙ update_first-twice id a.f b.f q a.is_edit.keeps_id;
  stays = λ k t e. b.stays k (a.f t) (a.stays k t e);
}

pub fields_kept :
    (f : Task → Task)
    → ((t : Task)
        → ((f t).id ≡ t.id) × ((f t).entity ≡ t.entity) × ((f t).depends_on ≡ t.depends_on))
    → IsEdit f
fields_kept f h = record {
  keeps_id = λ t. (h t).0;
  keeps_entity = λ t. (h t).1;
  keeps_deps = λ t. (h t).2;
}

-- The task is given up, so nothing is claimed of its status.
pub released :
    {id : String} {q q' : List Task} (f : Task → Task)
    → IsEdit f
    → q' ≡ update_first id f q
    → IsWrite false id q q'
released f edit e = record { f = f; is_edit = edit; written = e; stays = λ k. cc }

pub kept_on :
    {id : String} {q q' : List Task} (f : Task → Task)
    → IsEdit f
    → ((t : Task) → t.status ≡ "executing" → (f t).status ≡ "executing")
    → q' ≡ update_first id f q
    → IsWrite true id q q'
kept_on f edit stays e = record { f = f; is_edit = edit; written = e; stays = λ k. stays }

-- A queue that is given by an equation.
pub unwritten_as : (kept : Bool) (id : String) {q q' : List Task} → q' ≡ q → IsWrite kept id q q'
unwritten_as kept id {q} e =
    subst (λ (r : List Task). IsWrite kept id q r) (sym e) (unwritten kept id q)

pub forgotten :
    {kept : Bool} {id : String} {q q' : List Task} → IsWrite kept id q q' → IsWrite false id q q'
forgotten a = record { f = a.f; is_edit = a.is_edit; written = a.written; stays = λ k. cc }

abbrev pub is_busy : WorkerPhase → Bool
is_busy idle = false
is_busy executing = true
is_busy human_fallback = true

-- A turn with the task `c`: the worker goes on with it, or lets it go.
abbrev pub HoldsOn : EntityWorker → Task → List Task → List Task → Type 0
HoldsOn w c q q' = (is_busy w.phase ≡ true) × (w.current_task ≡ some c) × IsWrite true c.id q q'

abbrev pub LetsGo : EntityWorker → Task → List Task → List Task → Type 0
LetsGo w c q q' = (w.phase ≡ idle) × IsWrite false c.id q q'

pub record Turn (entity : String) (c : Task) (q : List Task) (w' : EntityWorker) (q' : List Task)
    : Type 0 where
  pub same_entity : w'.entity_id ≡ entity
  pub outcome : HoldsOn w' c q q' ⊎ LetsGo w' c q q'
