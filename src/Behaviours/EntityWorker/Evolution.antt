-- ===== src/Behaviours/EntityWorker/Evolution.antt =====
-- How the entries of the queue change from one tick to the next.
use hmta_service.Behaviours.{Task}
use hmta_service.Prelude.{
  arith, none, inr, false, eq_of_==, ◌==◌, refl, ◌≢◌, sym, elem, true, ap, ◌⊎◌, subst, some, inl,
  Option, List, ◌∙◌, Bool, ◌≡◌, String,
}
use hmta_service.Behaviours.EntityWorker.Finds.{find_task-update_first, on_found, KeepsId}
use hmta_service.Behaviours.EntityWorker.Queue.{update_first, terminal_statuses, deps_ok, find_task}
use hmta_service.Prelude.Options.{some-inj}

-- What becomes of an entry, if no entry comes or goes.
abbrev pub NextBy : (Task → Task → Type 0) → Option Task → Option Task → Type 0
NextBy C none none = Unit
NextBy C (some t) (some u) = C t u
NextBy C _ _ = ⊥

abbrev pub Evolves : (Task → Task → Type 0) → List Task → List Task → Type 0
Evolves C q q' = (id : String) → NextBy C (find_task q id) (find_task q' id)

pub NextBy-same :
    (C : Task → Task → Type 0) → ((t : Task) → C t t) → (o : Option Task) → NextBy C o o
NextBy-same C same none = tt
NextBy-same C same (some t) = same t

pub NextBy-map :
    (C D : Task → Task → Type 0)
    → ((t u : Task) → C t u → D t u)
    → (a b : Option Task) → NextBy C a b
    → NextBy D a b
NextBy-map C D f none none h = tt
NextBy-map C D f (some t) (some u) h = f t u h
NextBy-map C D f none (some u) h = h
NextBy-map C D f (some t) none h = h

pub NextBy-then :
    (C D F : Task → Task → Type 0)
    → ((t u v : Task) → C t u → D u v → F t v)
    → (a b c : Option Task) → NextBy C a b
    → NextBy D b c
    → NextBy F a c
NextBy-then C D F f none none none g h = tt
NextBy-then C D F f (some t) (some u) (some v) g h = f t u v g h
NextBy-then C D F f none none (some v) g h = h
NextBy-then C D F f (some t) (some u) none g h = h
NextBy-then C D F f none (some u) c g h = elim g [ ]
NextBy-then C D F f (some t) none c g h = elim g [ ]

-- What an entry was before.
pub NextBy-before :
    (C : Task → Task → Type 0) (a b : Option Task) (u : Task)
    → NextBy C a b
    → b ≡ some u
    → (t : Task) × (a ≡ some t) × C t u
NextBy-before C none none u h e = absurd (ground arith)
NextBy-before C (some t) (some v) u h e = (t, refl, subst (λ (x : Task). C t x) (some-inj e) h)
NextBy-before C none (some v) u h e = elim h [ ]
NextBy-before C (some t) none u h e = elim h [ ]

pub NextBy-after :
    (C : Task → Task → Type 0) (a b : Option Task) (t : Task)
    → NextBy C a b
    → a ≡ some t
    → (u : Task) × (b ≡ some u) × C t u
NextBy-after C none none t h e = absurd (ground arith)
NextBy-after C (some s) (some u) t h e = (u, refl, subst (λ (x : Task). C x u) (some-inj e) h)
NextBy-after C none (some u) t h e = elim h [ ]
NextBy-after C (some s) none t h e = elim h [ ]

on_found-NextBy :
    (C : Task → Task → Type 0) (b : Bool) (f : Task → Task) (o : Option Task)
    → ((t : Task) → C t t)
    → ((t : Task) → b ≡ true → o ≡ some t → C t (f t))
    → NextBy C o (on_found b f o)
on_found-NextBy C true f none same h = tt
on_found-NextBy C true f (some t) same h = h t refl refl
on_found-NextBy C false f none same h = tt
on_found-NextBy C false f (some t) same h = same t

pub update_first-Evolves :
    (C : Task → Task → Type 0) (id : String) (f : Task → Task) (q : List Task)
    → KeepsId f
    → ((t : Task) → C t t)
    → ((t : Task) → find_task q id ≡ some t → C t (f t))
    → Evolves C q (update_first id f q)
update_first-Evolves C id f q keeps same h other = rw (find_task-update_first id f q other keeps) (
    on_found-NextBy C (id == other) f (find_task q other) same
      (λ t e found. h t (ap (find_task q) (eq_of_== id other e) ∙ found)))

-- A change that starts nothing: only a pending entry changes, and it does not come to execute.
pub record Calm (t u : Task) : Type 0 where
  pub same_id : u.id ≡ t.id
  pub same_deps : u.depends_on ≡ t.depends_on
  pub changed : (u ≡ t) ⊎ ((t.status ≡ "pending") × (u.status ≢ "executing"))

pub Calm-same : (t : Task) → Calm t t
Calm-same t = record { same_id = refl; same_deps = refl; changed = inl refl }

pub Calm-then : (t u v : Task) → Calm t u → Calm u v → Calm t v
Calm-then t u v a b = record {
  same_id = b.same_id ∙ a.same_id;
  same_deps = b.same_deps ∙ a.same_deps;
  changed = elim b.changed [
    | inl e ↦
        subst (λ (x : Task). (x ≡ t) ⊎ ((t.status ≡ "pending") × (x.status ≢ "executing"))) (sym e)
          a.changed
    | inr (p, n) ↦ elim a.changed [
      | inl e ↦ inr (ap (λ (x : Task). x.status) (sym e) ∙ p, n)
      | inr (p', n') ↦ inr (p', n)
    ]
  ];
}

-- A tick of the worker of `entity`, after which the queue is `later`: what changes was pending or
-- the worker's own, and what starts has no open dependency.
pub record Advance (entity : String) (later : List Task) (t u : Task) : Type 0 where
  pub same_id : u.id ≡ t.id
  pub same_deps : u.depends_on ≡ t.depends_on
  pub changed :
      (u ≡ t) ⊎ ((t.status ≡ "pending") ⊎ ((t.status ≡ "executing") × (t.entity ≡ entity)))
  pub starts : u.status ≡ "executing" → (t.status ≡ "executing") ⊎ (deps_ok later u ≡ true)

pub Calm-Advance :
    (entity : String) (later : List Task) (t u : Task) → Calm t u → Advance entity later t u
Calm-Advance entity later t u a = elim a.changed [
  | inl e ↦ record {
    same_id = a.same_id;
    same_deps = a.same_deps;
    changed = inl e;
    starts = λ s. inl (ap (λ (x : Task). x.status) (sym e) ∙ s);
  }
  | inr (p, n) ↦ record {
    same_id = a.same_id;
    same_deps = a.same_deps;
    changed = inr (inl p);
    starts = λ s. absurd (n s);
  }
]

-- An entry that has ended is as it was.
pub ended_stays :
    (entity : String) (later : List Task) (t u : Task)
    → Advance entity later t u
    → elem t.status terminal_statuses ≡ true
    → u ≡ t
ended_stays entity later t u a ended = elim a.changed [
  | inl e ↦ e
  | inr (inl p) ↦ absurd (cc (ap (λ (s : String). elem s terminal_statuses) p ∙ refl, ended))
  | inr (inr (x, o)) ↦ absurd (cc (ap (λ (s : String). elem s terminal_statuses) x ∙ refl, ended))
]
