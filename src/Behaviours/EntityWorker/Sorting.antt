-- ===== src/Behaviours/EntityWorker/Sorting.antt =====
-- The stable sort of tasks: what its head is.
use hmta_service.Prelude.{subst, Bool-cases, arith, All, some, inl, inr, [], Bool, List, ◌∷◌, ◌≡◌}
use hmta_service.Behaviours.EntityWorker.Queue.{head, insert, sort_by}
use hmta_service.Behaviours.{Task}
use hmta_service.Prelude.Options.{some-inj}

insert-All :
    (P : Task → Type 0) (le : Task → Task → Bool) (t : Task) (l : List Task)
    → P t
    → All P l
    → All P (insert le t l)
insert-All P le t [] p h = (p, tt)
insert-All P le t (u ∷ us) p h = elim (Bool-cases (le t u)) [
  | inl e ↦ rw e (p, h)
  | inr e ↦ rw e (h.0, insert-All P le t us p h.1)
]

pub sort_by-All :
    (P : Task → Type 0) (le : Task → Task → Bool) (l : List Task) → All P l → All P (sort_by le l)
unfolding sort_by
sort_by-All P le [] h = tt
sort_by-All P le (t ∷ ts) h = insert-All P le t (sort_by le ts) h.0 (sort_by-All P le ts h.1)

pub head-All : (P : Task → Type 0) (l : List Task) (t : Task) → All P l → head l ≡ some t → P t
head-All P [] t h e = absurd (ground arith)
head-All P (u ∷ us) t h e = subst P (some-inj e) h.0
