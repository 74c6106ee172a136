-- ===== src/Coverage/Lists.antt =====
-- What sorting and inserting keep of a list of subtasks (app/generation/graph/coverage_ensurer.py).
use hmta_service.Prelude.{
  ℕ, zero, suc, ◌+◌, Bool, false, ◌||◌, List, [], ◌∷◌, ◌≡◌, refl, ap, ◌∙◌, arith, any, filter,
}
use hmta_service.Coverage.Node.{Subtask, insert_by_rank, sort_by_rank, insert_at, insert_all}

module _ (p : Subtask → Bool) where
  any-insert_by_rank :
      (st : Subtask) (us : List Subtask) → any p (insert_by_rank st us) ≡ (p st || any p us)
  any-insert_by_rank st [] = refl
  any-insert_by_rank st (u ∷ us) = ground (arith, any-insert_by_rank st us)

  pub any-sort_by_rank : (sts : List Subtask) → any p (sort_by_rank sts) ≡ any p sts
  unfolding sort_by_rank
  any-sort_by_rank [] = refl
  any-sort_by_rank (st ∷ sts) =
      any-insert_by_rank st (sort_by_rank sts) ∙ ap (λ b. p st || b) (any-sort_by_rank sts)

  any-insert_at :
      (n : ℕ) (ft : Subtask) (sts : List Subtask) → any p (insert_at n ft sts) ≡ (p ft || any p sts)
  any-insert_at n ft [] = refl
  any-insert_at zero ft (st ∷ sts) = refl
  any-insert_at (suc n) ft (st ∷ sts) = ground (arith, any-insert_at n ft sts)

  pub any-insert_all :
      (n : ℕ) (fts sts : List Subtask) → any p (insert_all n fts sts) ≡ (any p fts || any p sts)
  unfolding insert_all
  any-insert_all n [] sts = refl
  any-insert_all n (ft ∷ fts) sts =
      ground (arith, any-insert_all (n + 1) fts (insert_at n ft sts), any-insert_at n ft sts)

  -- Subtasks that the test drops leave no trace.
  filter-insert_at :
      (n : ℕ) (ft : Subtask) (sts : List Subtask)
      → p ft ≡ false
      → filter p (insert_at n ft sts) ≡ filter p sts
  filter-insert_at n ft [] h = rw h refl
  filter-insert_at zero ft (st ∷ sts) h = rw h refl
  filter-insert_at (suc n) ft (st ∷ sts) h = rw (filter-insert_at n ft sts h) refl

  pub filter-insert_all :
      (n : ℕ) (fts sts : List Subtask)
      → any p fts ≡ false
      → filter p (insert_all n fts sts) ≡ filter p sts
  unfolding insert_all
  filter-insert_all n [] sts h = refl
  filter-insert_all n (ft ∷ fts) sts h =
      filter-insert_all (n + 1) fts (insert_at n ft sts) (ground arith)
      ∙ filter-insert_at n ft sts (ground arith)
