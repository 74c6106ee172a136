-- ===== src/Prelude/Dict.antt =====
-- Python's `dict` with text keys, as an association list in the order of insertion.
use Prim.Native.Nat.{suc}
use Prim.Native.String.{String}
use mathlib.Core.Path.{◌≡◌, refl, ap, ◌∙◌}
use mathlib.Core.Logic.{inl, inr}
use mathlib.Core.Bool.{Bool, true, false, ◌||◌}
use mathlib.Core.Option.{Option, none, some}
use mathlib.Core.List.{List, [], ◌∷◌, ◌++◌}
use native.Mathlib.Omega.{arith}
use text.Mathlib.Text.{◌==◌}
use text.Mathlib.TextEquality.{eq_iff}
use hmta_service.Prelude.Tests.{if◌then◌else◌, Bool-cases, ==_refl, ==_comm, eq_of_==}
use hmta_service.Prelude.Lists.{elem, length}

abbrev pub Dict {ℓ} : Type ℓ → Type ℓ
Dict V = List (String × V)

module _ {ℓ} {V : Type ℓ} where
  -- d.get(k)
  unfoldable pub lookup : String → Dict V → Option V
  lookup k [] = none
  lookup k ((j, v) ∷ d) = if j == k then some v else lookup k d

  -- k in d
  abbrev pub has : String → Dict V → Bool
  has k [] = false
  has k ((j, v) ∷ d) = (j == k) || has k d

  -- d[k] = v: a key that is there keeps its place.
  unfoldable pub put : String → V → Dict V → Dict V
  put k v [] = (k, v) ∷ []
  put k v ((j, w) ∷ d) = if j == k then (j, v) ∷ d else (j, w) ∷ put k v d

  -- d.pop(k, None)
  unfoldable pub remove : String → Dict V → Dict V
  remove k [] = []
  remove k ((j, w) ∷ d) = if j == k then remove k d else (j, w) ∷ remove k d

  -- {**d, **e}
  abbrev pub update_all : Dict V → Dict V → Dict V
  update_all d [] = d
  update_all d ((k, v) ∷ e) = update_all (put k v d) e

  abbrev pub keys : Dict V → List String
  keys [] = []
  keys ((j, v) ∷ d) = j ∷ keys d

  pub lookup-put :
      (k j : String) (v : V) (d : Dict V)
      → lookup j (put k v d) ≡ (if k == j then some v else lookup j d)
  unfolding lookup put
  lookup-put k j v [] = refl
  lookup-put k j v ((i, w) ∷ d) =
      ground (arith, eq_iff k j, eq_iff i k, eq_iff i j, lookup-put k j v d)

  pub lookup-remove :
      (k j : String) (d : Dict V) → lookup j (remove k d) ≡ (if k == j then none else lookup j d)
  unfolding lookup remove
  lookup-remove k j [] = ground arith
  lookup-remove k j ((i, w) ∷ d) =
      ground (arith, eq_iff k j, eq_iff i k, eq_iff i j, lookup-remove k j d)

  pub has-put : (k j : String) (v : V) (d : Dict V) → has j (put k v d) ≡ ((k == j) || has j d)
  unfolding put
  has-put k j v [] = refl
  has-put k j v ((i, w) ∷ d) = ground (arith, eq_iff k j, eq_iff i k, eq_iff i j, has-put k j v d)

  pub elem-keys : (k : String) (d : Dict V) → elem k (keys d) ≡ has k d
  elem-keys k [] = refl
  elem-keys k ((j, v) ∷ d) = ground (arith, elem-keys k d)

  pub has-eq-true : (k : String) (d : Dict V) → has k d ≡ true → (v : V) × (lookup k d ≡ some v)
  unfolding lookup
  has-eq-true k [] h = absurd (ground arith)
  has-eq-true k ((j, v) ∷ d) h = elim (Bool-cases (j == k)) [
    | inl e ↦ (v, ground arith)
    | inr e ↦ let (w, q) = has-eq-true k d (ground arith) in (w, ground arith)
  ]

  pub has-eq-false : (k : String) (d : Dict V) → has k d ≡ false → lookup k d ≡ none
  unfolding lookup
  has-eq-false k [] h = refl
  has-eq-false k ((j, v) ∷ d) h = ground (arith, has-eq-false k d)

  pub lookup-has : (k : String) (d : Dict V) (v : V) → lookup k d ≡ some v → has k d ≡ true
  unfolding lookup
  lookup-has k [] v h = absurd (ground arith)
  lookup-has k ((j, w) ∷ d) v h = ground (arith, lookup-has k d v)

  pub length-keys : (d : Dict V) → length (keys d) ≡ length d
  length-keys [] = refl
  length-keys ((j, v) ∷ d) = ap suc (length-keys d)

  pub lookup-put_self : (k : String) (v : V) (d : Dict V) → lookup k (put k v d) ≡ some v
  lookup-put_self k v d = lookup-put k k v d ∙ rw (==_refl k) refl

  -- What Python's dictionaries give for nothing: no key stands twice.
  abbrev pub IsDict : Dict V → Type 0
  IsDict [] = Unit
  IsDict ((k, v) ∷ d) = (has k d ≡ false) × IsDict d

  pub put-IsDict : (k : String) (v : V) (d : Dict V) → IsDict d → IsDict (put k v d)
  unfolding put
  put-IsDict k v [] h = (refl, tt)
  put-IsDict k v ((j, w) ∷ d) h = elim (Bool-cases (j == k)) [
    | inl e ↦ rw e h
    | inr e ↦ rw e (has-put k j v d ∙ ground (arith, h.0, ==_comm j k), put-IsDict k v d h.1)
  ]

  pub has_append :
      (k : String) (before after : Dict V) (v : V) → has k (before ++ (k, v) ∷ after) ≡ true
  has_append k [] after v = rw (==_refl k) refl
  has_append k ((j, w) ∷ before) after v = ground (arith, has_append k before after v)

  -- An entry of a dictionary is what its key looks up.
  pub lookup_entry :
      (k : String) (v : V) (before after : Dict V)
      → IsDict (before ++ (k, v) ∷ after)
      → lookup k (before ++ (k, v) ∷ after) ≡ some v
  unfolding lookup
  lookup_entry k v [] after h = rw (==_refl k) refl
  lookup_entry k v ((j, w) ∷ before) after h = elim (Bool-cases (j == k)) [
    | inl e ↦
        let there : has j (before ++ (k, v) ∷ after) ≡ true =
          rw (eq_of_== j k e) (has_append k before after v) in
        absurd (ground (arith, h.0))
    | inr e ↦ rw e (lookup_entry k v before after h.1)
  ]
