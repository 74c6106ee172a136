-- ===== src/Runtime/Reallocator.antt =====
-- app/runtime/rule_reallocator.py: a replacement for a lost entity, by tables.
use hmta_service.Prelude.{
  String, Option, none, some, Bool, true, false, List, [], ◌∷◌, ◌++◌, ◌≡◌, ◌⊎◌, inl, inr, refl, ap,
  All, all, any, elem, add, discard, Bool-cases, if◌then◌else◌,
}
use hmta_service.Prelude.Dict.{Dict, lookup}
use hmta_service.Command.Status.{or_default}

-- The tables: the candidates of each kind of task, and the order of replacements of each entity.
pub record RuleReallocator : Type 0 where
  pub ranked_candidates : Dict (List String)
  pub replacement_order : Dict (List String)
  pub offline_entities : List String

abbrev pub first_online : List String → List String → Option String
first_online offline [] = none
first_online offline (c ∷ cs) = if elem c offline then first_online offline cs else some c

unfoldable pub on_entity_offline : String → RuleReallocator → RuleReallocator × Option String
on_entity_offline entity_id r =
    let offline = add entity_id r.offline_entities in
    (
      record r { offline_entities = offline },
      first_online offline (or_default (lookup entity_id r.replacement_order) []),
    )

unfoldable pub on_entity_online : String → RuleReallocator → RuleReallocator
on_entity_online entity_id r = record r { offline_entities = discard entity_id r.offline_entities }

unfoldable pub on_new_entity : String → RuleReallocator → RuleReallocator
on_new_entity entity_id r = record r { offline_entities = discard entity_id r.offline_entities }

unfoldable pub needs_ide_callback : RuleReallocator → Bool
needs_ide_callback r =
    any (λ entry. all (λ c. elem c r.offline_entities) entry.1) r.ranked_candidates

-- The answer of a search in a row of candidates: the first that is not offline, or none if all are.
pub record IsFirst (offline candidates : List String) (c : String) : Type 0 where
  pub before : List String
  pub after : List String
  pub in_order : candidates ≡ before ++ c ∷ after
  pub passed : All (λ x. elem x offline ≡ true) before
  pub online : elem c offline ≡ false

first_online-cases :
    (offline cs : List String)
    → ((c : String) × (first_online offline cs ≡ some c) × IsFirst offline cs c)
      ⊎ ((first_online offline cs ≡ none) × All (λ x. elem x offline ≡ true) cs)
first_online-cases offline [] = inr (refl, tt)
first_online-cases offline (c ∷ cs) = elim (Bool-cases (elem c offline)) [
  | inr e ↦
      inl
        (c, rw e refl, record { before = []; after = cs; in_order = refl; passed = tt; online = e })
  | inl e ↦ elim (first_online-cases offline cs) [
    | inl (d, q, h) ↦ inl (
      d,
      rw e q,
      record {
        before = c ∷ h.before;
        after = h.after;
        in_order = ap (λ xs. c ∷ xs) h.in_order;
        passed = (e, h.passed);
        online = h.online;
      },
    )
    | inr (q, h) ↦ inr (rw e q, (e, h))
  ]
]
