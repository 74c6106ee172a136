-- ===== src/Runtime/Watch.antt =====
-- app/runtime/runtime_main.py: the health monitor with the reallocator at its callbacks.
use hmta_service.Prelude.{
  ℕ, String, Option, none, some, ◌||◌, ◌&&◌, List, [], ◌∷◌, ◌++◌, ◌==◌, ◌≡◌, refl, ap, ◌∙◌, arith,
  elem, discard, elem-add, Bool-cases, inl, inr, if◌then◌else◌,
}
use hmta_service.Prelude.Dict.{Dict}
use hmta_service.Runtime.Health.{is_late, check_all}
use hmta_service.Runtime.Reallocator.{
  RuleReallocator, on_entity_offline, on_entity_online, needs_ide_callback,
}

-- What the callbacks change: the reallocator, and the entities for which a new plan was requested.
pub record RuntimeState : Type 0 where
  pub reallocator : RuleReallocator
  pub replans : List String

abbrev after_search : String → RuleReallocator × Option String → List String → RuntimeState
after_search id (r, some replacement) replans = record { reallocator = r; replans = replans }
after_search id (r, none) replans = record {
  reallocator = r;
  replans = if needs_ide_callback r then replans ++ id ∷ [] else replans;
}

-- `_handle_offline`
unfoldable pub handle_offline : String → RuntimeState → RuntimeState
handle_offline id s = after_search id (on_entity_offline id s.reallocator) s.replans

unfoldable pub handle_online : String → RuntimeState → RuntimeState
handle_online id s = record s { reallocator = on_entity_online id s.reallocator }

abbrev pub offline_of : RuntimeState → List String
offline_of s = s.reallocator.offline_entities

after_search-reallocator :
    (id : String) (out : RuleReallocator × Option String) (replans : List String)
    → (after_search id out replans).reallocator ≡ out.0
after_search-reallocator id (r, some replacement) replans = refl
after_search-reallocator id (r, none) replans = refl

elem-handle_offline :
    (id lost : String) (s : RuntimeState)
    → elem id (offline_of (handle_offline lost s)) ≡ ((lost == id) || elem id (offline_of s))
unfolding handle_offline on_entity_offline
elem-handle_offline id lost s =
    ap (λ r. elem id r.offline_entities)
      (after_search-reallocator lost (on_entity_offline lost s.reallocator) s.replans)
    ∙ elem-add id lost s.reallocator.offline_entities

elem-check_all :
    (timeout now : ℕ) (seen : Dict ℕ) (alive : List String) (s : RuntimeState) (id : String)
    → elem id (offline_of (check_all handle_offline handle_online timeout now seen alive s).2) ≡ (
        elem id (check_all handle_offline handle_online timeout now seen alive s).0
        || elem id (offline_of s))
unfolding check_all
elem-check_all timeout now [] alive s id = refl
elem-check_all timeout now ((eid, ts) ∷ rest) alive s id =
    elim (Bool-cases (is_late handle_offline handle_online timeout now ts && elem eid alive)) [
      | inr f ↦ rw f (elem-check_all timeout now rest alive s id)
      | inl f ↦ rw f (
          elem-check_all timeout now rest (discard eid alive) (handle_offline eid s) id
          ∙ ap
              (λ b.
                elem id
                  (check_all handle_offline handle_online timeout now rest (discard eid alive)
                    (handle_offline eid s)).0
                || b)
              (elem-handle_offline id eid s)
          ∙ ground arith)
    ]
