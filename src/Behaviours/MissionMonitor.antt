-- ===== src/Behaviours/MissionMonitor.antt =====
-- app/execution/behaviours/mission_monitor.py: when a mission is done.
use hmta_service.Prelude.{
  ℕ, ◌+◌, String, Option, none, some, Bool, true, false, not, List, [], ◌∷◌, ◌≡◌, inl, inr, refl,
  arith, nat_eq, all, elem, Bool-cases, if◌then◌else◌,
}
use hmta_service.Behaviours.{Status, success, failure, Task}

abbrev terminal_statuses : List String
terminal_statuses = "completed" ∷ "failed" ∷ "skipped" ∷ []

-- `all_done`
unfoldable pub all_done : List Task → Bool
all_done queue = all (λ t. elem t.status terminal_statuses) queue

-- `mission_report_count` may be missing, and then counts as 0.
abbrev pub reported : Option ℕ → Bool
reported none = false
reported (some n) = not (nat_eq n 0)

abbrev pub next_count : Option ℕ → ℕ
next_count none = 1
next_count (some n) = n + 1

-- `update`, with the queue and the count on the blackboard, each of which may be missing.
unfoldable pub update : Option (List Task) → Option ℕ → Status × Option ℕ
update none count = (failure, count)
update (some []) count = (success, count)
update (some (t ∷ ts)) count =
    if not (all_done (t ∷ ts))
    then (failure, count)
    else if reported count
    then (failure, count)
    else (success, some (next_count count))

reported-next_count : (count : Option ℕ) → reported (some (next_count count)) ≡ true
reported-next_count none = refl
reported-next_count (some n) = ground arith

-- A mission with tasks is reported only if all of them are terminal; and once one has been
-- reported, no tick reports a mission with tasks again while the count stands.
pub reports_once :
    (t u : Task) (ts us : List Task) (count : Option ℕ)
    → (update (some (t ∷ ts)) count).0 ≡ success
    → (all_done (t ∷ ts) ≡ true)
      × (update (some (u ∷ us)) (update (some (t ∷ ts)) count).1
          ≡ (failure, (update (some (t ∷ ts)) count).1))
unfolding update
reports_once t u ts us count = elim (Bool-cases (all_done (t ∷ ts))) [
  | inr a ↦ rw a (λ h. absurd (cc))
  | inl a ↦ elim (Bool-cases (reported count)) [
    | inl b ↦ rw (a, b) (λ h. absurd (cc))
    | inr b ↦
        rw (a, b)
          (λ h. (
            refl,
            elim (Bool-cases (all_done (u ∷ us))) [
              | inr c ↦ rw c refl
              | inl c ↦ rw (c, reported-next_count count) refl
            ],
          ))
  ]
]
