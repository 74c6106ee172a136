-- ===== src/Runtime/Health.antt =====
-- app/runtime/health_monitor.py: which entities have sent a heartbeat lately.
use hmta_service.Prelude.{
  ℕ, ◌-◌, String, Option, none, some, Bool, false, not, ◌&&◌, List, [], ◌∷◌, ◌==◌, ◌≡◌, inl, inr,
  refl, ap, ◌∙◌, subst, arith, ltb, elem, discard, elem-discard, eq_of_==, Bool-cases,
  if◌then◌else◌,
}
use hmta_service.Prelude.Dict.{Dict, lookup, has, put, has-eq-false, IsDict}

-- `Client` is what the two callbacks change.
pub record HealthMonitor : Type 0 where
  pub timeout : ℕ
  pub last_seen : Dict ℕ
  pub alive : List String

module _ {Client : Type 0} (on_offline on_online : String → Client → Client) where
  unfoldable pub heartbeat : ℕ → String → HealthMonitor → Client → HealthMonitor × Client
  heartbeat now entity_id m client =
      let seen = put entity_id now m.last_seen in
      if elem entity_id m.alive
      then (record m { last_seen = seen }, client)
      else (record m { last_seen = seen; alive = entity_id ∷ m.alive }, on_online entity_id client)

  unfoldable pub is_late : ℕ → ℕ → ℕ → Bool
  is_late timeout now ts = ltb timeout (now - ts)

  -- The loop over the entities: those that are newly offline, those that stay alive, the client.
  unfoldable pub check_all :
      ℕ → ℕ → Dict ℕ → List String → Client → List String × List String × Client
  check_all timeout now [] alive client = ([], alive, client)
  check_all timeout now ((eid, ts) ∷ rest) alive client =
      let lost = check_all timeout now rest (discard eid alive) (on_offline eid client) in
      let kept = check_all timeout now rest alive client in
      if is_late timeout now ts && elem eid alive then (eid ∷ lost.0, lost.1, lost.2) else kept

  unfoldable pub check : ℕ → HealthMonitor → Client → List String × HealthMonitor × Client
  unfolding check_all
  check now m client =
      let (newly_offline, alive, client') = check_all m.timeout now m.last_seen m.alive client in
      (newly_offline, record m { alive = alive }, client')

  abbrev overdue_since : ℕ → ℕ → Option ℕ → Bool
  overdue_since timeout now none = false
  overdue_since timeout now (some ts) = is_late timeout now ts

  -- The last heartbeat of the entity is longer ago than the timeout.
  unfoldable pub is_overdue : ℕ → ℕ → Dict ℕ → String → Bool
  is_overdue timeout now seen id = overdue_since timeout now (lookup id seen)

  is_overdue-later :
      (timeout now : ℕ) (seen : Dict ℕ) (eid id : String) (ts : ℕ)
      → is_overdue timeout now ((eid, ts) ∷ seen) id
        ≡ (if eid == id then is_late timeout now ts else is_overdue timeout now seen id)
  unfolding is_overdue lookup
  is_overdue-later timeout now seen eid id ts = elim (Bool-cases (eid == id)) [
    | inl e ↦ rw (e, is_overdue) refl
    | inr e ↦ rw (e, is_overdue) refl
  ]

  is_overdue_unseen :
      (timeout now : ℕ) (seen : Dict ℕ) (id : String)
      → has id seen ≡ false
      → is_overdue timeout now seen id ≡ false
  unfolding is_overdue
  is_overdue_unseen timeout now seen id h = ap (overdue_since timeout now) (has-eq-false id seen h)

  -- Of an entity: whether it is in the lists that the loop returns.
  abbrev IsChecked :
      ℕ → ℕ → Dict ℕ → List String → String → List String × List String × Client → Type 0
  IsChecked timeout now seen alive id out =
      (elem id out.0 ≡ (elem id alive && is_overdue timeout now seen id))
      × (elem id out.1 ≡ (elem id alive && not (is_overdue timeout now seen id)))

  check_all-IsChecked :
      (timeout now : ℕ) (seen : Dict ℕ) (alive : List String) (client : Client) (id : String)
      → IsDict seen
      → IsChecked timeout now seen alive id (check_all timeout now seen alive client)
  unfolding check_all
  check_all-IsChecked timeout now [] alive client id unique =
      let never = is_overdue_unseen timeout now [] id refl in rw never (ground arith, ground arith)
  check_all-IsChecked timeout now ((eid, ts) ∷ rest) alive client id unique =
      let lost =
        check_all-IsChecked timeout now rest (discard eid alive) (on_offline eid client) id
          unique.1 in
      let kept = check_all-IsChecked timeout now rest alive client id unique.1 in
      let gone = elem-discard id eid alive in
      elim (Bool-cases (eid == id)) [
        | inl e ↦
            let same = eq_of_== eid id e in
            let unseen : is_overdue timeout now rest id ≡ false =
              is_overdue_unseen timeout now rest id
                (subst (λ k. has k rest ≡ false) same unique.0) in
            let alike : elem eid alive ≡ elem id alive = ap (λ k. elem k alive) same in
            rw (is_overdue-later timeout now rest eid id ts, e, alike)
              (elim (Bool-cases (is_late timeout now ts && elem id alive)) [
                | inl f ↦ rw f (ground arith, ground arith)
                | inr f ↦ rw f (ground arith, ground arith)
              ])
        | inr e ↦
            rw (is_overdue-later timeout now rest eid id ts, e)
              (elim (Bool-cases (is_late timeout now ts && elem eid alive)) [
                | inl f ↦ rw (f, e) (lost.0 ∙ rw (gone, e) refl, lost.1 ∙ rw (gone, e) refl)
                | inr f ↦ rw f kept
              ])
      ]

  -- A check reports exactly the live entities whose last heartbeat is overdue, and takes exactly
  -- these off the live ones; a second check at the same time reports nobody.
  pub check_lem :
      (now : ℕ) (m : HealthMonitor) (client : Client) (id : String)
      → IsDict m.last_seen
      → (elem id (check now m client).0
          ≡ (elem id m.alive && is_overdue m.timeout now m.last_seen id))
        × (elem id (check now m client).1.alive
            ≡ (elem id m.alive && not (is_overdue m.timeout now m.last_seen id)))
        × (elem id (check now (check now m client).1 (check now m client).2).0 ≡ false)
  unfolding check
  check_lem now m client id unique =
      let first = check_all-IsChecked m.timeout now m.last_seen m.alive client id unique in
      let out = check_all m.timeout now m.last_seen m.alive client in
      let second = check_all-IsChecked m.timeout now m.last_seen out.1 out.2 id unique in
      (first.0, first.1, second.0 ∙ rw first.1 (ground arith))
