-- ===== src/Fsm/Reachable.antt =====
-- The managers that the operations of app/execution/fsm/fsm_manager.py can reach, and what holds of
-- all of them.
use hmta_service.Prelude.{
  ℕ, String, Option, some, Bool, true, List, ◌∷◌, ◌≡◌, ◌⊎◌, inl, inr, refl, sym, ap, ◌∙◌, elem,
  ◌==◌, Bool-cases, Option-cases,
}
use hmta_service.Prelude.Dict.{lookup, has}
use hmta_service.Fsm.{Machine, robot_fsm, human_fsm, declared, IsStateMachine}
use hmta_service.Fsm.Manager.{
  FsmManager, on_state_change, clear_instances, sync_to_blackboard, create_machine, create_instance,
  trigger,
}
use hmta_service.Fsm.Tracks.{
  last_to, IsConsistent, empty_manager, known_target, on_state_change-IsEntered,
  enter_initial-IsEntered, set_instance-IsConsistent, sync_all-same,
}

module _ (send : Machine → String → String → Option String) (first : String)
    (others : List String) where
  -- What the service does with its manager; a machine's start makes at least one entry.
  pub data IsReached : FsmManager → Type 0 where
    fresh : IsReached empty_manager
    created :
        (m : FsmManager) (now : ℕ) (id entity_type : String)
        → IsReached m
        → IsReached (create_instance send (first ∷ others) now id entity_type m)
    triggered :
        (m : FsmManager) (now : ℕ) (id event : String)
        → IsReached m
        → IsReached (trigger send (first ∷ others) now id event m).0
    cleared : (m : FsmManager) → IsReached m → IsReached (clear_instances m)
    synced :
        (m : FsmManager) (can_register : String → Bool)
        → IsReached m
        → IsReached (sync_to_blackboard can_register m)

  create_machine-IsConsistent :
      (now : ℕ) (id : String) (machine : Machine) (m : FsmManager)
      → IsConsistent m
      → (machine ≡ robot_fsm) ⊎ (machine ≡ human_fsm)
      → elem machine.initial machine.states ≡ true
      → IsConsistent (create_machine send (first ∷ others) now id (some machine) m)
  create_machine-IsConsistent now id machine m h kind known =
      set_instance-IsConsistent id (record { machine = machine; state = machine.initial }) m _ h
        (enter_initial-IsEntered now id machine.initial first others m) kind known

  create_instance-IsConsistent :
      (now : ℕ) (id entity_type : String) (m : FsmManager)
      → IsConsistent m
      → IsConsistent (create_instance send (first ∷ others) now id entity_type m)
  unfolding create_instance
  create_instance-IsConsistent now id entity_type m h = elim (Bool-cases (has id m.instances)) [
    | inl e ↦ rw e h
    | inr e ↦ elim (Bool-cases (entity_type == "robot")) [
      | inl r ↦ rw (e, r) (create_machine-IsConsistent now id robot_fsm m h (inl refl) refl)
      | inr r ↦ elim (Bool-cases (entity_type == "human")) [
        | inl q ↦ rw (e, r, q) (create_machine-IsConsistent now id human_fsm m h (inr refl) refl)
        | inr q ↦ rw (e, r, q) h
      ]
    ]
  ]

  trigger-IsConsistent :
      (now : ℕ) (id event : String) (m : FsmManager)
      → IsStateMachine send
      → IsConsistent m
      → IsConsistent (trigger send (first ∷ others) now id event m).0
  unfolding trigger
  trigger-IsConsistent now id event m library h = elim (Option-cases (lookup id m.instances)) [
    | inl e ↦ rw (e, trigger) h
    | inr (fsm, e) ↦ elim (Option-cases (declared fsm.machine fsm.state event)) [
      | inl d ↦ rw (e, trigger, library.refuses fsm.machine fsm.state event d) h
      | inr (target, d) ↦
          let tracked = h id fsm e in
          rw (e, trigger, library.takes fsm.machine fsm.state event target d)
            (set_instance-IsConsistent id (record fsm { state = target }) m
              (on_state_change now id target event m) h
              (on_state_change-IsEntered now id target event m) tracked.kind
              (known_target fsm.machine fsm.state event target tracked.kind d))
    ]
  ]

  sync_to_blackboard-IsConsistent :
      (can_register : String → Bool) (m : FsmManager)
      → IsConsistent m
      → IsConsistent (sync_to_blackboard can_register m)
  unfolding sync_to_blackboard
  sync_to_blackboard-IsConsistent can_register m h id fsm there =
      let (instances, history) = sync_all-same can_register m.instances m in
      let before = h id fsm (ap (lookup id) (sym instances) ∙ there) in
      record {
        kind = before.kind;
        known = before.known;
        named = ap (last_to id) history ∙ before.named;
      }

  -- In every manager that creations, events, clearings and syncs can lead to, each instance is of
  -- one of the two machines and in a state of its machine, and the last history entry of its entity
  -- names that state.
  pub reached-IsConsistent : (m : FsmManager) → IsStateMachine send → IsReached m → IsConsistent m
  unfolding lookup clear_instances
  reached-IsConsistent _ library fresh = λ id fsm there. absurd (cc)
  reached-IsConsistent _ library (created m now id entity_type reached) =
      create_instance-IsConsistent now id entity_type m (reached-IsConsistent m library reached)
  reached-IsConsistent _ library (triggered m now id event reached) =
      trigger-IsConsistent now id event m library (reached-IsConsistent m library reached)
  reached-IsConsistent _ library (cleared m reached) = λ id fsm there. absurd (cc)
  reached-IsConsistent _ library (synced m can_register reached) =
      sync_to_blackboard-IsConsistent can_register m (reached-IsConsistent m library reached)
