-- ===== src/Fsm/Laws.antt =====
-- What an event does to an instance of app/execution/fsm/fsm_manager.py, and which events the tables
-- of app/execution/fsm/robot_fsm.py and human_fsm.py allow.
use hmta_service.Prelude.{
  String, some, true, List, [], ◌∷◌, ◌≡◌, ◌⊎◌, inl, inr, refl, sym, subst, elem, by_text,
}
use hmta_service.Fsm.{Machine, robot_fsm, human_fsm, find_target, run}

abbrev pub IsRecoverable : Machine → String → Type 0
IsRecoverable m state = (events : List String) × (run m events state ≡ some m.initial)

robot_recovers :
    (state : String) → elem state robot_fsm.states ≡ true → IsRecoverable robot_fsm state
unfolding find_target run
robot_recovers state =
    let P : String → Type 0 = λ s. elem s robot_fsm.states ≡ true → IsRecoverable robot_fsm s in
    by_text P state "idle" (λ h. ([], refl))
      λ e1 f1.
        by_text P state "moving" (λ h. ("waypoint_reached" ∷ [], refl))
          λ e2 f2.
            by_text P state "scanning" (λ h. ("scan_complete" ∷ [], refl))
              λ e3 f3.
                by_text P state "target_marked"
                  (λ h. ("disarm_command" ∷ "disarm_complete" ∷ [], refl))
                  λ e4 f4.
                    by_text P state "disarming" (λ h. ("disarm_complete" ∷ [], refl))
                      λ e5 f5.
                        by_text P state "stuck" (λ h. ("stuck_resolved" ∷ [], refl))
                          λ e6 f6.
                            by_text P state "sensor_fault" (λ h. ("sensor_repaired" ∷ [], refl))
                              λ e7 f7.
                                by_text P state "battery_low"
                                  (λ h. ("battery_recovered" ∷ [], refl))
                                  λ e8 f8.
                                    by_text P state "offline" (λ h. ("comm_restored" ∷ [], refl))
                                      λ e9 f9.
                                        rw (f1, f2, f3, f4, f5, f6, f7, f8, f9) (λ h. absurd (cc))

human_recovers :
    (state : String) → elem state human_fsm.states ≡ true → IsRecoverable human_fsm state
unfolding find_target run
human_recovers state =
    let P : String → Type 0 = λ s. elem s human_fsm.states ≡ true → IsRecoverable human_fsm s in
    by_text P state "idle" (λ h. ([], refl))
      λ e1 f1.
        by_text P state "briefed" (λ h. ("no_response" ∷ "recovered" ∷ [], refl))
          λ e2 f2.
            by_text P state "deciding" (λ h. ("approval_given" ∷ [], refl))
              λ e3 f3.
                by_text P state "executing" (λ h. ("task_reported" ∷ "report_submitted" ∷ [], refl))
                  λ e4 f4.
                    by_text P state "reporting" (λ h. ("report_submitted" ∷ [], refl))
                      λ e5 f5.
                        by_text P state "overloaded" (λ h. ("recovered" ∷ [], refl))
                          λ e6 f6.
                            by_text P state "fatigued" (λ h. ("recovered" ∷ [], refl))
                              λ e7 f7.
                                by_text P state "unresponsive" (λ h. ("recovered" ∷ [], refl))
                                  λ e8 f8. rw (f1, f2, f3, f4, f5, f6, f7, f8) (λ h. absurd (cc))

-- No state is a dead end: from each state of either machine some row of declared events leads back
-- to the initial state.
pub machines_recover :
    (m : Machine) (state : String)
    → (m ≡ robot_fsm) ⊎ (m ≡ human_fsm)
    → elem state m.states ≡ true
    → IsRecoverable m state
machines_recover m state (inl q) =
    subst (λ m. elem state m.states ≡ true → IsRecoverable m state) (sym q) (robot_recovers state)
machines_recover m state (inr q) =
    subst (λ m. elem state m.states ≡ true → IsRecoverable m state) (sym q) (human_recovers state)
