-- ===== src/Behaviours/HumanGate/Laws.antt =====
-- What the gate of app/execution/behaviours/human_gate.py promises: the answer that lets it succeed,
-- and that it gives up.
use hmta_service.Prelude.{
  ℕ, ◌+◌, ◌-◌, ◌*◌, String, Option, none, some, true, not, ◌&&◌, List, [], ◌∷◌, ◌≡◌, ◌≢◌, inl, inr,
  refl, sym, ap, ◌∙◌, arith, leb, ltb, nat_eq, any, elem, Bool-cases, ==_refl, Option-cases,
}
use hmta_service.Prelude.Dict.{lookup, lookup-put_self, lookup-remove}
use hmta_service.Prelude.Text.{concat}
use hmta_service.Command.{Translators}
use hmta_service.Behaviours.{success, failure, Input, Value, Waypoint, ParamResponse, is_truthy}
use hmta_service.Behaviours.HumanGate.{
  HumanGate, Outside, reminder_intervals, waypoint_intents, send_reminder, response_waypoints,
}
use hmta_service.Behaviours.HumanGate.Ticks.{
  remind, send_reminders, take_waypoints, read_response, poll_waypoint_response, wait_for,
  with_directive, update,
}

module _ {Params Payload : Type 0} where
  -- Reminders change nothing but the reminders.
  abbrev IsReminded :
      HumanGate Params → Outside Params Payload → HumanGate Params × Outside Params Payload → Type 0
  IsReminded g w out =
      (sent : List ℕ) × (messages : List (String × ℕ)) × (out
        ≡ (record g { reminders_sent = sent }, record w { reminders = messages }))

  send_reminder-same :
      (remaining : ℕ) (g : HumanGate Params) (w : Outside Params Payload)
      → send_reminder remaining g w
        ≡ record w { reminders = (send_reminder remaining g w).reminders }
  send_reminder-same remaining g w = elim (Bool-cases g.has_zenoh) [
    | inl e ↦ rw e refl
    | inr e ↦ rw e refl
  ]

  remind-IsReminded :
      (elapsed : ℕ) (rest : List (ℕ × ℕ)) (g : HumanGate Params) (w : Outside Params Payload)
      → IsReminded g w (remind elapsed rest g w)
  unfolding remind
  remind-IsReminded elapsed [] g w = (g.reminders_sent, w.reminders, refl)
  remind-IsReminded elapsed ((idx, ratio) ∷ rest) g w =
      elim (Bool-cases (
        not (any (λ n. nat_eq n idx) g.reminders_sent)
        && leb (g.timeout_sec * ratio) (elapsed * 100))) [
          | inl e ↦
              let (sent, messages, q) =
                remind-IsReminded elapsed rest
                  (record g { reminders_sent = idx ∷ g.reminders_sent })
                  (record w {
                    reminders = (send_reminder (g.timeout_sec - elapsed) g w).reminders;
                  }) in
              (sent, messages, rw (e, send_reminder-same (g.timeout_sec - elapsed) g w) q)
          | inr e ↦
              let (sent, messages, q) = remind-IsReminded elapsed rest g w in
              (sent, messages, rw e q)
        ]

  send_reminders-IsReminded :
      (elapsed : ℕ) (g : HumanGate Params) (w : Outside Params Payload)
      → IsReminded g w (send_reminders elapsed g w)
  unfolding send_reminders
  send_reminders-IsReminded elapsed g w = remind-IsReminded elapsed reminder_intervals g w

  -- The operator's waypoints on their way: a response with some stood at the gate's suffix; now
  -- they stand at the entity, and the response is gone.
  pub record IsHandover (g : HumanGate Params) (w w' : Outside Params Payload) : Type 0 where
    pub response : ParamResponse
    pub there : lookup g.suffix w.bb.param_responses ≡ some response
    pub given : response_waypoints response ≢ []
    pub handed : lookup g.entity_id w'.bb.pending_waypoints ≡ some (response_waypoints response)
    pub taken : lookup g.suffix w'.bb.param_responses ≡ none

  module _ (tx : Translators Params Payload) (add_reason : Value → Params → Params) where
    update-with_directive :
        (i : Input) (g : HumanGate Params) (w : Outside Params Payload)
        → with_directive tx add_reason g.directive_id i g w ≡ update tx add_reason i g w
    unfolding update
    update-with_directive i g w = refl

    pub update_idle :
        (i : Input) (g : HumanGate Params) (w : Outside Params Payload)
        → g.directive_id ≡ none
        → update tx add_reason i g w ≡ (failure, g, w)
    update_idle i g w e =
        sym (update-with_directive i g w) ∙ ap (λ d. with_directive tx add_reason d i g w) e

    -- A tick with a directive, after its reminders.
    pub update_waits :
        (i : Input) (g : HumanGate Params) (w : Outside Params Payload) (id : String)
        → g.directive_id ≡ some id
        → (sent : List ℕ) × (messages : List (String × ℕ)) × (update tx add_reason i g w
            ≡ wait_for tx add_reason id i
                (record g { reminders_sent = sent })
                (record w { reminders = messages }))
    unfolding update
    update_waits i g w id asked =
        let (sent, messages, q) = send_reminders-IsReminded (i.now - g.start_time) g w in
        (
          sent,
          messages,
          ap (λ d. with_directive tx add_reason d i g w) asked
              ∙ ap (λ out. wait_for tx add_reason id i out.0 out.1) q,
        )

    take_waypoints-IsHandover :
        (ws : List Waypoint) (response : ParamResponse) (g : HumanGate Params)
        (w : Outside Params Payload)
        → response_waypoints response ≡ ws
        → lookup g.suffix w.bb.param_responses ≡ some response
        → (take_waypoints ws response g w).0 ≡ success
        → IsHandover g w (take_waypoints ws response g w).2
    take_waypoints-IsHandover [] response g w q there h = absurd (ground arith)
    take_waypoints-IsHandover (x ∷ xs) response g w q there h = record {
      response = response;
      there = there;
      given = λ empty. cc;
      handed = lookup-put_self g.entity_id (x ∷ xs) w.bb.pending_waypoints ∙ ap some (sym q);
      taken = lookup-remove g.suffix g.suffix w.bb.param_responses ∙ rw (==_refl g.suffix) refl;
    }

    read_response-IsHandover :
        (found : Option ParamResponse) (g : HumanGate Params) (w : Outside Params Payload)
        → lookup g.suffix w.bb.param_responses ≡ found
        → (read_response found g w).0 ≡ success
        → IsHandover g w (read_response found g w).2
    read_response-IsHandover none g w q h = absurd (cc)
    read_response-IsHandover (some response) g w q h =
        take_waypoints-IsHandover (response_waypoints response) response g w refl q h

    poll_waypoint_response-IsHandover :
        (i : Input) (g : HumanGate Params) (w : Outside Params Payload)
        → (poll_waypoint_response tx add_reason i g w).0 ≡ success
        → IsHandover g w (poll_waypoint_response tx add_reason i g w).2
    unfolding poll_waypoint_response
    poll_waypoint_response-IsHandover i g w =
        elim (Bool-cases
          (is_truthy (lookup (concat "follow_by_path_failed/" g.entity_id) w.bb.plain))) [
            | inl e ↦ elim (Bool-cases (leb (g.retry_count + 1) g.max_retries)) [
              | inl f ↦ rw (e, f) (λ h. absurd (cc))
              | inr f ↦ rw (e, f) (λ h. absurd (cc))
            ]
            | inr e ↦
                rw e (read_response-IsHandover (lookup g.suffix w.bb.param_responses) g w refl)
          ]

    wait_for-IsHandover :
        (id : String) (i : Input) (g : HumanGate Params) (w : Outside Params Payload)
        → elem g.intent waypoint_intents ≡ true
        → (wait_for tx add_reason id i g w).0 ≡ success
        → IsHandover g w (wait_for tx add_reason id i g w).2
    wait_for-IsHandover id i g w planned =
        elim (Bool-cases (ltb g.timeout_sec (i.now - g.start_time))) [
          | inl e ↦ elim (Bool-cases (ltb g.retry_count g.max_retries)) [
            | inl f ↦ rw (e, f) (λ h. absurd (cc))
            | inr f ↦ rw (e, f) (λ h. absurd (cc))
          ]
          | inr e ↦ rw (e, planned) (poll_waypoint_response-IsHandover i g w)
        ]

    -- A gate that asks for waypoints succeeds only when a response with waypoints is on the
    -- blackboard at its suffix, whatever state its directive has; it hands them to the entity's
    -- entry and takes the response off.
    pub update-IsHandover :
        (i : Input) (g g' : HumanGate Params) (w w' : Outside Params Payload)
        → elem g.intent waypoint_intents ≡ true
        → update tx add_reason i g w ≡ (success, g', w')
        → IsHandover g w w'
    update-IsHandover i g g' w w' planned h = elim (Option-cases g.directive_id) [
      | inl e ↦ absurd (cc (ap (λ out. out.0) (sym (update_idle i g w e) ∙ h)))
      | inr (id, e) ↦
          let (sent, messages, q) = update_waits i g w id e in
          let done =
            wait_for-IsHandover id i (record g { reminders_sent = sent })
              (record w { reminders = messages }) planned (ap (λ out. out.0) (sym q ∙ h)) in
          let end = ap (λ out. out.2) (sym q ∙ h) in
          record {
            response = done.response;
            there = done.there;
            given = done.given;
            handed =
                ap (λ out. lookup g.entity_id out.bb.pending_waypoints) (sym end) ∙ done.handed;
            taken = ap (λ out. lookup g.suffix out.bb.param_responses) (sym end) ∙ done.taken;
          }
    ]
