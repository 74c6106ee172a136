-- ===== src/Behaviours/GoalGate/Laws.antt =====
-- When the gate of app/execution/behaviours/goal_confirmation_gate.py opens, and what a rejection
-- leaves behind.
use hmta_service.Prelude.{
  ℕ, ◌+◌, ◌-◌, ◌<◌, String, Option, none, some, Bool, true, false, ◌≡◌, ◌≢◌, ◌⊎◌, inl, inr, refl,
  sym, ap, ◌∙◌, arith, ltb, ==_of_ne,
}
use hmta_service.Command.{CommandState, dispatched, completed, failed, Translators}
use hmta_service.Command.Status.{get_status}
use hmta_service.Behaviours.{
  Input, Status, success, running, flag, count, Condition, Blackboard, bb_get, bb_set,
  bb_get-bb_set, bb_get-bb_set_self,
}
use hmta_service.Behaviours.GoalGate.{
  Phase, monitoring, confirming, Gate, World, confirmed_key, rejected_key, close_review_session,
  pending, judge, reset_key,
}
use hmta_service.Behaviours.GoalGate.Ticks.{
  handle_rejection, handle_confirming, handle_monitoring, in_phase, on_status, reject,
  with_directive, expire, update,
}

module _ {Params Payload : Type 0} where
  -- The operator has answered the gate's directive.
  pub record IsAnswered (state : CommandState) (g : Gate) (w : World Params Payload) : Type 0 where
    pub in_confirming : g.phase ≡ confirming
    pub wired : g.has_resolver ≡ true
    pub id : String
    pub asked : g.directive_id ≡ some id
    pub answered : (get_status w.resolver id).state ≡ state

  -- What a rejection leaves: the gate monitors again, the detection is taken back, the rejection is
  -- counted, and the resolver is as before.
  pub record IsRejection (cond : Condition) (g : Gate) (w : World Params Payload)
      (out : Status × Gate × World Params Payload) : Type 0 where
    pub goes_on : out.0 ≡ running
    pub back : out.1.phase ≡ monitoring
    pub closed : out.1.directive_id ≡ none
    pub counted : out.1.rejected_count ≡ g.rejected_count + 1
    pub taken_back : bb_get out.2.bb cond.key ≡ some (flag false)
    pub shown : bb_get out.2.bb rejected_key ≡ some (count (g.rejected_count + 1))
    pub resolver_same : out.2.resolver ≡ w.resolver

module _ {Params Payload : Type 0} (tx : Translators Params Payload)
    (params_of : Condition → Params) where
  update-pending :
      (i : Input) (g : Gate) (w : World Params Payload) (cond : Condition)
      → pending w.bb ≡ some cond
      → update tx params_of i g w ≡ in_phase tx params_of g.phase i cond g w
  unfolding update
  update-pending i g w cond open_goal = rw (open_goal, update) refl

  handle_monitoring_running :
      (i : Input) (cond : Condition) (g : Gate) (w : World Params Payload)
      → (handle_monitoring tx params_of i cond g w).0 ≡ running
  unfolding handle_monitoring
  handle_monitoring_running i cond g w = ground arith

  judge-bb :
      (g : Gate) (key : String) (confirmed : Bool) (w : World Params Payload)
      → (judge g key confirmed w).bb ≡ w.bb
  judge-bb g key confirmed w = ground arith

  expire_running :
      (i : Input) (cond : Condition) (g : Gate) (w : World Params Payload)
      → (expire i cond g w).0 ≡ running
  expire_running i cond g w = ground arith

  on_status_success :
      (state : CommandState) (i : Input) (cond : Condition) (g : Gate) (w : World Params Payload)
      → (on_status state i cond g w).0 ≡ success
      → (state ≡ completed)
        × (bb_get (on_status state i cond g w).2.bb confirmed_key ≡ some (flag true))
  on_status_success completed i cond g w h =
      let (g', bb) = close_review_session "success" i.now g w.bb in
      (
        refl,
        ap (λ b. bb_get b confirmed_key)
              (judge-bb g' cond.key true (record w { bb = bb_set confirmed_key (flag true) bb }))
            ∙ bb_get-bb_set_self confirmed_key (flag true) bb,
      )
  on_status_success failed i cond g w h = absurd (cc)
  on_status_success _ i cond g w h = absurd (cc (sym (expire_running i cond g w) ∙ h))

  with_directive_success :
      (asked : Option String) (wired : Bool) (i : Input) (cond : Condition) (g : Gate)
      (w : World Params Payload)
      → g.phase ≡ confirming
      → g.directive_id ≡ asked
      → g.has_resolver ≡ wired
      → (with_directive asked wired i cond g w).0 ≡ success
      → IsAnswered completed g w
        × (bb_get (with_directive asked wired i cond g w).2.bb confirmed_key ≡ some (flag true))
  with_directive_success (some id) true i cond g w phase p q h =
      let (done, written) = on_status_success (get_status w.resolver id).state i cond g w h in
      (record { in_confirming = phase; wired = q; id = id; asked = p; answered = done }, written)
  with_directive_success _ _ i cond g w phase p q h = absurd (cc)

  in_phase_success :
      (p : Phase) (i : Input) (cond : Condition) (g : Gate) (w : World Params Payload)
      → g.phase ≡ p
      → (in_phase tx params_of p i cond g w).0 ≡ success
      → IsAnswered completed g w
        × (bb_get (in_phase tx params_of p i cond g w).2.bb confirmed_key ≡ some (flag true))
  in_phase_success monitoring i cond g w phase h =
      absurd (cc (sym (handle_monitoring_running i cond g w) ∙ h))
  in_phase_success confirming i cond g w phase h =
      unfold handle_confirming in
      with_directive_success g.directive_id g.has_resolver i cond g w phase refl refl h

  -- A gate that has a condition to wait for succeeds only when the operator's directive is
  -- completed, and then records the confirmation on the blackboard.
  pub update_success :
      (i : Input) (g g' : Gate) (w w' : World Params Payload) (cond : Condition)
      → pending w.bb ≡ some cond
      → update tx params_of i g w ≡ (success, g', w')
      → IsAnswered completed g w × (bb_get w'.bb confirmed_key ≡ some (flag true))
  update_success i g g' w w' cond open_goal h =
      let same = sym (update-pending i g w cond open_goal) ∙ h in
      let (answered, written) = in_phase_success g.phase i cond g w refl (ap (λ out. out.0) same) in
      (answered, sym (ap (λ out. bb_get out.2.bb confirmed_key) same) ∙ written)

  close_review_session_frame :
      (outcome : String) (now : ℕ) (g : Gate) (bb : Blackboard)
      → ((close_review_session outcome now g bb).0.rejected_count ≡ g.rejected_count)
        × ((close_review_session outcome now g bb).1.values ≡ bb.values)
  unfolding close_review_session
  close_review_session_frame outcome now g bb = ground arith

  judge-resolver :
      (g : Gate) (key : String) (confirmed : Bool) (w : World Params Payload)
      → (judge g key confirmed w).resolver ≡ w.resolver
  judge-resolver g key confirmed w = ground arith

  reject-IsRejection :
      (outcome : String) (i : Input) (cond : Condition) (g : Gate) (w : World Params Payload)
      → cond.key ≢ ""
      → cond.key ≢ rejected_key
      → IsRejection cond g w (reject outcome i cond g w)
  unfolding handle_rejection
  reject-IsRejection outcome i cond g w named other =
      let (g', bb) = close_review_session outcome i.now g w.bb in
      let (same_count, same_values) = close_review_session_frame outcome i.now g w.bb in
      let written = bb_set rejected_key (count (g'.rejected_count + 1)) (reset_key cond.key bb) in
      let world : World Params Payload = record w { bb = written } in
      let same_bb = judge-bb g' cond.key false world in
      record {
        goes_on = refl;
        back = refl;
        closed = refl;
        counted = ap (λ n. n + 1) same_count;
        taken_back =
            ap (λ b. bb_get b cond.key) same_bb
            ∙ bb_get-bb_set rejected_key cond.key (count (g'.rejected_count + 1))
                (reset_key cond.key bb)
            ∙ rw (==_of_ne rejected_key cond.key (λ q. other (sym q)), ==_of_ne cond.key "" named)
                (bb_get-bb_set_self cond.key (flag false) bb);
        shown =
            ap (λ b. bb_get b rejected_key) same_bb
            ∙ bb_get-bb_set_self rejected_key (count (g'.rejected_count + 1))
                (reset_key cond.key bb)
            ∙ ap (λ n. some (count (n + 1))) same_count;
        resolver_same = judge-resolver g' cond.key false world;
      }

  update_answered :
      (state : CommandState) (i : Input) (g : Gate) (w : World Params Payload) (cond : Condition)
      → pending w.bb ≡ some cond
      → IsAnswered state g w
      → update tx params_of i g w ≡ on_status state i cond g w
  update_answered state i g w cond open_goal a =
      update-pending i g w cond open_goal
      ∙ unfold handle_confirming in
        rw (a.in_confirming, handle_confirming, a.asked, a.wired, a.answered) refl

  -- A gate whose directive has failed, and one whose directive is in flight for longer than the
  -- timeout, goes back to monitoring: the detection is taken back on the blackboard, the rejection
  -- is counted there, and no command changes.
  pub update-IsRejection :
      (i : Input) (g : Gate) (w : World Params Payload) (cond : Condition)
      → pending w.bb ≡ some cond
      → cond.key ≢ ""
      → cond.key ≢ rejected_key
      → IsAnswered failed g w
        ⊎ (IsAnswered dispatched g w × (g.timeout_sec < i.now - g.confirm_start))
      → IsRejection cond g w (update tx params_of i g w)
  update-IsRejection i g w cond open_goal named other (inl a) =
      rw (update_answered failed i g w cond open_goal a)
        (reject-IsRejection "failure" i cond g w named other)
  update-IsRejection i g w cond open_goal named other (inr (a, late)) =
      let late' : ltb g.timeout_sec (i.now - g.confirm_start) ≡ true = ground arith in
      rw (update_answered dispatched i g w cond open_goal a, late')
        (reject-IsRejection "timeout" i cond g w named other)
