-- ===== src/Command/Completion/Laws.antt =====
-- What the completions of app/execution/command/command_resolver.py do to the statuses.
use hmta_service.Prelude.{
  String, Option, none, some, Bool, true, false, [], ◌∷◌, ◌++◌, ◌==◌, ◌≡◌, inl, inr, refl, sym, ap,
  ◌∙◌, arith, if◌then◌else◌, All, Bool-cases, Option-cases, ==_refl,
}
use hmta_service.Prelude.Dict.{Dict, lookup, lookup-put, IsDict, lookup_entry}
use hmta_service.Prelude.Options.{some-inj}
use hmta_service.Command.{CommandState, completed, CommandStatus, CommandResolver}
use hmta_service.Command.Status.{set_state, is_open, update_status}
use hmta_service.Command.Completion.{
  ActionResult, newest, is_error, end_state, finish, complete_newest, complete_by_entity,
  complete_by_action_result, action_error,
}

module _ {Params : Type 0} where
  abbrev IsMiss : (CommandStatus Params → Bool) → Dict (CommandStatus Params) → Type 0
  IsMiss test = All (λ entry. test entry.1 ≡ false)

  newest-IsMiss :
      (test : CommandStatus Params → Bool) (commands : Dict (CommandStatus Params))
      → newest test commands ≡ none
      → IsMiss test commands
  unfolding newest
  newest-IsMiss test [] h = tt
  newest-IsMiss test ((k, status) ∷ rest) h = elim (Option-cases (newest test rest)) [
    | inl later ↦ (ground arith, newest-IsMiss test rest later)
    | inr (hit, later) ↦ absurd (ground arith)
  ]

  -- A hit, with what stands before and after it: nothing after it passes the test.
  pub record IsNewest (test : CommandStatus Params → Bool) (commands : Dict (CommandStatus Params))
      (k : String) (status : CommandStatus Params) : Type 0 where
    pub before : Dict (CommandStatus Params)
    pub after : Dict (CommandStatus Params)
    pub split : commands ≡ before ++ (k, status) ∷ after
    pub passes : test status ≡ true
    pub last : IsMiss test after

  newest_hit :
      (test : CommandStatus Params → Bool) (commands : Dict (CommandStatus Params)) (k : String)
      (status : CommandStatus Params)
      → newest test commands ≡ some (k, status)
      → IsNewest test commands k status
  unfolding newest
  newest_hit test [] k status h = absurd (cc)
  newest_hit test ((j, old) ∷ rest) k status h = elim (Option-cases (newest test rest)) [
    | inr ((i, hit), later) ↦
        let q : (i, hit) ≡ (k, status) = some-inj (sym (rw later refl) ∙ h) in
        let n = newest_hit test rest k status (later ∙ ap some q) in
        record {
          before = (j, old) ∷ n.before;
          after = n.after;
          split = ap (λ d. (j, old) ∷ d) n.split;
          passes = n.passes;
          last = n.last;
        }
    | inl later ↦ elim (Bool-cases (test old)) [
      | inr e ↦ absurd (ground arith)
      | inl e ↦
          let q : (j, old) ≡ (k, status) = some-inj (sym (rw (later, e) refl) ∙ h) in
          record {
            before = [];
            after = rest;
            split = ap (λ entry. entry ∷ rest) q;
            passes = rw (← ap (λ entry. entry.1) q) e;
            last = newest-IsMiss test rest later;
          }
    ]
  ]

module _ {Params Payload : Type 0} where
  -- What a completion does: nothing, if no command passes the test; else the newest one that does
  -- gets the state and the error, and every other status is as before.
  pub data IsCompletion (test : CommandStatus Params → Bool) (state : CommandState)
      (error : Option String) (r : CommandResolver Params Payload)
      (out : CommandResolver Params Payload × Bool) : Type 0 where
    nothing : out ≡ (r, false) → IsMiss test r.commands → IsCompletion test state error r out
    updated :
        (k : String) (status : CommandStatus Params)
        → IsNewest test r.commands k status
        → out.1 ≡ true
        → ((j : String)
            → lookup j out.0.commands
              ≡ (if k == j then some (set_state state error status) else lookup j r.commands))
        → IsCompletion test state error r out

  finish-IsCompletion :
      (test : CommandStatus Params → Bool) (state : CommandState) (error : Option String)
      (r : CommandResolver Params Payload) (o : Option (String × CommandStatus Params))
      → IsDict r.commands
      → newest test r.commands ≡ o
      → IsCompletion test state error r (finish o state error r)
  unfolding update_status
  finish-IsCompletion test state error r none unique h =
      nothing refl (newest-IsMiss test r.commands h)
  finish-IsCompletion test state error r (some (k, status)) unique h =
      let n = newest_hit test r.commands k status h in
      let there : lookup k r.commands ≡ some status =
        rw n.split (lookup_entry k status n.before n.after (rw n.split at unique)) in
      updated k status n refl (λ j. lookup-put k j _ r.commands ∙ rw there refl)

  complete_newest-IsCompletion :
      (test : CommandStatus Params → Bool) (state : CommandState) (error : Option String)
      (r : CommandResolver Params Payload)
      → IsDict r.commands
      → IsCompletion test state error r (complete_newest test state error r)
  unfolding complete_newest
  complete_newest-IsCompletion test state error r unique =
      finish-IsCompletion test state error r (newest test r.commands) unique refl

  -- The entity's newest open command is completed, or failed if there is an error text, and no
  -- other status changes; without an open command nothing changes and the answer is false.
  pub complete_by_entity_lem :
      (entity_id : String) (error : Option String) (r : CommandResolver Params Payload)
      → IsDict r.commands
      → IsCompletion
          (is_open entity_id)
          (end_state (is_error error))
          error
          r
          (complete_by_entity entity_id error r)
  unfolding complete_by_entity
  complete_by_entity_lem entity_id error r =
      complete_newest-IsCompletion (is_open entity_id) (end_state (is_error error)) error r

  newest-lookup :
      (test : CommandStatus Params → Bool) (r : CommandResolver Params Payload) (k : String)
      (status : CommandStatus Params)
      → IsDict r.commands
      → newest test r.commands ≡ some (k, status)
      → lookup k r.commands ≡ some status
  newest-lookup test r k status unique h =
      let n = newest_hit test r.commands k status h in
      rw n.split (lookup_entry k status n.before n.after (rw n.split at unique))

  drops_failure :
      (entity_id : String) (action : ActionResult) (r : CommandResolver Params Payload) (k : String)
      (status : CommandStatus Params)
      → action.node_id ≡ ""
      → action.result ≡ "FAILURE"
      → action.message ≡ none
      → newest (is_open entity_id) r.commands ≡ some (k, status)
      → complete_by_action_result entity_id action r ≡ (update_status k completed none r, true)
  unfolding complete_by_action_result
  drops_failure entity_id action r k status node result message h =
      let by_entity : complete_by_entity entity_id (action_error action) r
          ≡ (update_status k completed none r, true) =
        unfold complete_by_entity complete_newest in rw (result, message, h) refl in
      rw node by_entity

  -- A failure that comes without a message and names no node is recorded as a success: the newest
  -- open command of the entity becomes `completed`.
  pub complete_by_action_result_drops_failure :
      (entity_id : String) (action : ActionResult) (r : CommandResolver Params Payload) (k : String)
      (status : CommandStatus Params)
      → IsDict r.commands
      → action.node_id ≡ ""
      → action.result ≡ "FAILURE"
      → action.message ≡ none
      → newest (is_open entity_id) r.commands ≡ some (k, status)
      → ((complete_by_action_result entity_id action r).1 ≡ true)
        × (lookup k (complete_by_action_result entity_id action r).0.commands
            ≡ some (set_state completed none status))
  complete_by_action_result_drops_failure entity_id action r k status unique node result message h =
      let there = newest-lookup (is_open entity_id) r k status unique h in
      let done = drops_failure entity_id action r k status node result message h in
      rw done
        (refl, unfold update_status in lookup-put k k _ r.commands ∙ rw (==_refl k, there) refl)
