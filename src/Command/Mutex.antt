-- ===== src/Command/Mutex.antt =====
-- `resolve` of app/execution/command/command_resolver.py: its guards, and the mutex of the commands
-- that move an entity.
use mathlib.Core.Option
use hmta_service.Prelude.{
  String, Option, none, some, true, false, ◌||◌, [], ◌∷◌, ◌==◌, ◌≡◌, ◌≢◌, ◌⊎◌, inl, inr, refl, sym,
  ap, ◌∙◌, arith, Bool-cases, Option-cases, eq_of_==, ==_of_ne,
}
use hmta_service.Prelude.Dict.{Dict, lookup, put, lookup-put, lookup-put_self}
use hmta_service.Prelude.Options.{some-inj}
use hmta_service.Command.{
  AbstractCommand, CommandStatus, EntityInfo, ResolveError, entity_not_found, capability_mismatch,
  entity_offline, comm_lost, ResolveResult, resolved, refused, CommandResolver, Translators,
}
use hmta_service.Command.Status.{text_is, is_open, close_open, cancel_open}
use hmta_service.Command.Resolver.{
  is_motion, has_capability, dispatch, new_status, track, with_mutex, resolve_for, resolve,
}

module _ {Params : Type 0} where
  is_open-close_open :
      (e : String) (status : CommandStatus Params) → is_open e (close_open e status) ≡ false
  unfolding close_open
  is_open-close_open e status = ground arith

  close_open_closed :
      (e : String) (status : CommandStatus Params)
      → is_open e status ≡ false
      → close_open e status ≡ status
  unfolding close_open
  close_open_closed e status h = rw h refl

  lookup-cancel_open :
      (e k : String) (commands : Dict (CommandStatus Params))
      → lookup k (cancel_open e commands) ≡ Option.map (close_open e) (lookup k commands)
  unfolding cancel_open lookup
  lookup-cancel_open e k [] = refl
  lookup-cancel_open e k ((j, old) ∷ rest) = elim (Bool-cases (j == k)) [
    | inl h ↦ rw h refl
    | inr h ↦ rw h (lookup-cancel_open e k rest)
  ]

  -- After the pass no command of the entity is open.
  cancel_open-closed :
      (e k : String) (commands : Dict (CommandStatus Params)) (status : CommandStatus Params)
      → lookup k (cancel_open e commands) ≡ some status
      → is_open e status ≡ false
  cancel_open-closed e k commands status h = closed (lookup k commands) refl
    where
      closed :
          (o : Option (CommandStatus Params)) → lookup k commands ≡ o → is_open e status ≡ false
      closed none q =
          absurd (cc (sym (lookup-cancel_open e k commands) ∙ h, ap (Option.map (close_open e)) q))
      closed (some old) q =
          let same : close_open e old ≡ status =
            some-inj
              (sym (lookup-cancel_open e k commands ∙ ap (Option.map (close_open e)) q) ∙ h) in
          rw (← same) (is_open-close_open e old)

  -- The pass leaves each command that is not open as it is.
  cancel_open_frame :
      (e k : String) (commands : Dict (CommandStatus Params)) (status : CommandStatus Params)
      → lookup k commands ≡ some status
      → is_open e status ≡ false
      → lookup k (cancel_open e commands) ≡ some status
  cancel_open_frame e k commands status h closed =
      lookup-cancel_open e k commands ∙ rw (h, close_open_closed e status closed) refl

module _ {Params Payload : Type 0} (tx : Translators Params Payload) where
  -- The entity of the command is registered, capable of its intent, and in contact.
  pub record IsReachable (r : CommandResolver Params Payload) (command : AbstractCommand Params)
      : Type 0 where
    pub entity : EntityInfo
    pub registered : lookup command.entity_id r.schema ≡ some entity
    pub not_blank : entity.is_blank ≡ false
    pub capable : has_capability tx r command.entity_id command.intent ≡ true
    pub online : text_is entity.status "offline" ≡ false
    pub in_contact :
        (text_is entity.comm_status "offline" || text_is entity.comm_status "comm_lost") ≡ false

  abbrev IsRefused :
      CommandResolver Params Payload → CommandResolver Params Payload × ResolveResult → Type 0
  IsRefused r (r', result) = (r' ≡ r) × ((e : ResolveError) × (result ≡ refused e))

  resolve_for_guarded :
      (command : AbstractCommand Params) (r : CommandResolver Params Payload) (entity : EntityInfo)
      → lookup command.entity_id r.schema ≡ some entity
      → IsReachable r command ⊎ IsRefused r (resolve_for tx command entity r)
  resolve_for_guarded command r entity there = elim (Bool-cases entity.is_blank) [
    | inl a ↦ inr (rw a (refl, (entity_not_found, refl)))
    | inr a ↦ elim (Bool-cases (has_capability tx r command.entity_id command.intent)) [
      | inr b ↦ inr (rw (a, b) (refl, (capability_mismatch, refl)))
      | inl b ↦ elim (Bool-cases (text_is entity.status "offline")) [
        | inl c ↦ inr (rw (a, b, c) (refl, (entity_offline, refl)))
        | inr c ↦
            elim (Bool-cases
              (text_is entity.comm_status "offline" || text_is entity.comm_status "comm_lost")) [
                | inl d ↦ inr (rw (a, b, c, d) (refl, (comm_lost, refl)))
                | inr d ↦ inl (record {
                  entity = entity;
                  registered = there;
                  not_blank = a;
                  capable = b;
                  online = c;
                  in_contact = d;
                })
              ]
      ]
    ]
  ]

  -- A command has an effect (a message on the bus, a status, a cancelled command, an answer that
  -- it is resolved) only if its entity is registered, capable of the intent and in contact; else
  -- the resolver is as before and the answer is an error.
  pub resolve_guarded :
      (command : AbstractCommand Params) (r : CommandResolver Params Payload)
      → IsReachable r command
        ⊎ (((resolve tx command r).0 ≡ r)
            × ((e : ResolveError) × ((resolve tx command r).1 ≡ refused e)))
  unfolding resolve
  resolve_guarded command r = elim (Option-cases (lookup command.entity_id r.schema)) [
    | inl gone ↦ inr (rw (gone, resolve) (refl, (entity_not_found, refl)))
    | inr (entity, there) ↦ rw (there, resolve) (resolve_for_guarded command r entity there)
  ]

  dispatch-commands :
      (command : AbstractCommand Params) (entity : EntityInfo) (r : CommandResolver Params Payload)
      → (dispatch tx command entity r).0.commands ≡ r.commands
  unfolding dispatch
  dispatch-commands command entity r = ground arith

  resolve_reachable :
      (command : AbstractCommand Params) (r : CommandResolver Params Payload)
      → (reach : IsReachable r command)
      → resolve tx command r
        ≡ track tx command (dispatch tx command reach.entity (with_mutex tx command r))
  unfolding resolve
  resolve_reachable command r reach =
      rw (reach.registered, reach.not_blank, reach.capable, reach.online, reach.in_contact, resolve)
        refl

  track_resolved :
      (command : AbstractCommand Params)
      (out : CommandResolver Params Payload × Option ResolveError)
      (r' : CommandResolver Params Payload) (id : String)
      → track tx command out ≡ (r', resolved id)
      → r'.commands ≡ put command.command_id (new_status tx command) out.0.commands
  track_resolved command (r, some e) r' id h = absurd (cc (ap (λ p. p.1) h))
  track_resolved command (r, none) r' id h = sym (ap (λ p. p.0.commands) h)

  resolve-commands :
      (command : AbstractCommand Params) (r r' : CommandResolver Params Payload) (id : String)
      → resolve tx command r ≡ (r', resolved id)
      → r'.commands
        ≡ put command.command_id (new_status tx command) (with_mutex tx command r).commands
  resolve-commands command r r' id h = elim (resolve_guarded command r) [
    | inl reach ↦
        track_resolved command (dispatch tx command reach.entity (with_mutex tx command r)) r' id
          (sym (resolve_reachable command r reach) ∙ h)
        ∙ ap (put command.command_id (new_status tx command))
            (dispatch-commands command reach.entity (with_mutex tx command r))
    | inr (same, (e, refusal)) ↦ absurd (cc (sym refusal ∙ ap (λ p. p.1) h))
  ]

  -- A resolved command that moves its entity is the only open command of the entity; the commands
  -- of other entities, and those that were closed, are as before. The open commands of the entity
  -- are cancelled whatever their intent.
  pub resolve_mutex :
      (command : AbstractCommand Params) (r r' : CommandResolver Params Payload) (id : String)
      → resolve tx command r ≡ (r', resolved id)
      → is_motion command.intent ≡ true
      → (lookup command.command_id r'.commands ≡ some (new_status tx command))
        × ((k : String) (status : CommandStatus Params)
            → lookup k r'.commands ≡ some status
            → is_open command.entity_id status ≡ true
            → k ≡ command.command_id)
        × ((k : String) (status : CommandStatus Params)
            → k ≢ command.command_id
            → lookup k r.commands ≡ some status
            → is_open command.entity_id status ≡ false
            → lookup k r'.commands ≡ some status)
  resolve_mutex command r r' id h motion =
      let made = resolve-commands command r r' id h ∙ rw motion refl in
      (
        rw made (
            lookup-put_self command.command_id (new_status tx command)
              (cancel_open command.entity_id r.commands)),
        λ k status there open_now. elim (Bool-cases (command.command_id == k)) [
          | inl e ↦ sym (eq_of_== command.command_id k e)
          | inr e ↦ absurd (
              ground (
                arith,
                cancel_open-closed command.entity_id k r.commands status
                    (sym (rw (made, lookup-put command.command_id k, e) refl) ∙ there),
              ))
        ],
        λ k status other there closed.
            rw
              (
                made,
                lookup-put command.command_id k,
                ==_of_ne command.command_id k (λ q. other (sym q)),
              )
              (cancel_open_frame command.entity_id k r.commands status there closed),
      )
