-- ===== src/Fsm/Tracks.antt =====
-- What the steps of app/execution/fsm/fsm_manager.py do to the instances and to the last entries of
-- the history.
use hmta_service.Prelude.{
  ℕ, String, Option, none, some, Bool, true, false, ◌&&◌, List, [], ◌∷◌, ◌++◌, ◌==◌, ◌≡◌, ◌⊎◌, inl,
  inr, refl, sym, ap, ◌∙◌, subst, arith, All, all, elem, eq_of_==, ==_refl, Bool-cases,
  if◌then◌else◌,
}
use hmta_service.Prelude.Dict.{Dict, lookup, lookup-put}
use hmta_service.Prelude.Options.{some-inj}
use hmta_service.Fsm.{Machine, Transition, robot_fsm, human_fsm, find_target, declared}
use hmta_service.Fsm.Manager.{
  Instance, Entry, FsmManager, on_state_change, enter_initial, set_instance, sync_one, sync_all,
}

abbrev or_first {ℓ} : {A : Type ℓ} → Option A → Option A → Option A
or_first (some a) o = some a
or_first none o = o

-- Where the last entry of an entity says that it went.
unfoldable pub last_to : String → List Entry → Option String
last_to id [] = none
last_to id (e ∷ es) = or_first (last_to id es) (if e.entity_id == id then some e.to else none)

last_to-append :
    (id : String) (es : List Entry) (e : Entry)
    → last_to id (es ++ e ∷ []) ≡ (if e.entity_id == id then some e.to else last_to id es)
unfolding last_to
last_to-append id [] e = refl
last_to-append id (d ∷ es) e = elim (Bool-cases (e.entity_id == id)) [
  | inl q ↦ rw (last_to-append id es e, q) refl
  | inr q ↦ rw (last_to-append id es e, q) refl
]

-- An instance is of one of the two machines, in a state of its machine, which is the one that its
-- entity's last entry of the history names.
pub record IsTracked (m : FsmManager) (id : String) (fsm : Instance) : Type 0 where
  pub kind : (fsm.machine ≡ robot_fsm) ⊎ (fsm.machine ≡ human_fsm)
  pub known : elem fsm.state fsm.machine.states ≡ true
  pub named : last_to id m.history ≡ some fsm.state

abbrev pub IsConsistent : FsmManager → Type 0
IsConsistent m =
    (id : String) (fsm : Instance) → lookup id m.instances ≡ some fsm → IsTracked m id fsm

abbrev pub empty_manager : FsmManager
empty_manager = record {
  instances = [];
  history = [];
  bb_writable = [];
  bb_attempted = [];
  bb = [];
}

-- Every transition of a machine leads to one of its states.
abbrev IsClosed : Machine → Type 0
IsClosed m = All (λ t. elem t.target m.states ≡ true) m.transitions

find_target-known :
    (states : List String) (ts : List Transition) (state event target : String)
    → All (λ t. elem t.target states ≡ true) ts
    → find_target state event ts ≡ some target
    → elem target states ≡ true
unfolding find_target
find_target-known states [] state event target h = λ q. absurd (cc)
find_target-known states (t ∷ ts) state event target h =
    elim (Bool-cases (t.event == event && t.source == state)) [
      | inl e ↦ rw e (λ q. subst (λ x. elem x states ≡ true) (some-inj q) h.0)
      | inr e ↦ rw e (find_target-known states ts state event target h.1)
    ]

All-all : {A : Type 0} (p : A → Bool) (xs : List A) → all p xs ≡ true → All (λ x. p x ≡ true) xs
All-all p [] h = tt
All-all p (x ∷ xs) h = (ground arith, All-all p xs (ground arith))

robot-IsClosed : IsClosed robot_fsm
robot-IsClosed = All-all (λ t. elem t.target robot_fsm.states) robot_fsm.transitions refl

human-IsClosed : IsClosed human_fsm
human-IsClosed = All-all (λ t. elem t.target human_fsm.states) human_fsm.transitions refl

pub known_target :
    (m : Machine) (state event target : String)
    → (m ≡ robot_fsm) ⊎ (m ≡ human_fsm)
    → declared m state event ≡ some target
    → elem target m.states ≡ true
known_target m state event target (inl q) =
    find_target-known m.states m.transitions state event target
      (subst IsClosed (sym q) robot-IsClosed)
known_target m state event target (inr q) =
    find_target-known m.states m.transitions state event target
      (subst IsClosed (sym q) human-IsClosed)

-- A state change of one entity leaves the others' last entries.
on_state_change-last_to :
    (now : ℕ) (id state event other : String) (m : FsmManager)
    → last_to other (on_state_change now id state event m).history
      ≡ (if id == other then some state else last_to other m.history)
unfolding on_state_change
on_state_change-last_to now id state event other m = last_to-append other m.history _

on_state_change-instances :
    (now : ℕ) (id state event : String) (m : FsmManager)
    → (on_state_change now id state event m).instances ≡ m.instances
unfolding on_state_change
on_state_change-instances now id state event m = refl

-- What an operation does to the entry of one entity, and to no other.
pub record IsEntered (id state : String) (m m' : FsmManager) : Type 0 where
  pub same_instances : m'.instances ≡ m.instances
  pub same_others :
      (other : String) → (id == other) ≡ false → last_to other m'.history ≡ last_to other m.history
  pub entered : last_to id m'.history ≡ some state

pub on_state_change-IsEntered :
    (now : ℕ) (id state event : String) (m : FsmManager)
    → IsEntered id state m (on_state_change now id state event m)
on_state_change-IsEntered now id state event m = record {
  same_instances = on_state_change-instances now id state event m;
  same_others = λ other apart. on_state_change-last_to now id state event other m ∙ rw apart refl;
  entered = on_state_change-last_to now id state event id m ∙ rw (==_refl id) refl;
}

pub enter_initial-IsEntered :
    (now : ℕ) (id state event : String) (events : List String) (m : FsmManager)
    → IsEntered id state m (enter_initial now id state (event ∷ events) m)
enter_initial-IsEntered now id state event [] m = on_state_change-IsEntered now id state event m
enter_initial-IsEntered now id state event (next ∷ events) m =
    let first = on_state_change-IsEntered now id state event m in
    let rest =
      enter_initial-IsEntered now id state next events (on_state_change now id state event m) in
    record {
      same_instances = rest.same_instances ∙ first.same_instances;
      same_others = λ other apart. rest.same_others other apart ∙ first.same_others other apart;
      entered = rest.entered;
    }

pub set_instance-IsConsistent :
    (id : String) (fsm : Instance) (m m' : FsmManager)
    → IsConsistent m
    → IsEntered id fsm.state m m'
    → (fsm.machine ≡ robot_fsm) ⊎ (fsm.machine ≡ human_fsm)
    → elem fsm.state fsm.machine.states ≡ true
    → IsConsistent (set_instance id fsm m')
set_instance-IsConsistent id fsm m m' h into kind known k f there = elim (Bool-cases (id == k)) [
  | inl e ↦
      let same = some-inj (sym (lookup-put id k fsm m'.instances ∙ rw e refl) ∙ there) in
      subst (λ f. IsTracked (set_instance id fsm m') k f) same
        (record {
          kind = kind;
          known = known;
          named = ap (λ j. last_to j m'.history) (sym (eq_of_== id k e)) ∙ into.entered;
        })
  | inr e ↦
      let before = h k f (
        ap (lookup k) (sym into.same_instances)
        ∙ sym (lookup-put id k fsm m'.instances ∙ rw e refl)
        ∙ there) in
      record {
        kind = before.kind;
        known = before.known;
        named = into.same_others k e ∙ before.named;
      }
]

sync_one-same :
    (can_register : String → Bool) (id : String) (fsm : Instance) (m : FsmManager)
    → ((sync_one can_register id fsm m).instances ≡ m.instances)
      × ((sync_one can_register id fsm m).history ≡ m.history)
sync_one-same can_register id fsm m = ground arith

pub sync_all-same :
    (can_register : String → Bool) (rest : Dict Instance) (m : FsmManager)
    → ((sync_all can_register rest m).instances ≡ m.instances)
      × ((sync_all can_register rest m).history ≡ m.history)
sync_all-same can_register [] m = (refl, refl)
sync_all-same can_register ((id, fsm) ∷ rest) m =
    let (instances, history) = sync_one-same can_register id fsm m in
    let (instances', history') = sync_all-same can_register rest (sync_one can_register id fsm m) in
    (instances' ∙ instances, history' ∙ history)
