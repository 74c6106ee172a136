-- ===== src/Behaviours.antt =====
-- What the behaviours of app/execution/behaviours share: the status of a tick, and the part of the
-- blackboard that the gates and the response resolver read and write.
pub mod Pace
pub mod GoalGate
pub mod HumanGate
pub mod SupervisedFallback
pub mod MissionMonitor
pub mod HumanMonitor
pub mod EntityWorker
pub mod CommandAction
use hmta_service.Prelude.{
  ℕ, String, Option, none, some, Bool, true, false, not, List, [], ◌∷◌, ◌==◌, nat_eq, ◌≡◌, refl,
  ◌∙◌, inl, inr, Bool-cases, ==_refl, if◌then◌else◌, ◌&&◌, all, length,
}
use hmta_service.Command.{ResolveResult, resolved, refused}
use hmta_service.Prelude.Dict.{Dict, lookup, put, remove, lookup-put}

pub data Status : Type 0 where
  success failure running invalid : Status

-- What a tick takes from outside: the clock, and the id of a command that it may send.
pub record Input : Type 0 where
  pub now : ℕ
  pub fresh_id : String

abbrev pub answer_id : ResolveResult → Option String
answer_id (resolved id) = some id
answer_id (refused _) = none

-- What a dictionary on the blackboard holds under a key.
pub data Detail : Type 0 where
  bit : Bool → Detail
  number : ℕ → Detail
  word : String → Detail

-- A value on the blackboard: a plain one, or a dictionary of plain ones.
pub data Value : Type 0 where
  flag : Bool → Value
  count : ℕ → Value
  text : String → Value
  details : Dict Detail → Value

abbrev number_of : Bool → ℕ
number_of true = 1
number_of false = 0

unfoldable pub detail_eq : Detail → Detail → Bool
detail_eq (bit a) (bit b) = nat_eq (number_of a) (number_of b)
detail_eq (bit a) (number n) = nat_eq (number_of a) n
detail_eq (number n) (bit b) = nat_eq n (number_of b)
detail_eq (number m) (number n) = nat_eq m n
detail_eq (word s) (word t) = s == t
detail_eq _ _ = false

abbrev is_detail : Option Detail → Detail → Bool
is_detail none d = false
is_detail (some e) d = detail_eq e d

abbrev within : Dict Detail → Dict Detail → Bool
within a b = all (λ entry. is_detail (lookup entry.0 b) entry.1) a

-- `==`: a flag equals its number, and the order of a dictionary does not count.
unfoldable pub value_eq : Value → Value → Bool
value_eq (flag a) (flag b) = nat_eq (number_of a) (number_of b)
value_eq (flag a) (count n) = nat_eq (number_of a) n
value_eq (count n) (flag b) = nat_eq n (number_of b)
value_eq (count m) (count n) = nat_eq m n
value_eq (text s) (text t) = s == t
value_eq (details a) (details b) = nat_eq (length a) (length b) && within a b
value_eq _ _ = false

-- What Python takes for true; `none` is a missing key, or None.
unfoldable pub is_truthy : Option Value → Bool
is_truthy none = false
is_truthy (some (flag b)) = b
is_truthy (some (count n)) = not (nat_eq n 0)
is_truthy (some (text s)) = not (s == "")
is_truthy (some (details d)) = not (nat_eq (length d) 0)

-- `mission_goal["success_condition"]`; the expected value is true if it is not given.
pub record Condition : Type 0 where
  pub key : String
  pub expected : Value

pub record MissionGoal : Type 0 where
  pub success_condition : Option Condition
  pub requires_confirmation : Option Bool  -- `none` if it is not given

-- An entry of `human_review_sessions`. Its id is the gate's and the number of rejections so far.
pub record ReviewSession : Type 0 where
  pub id : String × ℕ
  pub entity_id : String
  pub started_at : ℕ
  pub ended_at : Option ℕ
  pub status : String

abbrev pub Waypoint : Type 0
Waypoint = Dict Value

-- A parameter that a human provides: a plain value, a path, or a dictionary of plain values.
pub data Datum : Type 0 where
  value : Value → Datum
  path : List Waypoint → Datum
  fields : Dict Value → Datum

-- `task["human_response"]`
pub record HumanAnswer : Type 0 where
  pub decision : String
  pub params : Dict Datum

-- `human_intervention_reason`: the step that failed, whether by time, and its place among several.
pub record InterventionReason : Type 0 where
  pub step : String
  pub timed_out : Bool
  pub progress : Option (ℕ × ℕ)

-- A task's precondition, and its effect; `expect` may be None.
pub record Precondition : Type 0 where
  pub key : String
  pub expect : Option Value

pub record Effect : Type 0 where
  pub key : String
  pub value : Value

-- An entry of `task_queue`. A missing text is empty; a missing priority is "normal".
pub record Task : Type 0 where
  pub id : String
  pub entity : String
  pub status : String
  pub intent : String
  pub priority : String
  pub zone_id : String
  pub human_supervisor : String
  pub depends_on : List String
  pub required_capabilities : List String
  pub preconditions : List Precondition
  pub effects : List Effect
  pub params : Dict Datum
  pub human_response : Option HumanAnswer
  pub stolen_from : Option String
  pub failure_reason : Option String
  pub started_at : Option ℕ
  pub completed_at : Option ℕ
  pub elapsed_ms : Option ℕ
  pub human_intervention_count : ℕ
  pub human_intervention_ms : ℕ
  pub human_response_count : ℕ
  pub human_timeout_count : ℕ
  pub human_intervention_reason : Option InterventionReason

-- `param_response/{node}`; the waypoints stand at the top or under `params`.
pub record ParamResponse : Type 0 where
  pub waypoints : List Waypoint
  pub params_waypoints : List Waypoint
  pub decision : String

pub record Blackboard : Type 0 where
  pub values : Dict Value
  pub plain : Dict Value
  pub mission_goal : Option MissionGoal
  pub detecting_entity : String  -- `bomb_location["entity_id"]`, or the empty text
  pub sessions : List ReviewSession
  pub planned_waypoints : List Waypoint
  pub param_responses : Dict ParamResponse
  pub pending_waypoints : Dict (List Waypoint)
  pub task_queue : List Task

abbrev first_of {ℓ} : {A : Type ℓ} → Option A → Option A → Option A
first_of (some a) o = some a
first_of none o = o

-- `_bb_get`: a key stands under two spellings, `/k` (`values`) and `k` (`plain`); the first counts.
unfoldable pub bb_get : Blackboard → String → Option Value
bb_get bb key = first_of (lookup key bb.values) (lookup key bb.plain)

-- `_bb_set`: both spellings are written.
unfoldable pub bb_set : String → Value → Blackboard → Blackboard
bb_set key v bb = record bb { values = put key v bb.values; plain = put key v bb.plain }

-- A key under the second spelling alone.
abbrev pub plain_set : String → Value → Blackboard → Blackboard
plain_set key v bb = record bb { plain = put key v bb.plain }

abbrev pub plain_pop : String → Blackboard → Blackboard
plain_pop key bb = record bb { plain = remove key bb.plain }

pub bb_get-bb_set :
    (key other : String) (v : Value) (bb : Blackboard)
    → bb_get (bb_set key v bb) other ≡ (if key == other then some v else bb_get bb other)
unfolding bb_get bb_set
bb_get-bb_set key other v bb = elim (Bool-cases (key == other)) [
  | inl e ↦ rw (lookup-put key other v bb.values, e) refl
  | inr e ↦ rw (lookup-put key other v bb.values, lookup-put key other v bb.plain, e) refl
]

pub bb_get-bb_set_self :
    (key : String) (v : Value) (bb : Blackboard) → bb_get (bb_set key v bb) key ≡ some v
bb_get-bb_set_self key v bb = bb_get-bb_set key key v bb ∙ rw (==_refl key) refl

-- What a write of a plain value leaves.
pub bb_set-frame :
    (key : String) (v : Value) (bb : Blackboard)
    → ((bb_set key v bb).task_queue ≡ bb.task_queue)
      × ((bb_set key v bb).mission_goal ≡ bb.mission_goal)
unfolding bb_set
bb_set-frame key v bb = (refl, refl)
