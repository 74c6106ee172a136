-- ===== src/Behaviours/HumanGate/Ends.antt =====
-- The gate of app/execution/behaviours/human_gate.py gives up: its retries are bounded.
use hmta_service.Prelude.{zero, suc, ◌≢◌, ℕ, ◌+◌, ◌-◌, ◌≤◌, ◌<◌, none, List, [], ◌∷◌, ◌≡◌, ◌⊎◌}
use hmta_service.Command.{Translators}
use hmta_service.Behaviours.{running, Status, Input, Value}
use hmta_service.Behaviours.HumanGate.{HumanGate, Outside}

-- How long a gate may last with a number of retries left: each of them, and the first try, takes up
-- to the timeout, and the next tick comes up to `gap` later.
abbrev pub allowance : ℕ → ℕ → ℕ → ℕ
allowance timeout gap zero = timeout
allowance timeout gap (suc left) = timeout + gap + allowance timeout gap left

module _ {Params Payload : Type 0} (tx : Translators Params Payload)
    (add_reason : Value → Params → Params) where
  abbrev Steps : Type 0
  Steps = List (Input × (Outside Params Payload → Outside Params Payload))

  abbrev pub times : Steps → List ℕ
  times [] = []
  times ((i, change) ∷ rest) = i.now ∷ times rest

  -- The gate after one more dispatch.
  record IsAgain (i : Input) (g g' : HumanGate Params) : Type 0 where
    counted : g'.retry_count ≡ g.retry_count + 1
    same_max : g'.max_retries ≡ g.max_retries
    same_timeout : g'.timeout_sec ≡ g.timeout_sec
    clock : (g'.directive_id ≡ none) ⊎ (g'.start_time ≡ i.now)

  -- The gate after a tick that goes on waiting.
  record IsPatient (g g' : HumanGate Params) : Type 0 where
    same_directive : g'.directive_id ≡ g.directive_id
    same_count : g'.retry_count ≡ g.retry_count
    same_max : g'.max_retries ≡ g.max_retries
    same_timeout : g'.timeout_sec ≡ g.timeout_sec
    same_start : g'.start_time ≡ g.start_time

  -- What a tick of a gate with a directive comes to.
  data Outcome (i : Input) (g : HumanGate Params)
      (out : Status × HumanGate Params × Outside Params Payload) : Type 0 where
    over : out.0 ≢ running → Outcome i g out
    waits : i.now - g.start_time ≤ g.timeout_sec → IsPatient g out.1 → Outcome i g out
    again : g.retry_count < g.max_retries → IsAgain i g out.1 → Outcome i g out
