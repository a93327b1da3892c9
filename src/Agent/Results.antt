-- ===== src/Agent/Results.antt =====
-- agent/service.go: `Result`, by which declared consumers fetch the result of a run. The state of
-- the machine is read before the lock, so each call has the reading that it made. The consumer's
-- index comes from the call's context. The event is sent when the call returns.
pub mod Once
pub mod Tests
use session_bound_agent_iden.Common.{
  ℕ, ℤ, pos, negsuc, Bool, true, false, not, ◌&&◌, ◌||◌, ◌+◌, Option, none, some, List, [], ◌∷◌,
  if◌then◌else◌, ltb, length,
}
use session_bound_agent_iden.GoString.{Bytes}
use session_bound_agent_iden.Agent.States.{
  AgentState, AgentEvent, consuming_results, complete, failed, results_consumed, agent_keys,
}

-- The fields of the service that `Result` reads; `E` is the type of the run's error.
pub record ResultStore (E : Type 0) : Type 0 where
  pub result_consumers : List Bytes
  pub consumed : Bool
  pub result : Bytes
  pub run_error : Option E

pub data ResultErr (E : Type 0) : Type 0 where
  results_not_ready : ResultErr E
  undeclared_consumer : ResultErr E
  run_failed_with : E → ResultErr E

pub record ResultCall : Type 0 where
  pub current_state : AgentState
  pub index : Option ℤ

pub record ResultReply (E : Type 0) : Type 0 where
  pub result : Bytes
  pub err : Option (ResultErr E)
  pub sent : Option AgentEvent

abbrev pub is_result_state : AgentState → Bool
is_result_state s =
    agent_keys.same_state s consuming_results
    || agent_keys.same_state s complete
    || agent_keys.same_state s failed

abbrev pub is_consumer : {E : Type 0} → ResultStore E → ℤ → Bool
is_consumer s (pos n) = ltb n (length s.result_consumers)
is_consumer s (negsuc n) = false

abbrev refuse : {E : Type 0} → ResultErr E → ResultReply E
refuse e = record { result = []; err = some e; sent = none }

pub run_error_of : {E : Type 0} → Option E → Option (ResultErr E)
run_error_of none = none
run_error_of (some e) = some (run_failed_with e)

-- Under the lock, for a declared consumer.
pub consume : {E : Type 0} → ResultStore E → AgentState → ResultStore E × ResultReply E
unfolding run_error_of
consume s current_state =
    if not s.consumed && agent_keys.same_state current_state consuming_results
    then (
      record s { consumed = true },
      record { result = s.result; err = run_error_of s.run_error; sent = some results_consumed },
    )
    else (s, record { result = s.result; err = run_error_of s.run_error; sent = none })

unfoldable pub result_of : {E : Type 0} → ResultStore E → ResultCall → ResultStore E × ResultReply E
unfolding consume
result_of s call =
    if not (is_result_state call.current_state)
    then (s, refuse results_not_ready)
    else elim call.index [
      | none ↦ (s, refuse undeclared_consumer)
      | some i ↦
          if not (is_consumer s i)
          then (s, refuse undeclared_consumer)
          else consume s call.current_state
    ]

-- The calls in the order in which they take the lock.
unfoldable pub run_results : {E : Type 0} → ResultStore E → List ResultCall → List (ResultReply E)
unfolding result_of
run_results s [] = []
run_results s (x ∷ xs) = let (s', reply) = result_of s x in reply ∷ run_results s' xs
