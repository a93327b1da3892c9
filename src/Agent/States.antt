-- ===== src/Agent/States.antt =====
-- agent/service.go: the states and events of the agent, and the transitions that `New` and
-- `InitComputation` give to its state machine.
pub mod Table
pub mod Trace
pub mod Tests
use session_bound_agent_iden.Common.{
  ℕ, Bool, true, false, Option, none, some, List, [], ◌∷◌, if◌then◌else◌, ◌==◌, ◌≡◌, refl, arith,
  is_nil,
}
use session_bound_agent_iden.Agent.StateMachine.{
  Transition, Keys, StateMachine, Handled, moved, new_state_machine, add_transitions, reset,
  handle_event,
}

pub data AgentState : Type 0 where
  idle receiving_manifest receiving_algorithm receiving_data : AgentState
  running consuming_results complete failed : AgentState

pub data AgentEvent : Type 0 where
  start manifest_received algorithm_received data_received : AgentEvent
  run_complete results_consumed run_failed : AgentEvent

-- The values of `iota`.
abbrev state_number : AgentState → ℕ
state_number idle = 0
state_number receiving_manifest = 1
state_number receiving_algorithm = 2
state_number receiving_data = 3
state_number running = 4
state_number consuming_results = 5
state_number complete = 6
state_number failed = 7

abbrev event_number : AgentEvent → ℕ
event_number start = 0
event_number manifest_received = 1
event_number algorithm_received = 2
event_number data_received = 3
event_number run_complete = 4
event_number results_consumed = 5
event_number run_failed = 6

abbrev pub agent_keys : Keys AgentState AgentEvent
agent_keys = record {
  same_state = λ s t. state_number s == state_number t;
  same_event = λ d e. event_number d == event_number e;
}

abbrev pub edge : AgentState → AgentEvent → AgentState → Transition AgentState AgentEvent
edge from_state event to_state = record {
  from_state = from_state;
  event = event;
  to_state = to_state;
}

abbrev pub service_transitions : List (Transition AgentState AgentEvent)
service_transitions =
    edge idle start receiving_manifest
    ∷ edge receiving_manifest manifest_received receiving_algorithm
    ∷ edge receiving_algorithm run_failed failed
    ∷ edge receiving_data run_failed failed
    ∷ edge running run_complete consuming_results
    ∷ edge running run_failed failed
    ∷ edge consuming_results results_consumed complete
    ∷ []

-- The transitions of `InitComputation`, for a manifest with or without datasets.
abbrev pub manifest_transitions : Bool → List (Transition AgentState AgentEvent)
manifest_transitions has_datasets =
    if has_datasets
    then edge receiving_algorithm algorithm_received receiving_data
      ∷ edge receiving_data data_received running
      ∷ []
    else edge receiving_algorithm algorithm_received running ∷ []

abbrev pub AgentMachine : Type 0 → Type 0
AgentMachine A = StateMachine AgentState AgentEvent A

unfoldable pub service_machine : {A : Type 0} → AgentMachine A
unfolding new_state_machine add_transitions
service_machine = add_transitions agent_keys (new_state_machine idle) service_transitions

-- The transitions that `InitComputation` adds to the machine.
unfoldable pub add_manifest : {A : Type 0} → AgentMachine A → Bool → AgentMachine A
unfolding add_transitions
add_manifest sm has_datasets = add_transitions agent_keys sm (manifest_transitions has_datasets)

-- The machines of an agent: that of `New`, and what events, `InitComputation` and the reset of
-- `StopComputation` make of it. The list has the manifests so far, the latest first, each with
-- whether it has datasets. Each call is whole, and may come in any state.
pub data Life {A : Type 0} : AgentMachine A → List Bool → Type 0 where
  born : Life service_machine []
  handled :
      {sm sm' : AgentMachine A} {ms : List Bool} {action : Option A} (e : AgentEvent)
      → Life sm ms
      → handle_event sm e ≡ moved sm' action
      → Life sm' ms
  initialised :
      {sm : AgentMachine A} {ms : List Bool} (m : Bool)
      → Life sm ms
      → Life (add_manifest sm m) (m ∷ ms)
  stopped : {sm : AgentMachine A} {ms : List Bool} → Life sm ms → Life (reset sm idle) ms
