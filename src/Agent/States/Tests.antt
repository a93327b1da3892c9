-- ===== src/Agent/States/Tests.antt =====
-- Witnesses for the agent's state machine.
use session_bound_agent_iden.Agent.StateMachine.Loop.{
  Status, Run, here, next, machine_reset, failed_at, waiting,
}
use session_bound_agent_iden.Common.{
  Bool, true, false, Option, none, some, [], ◌∷◌, ◌≡◌, ◌≢◌, ◌↔◌, refl, arith,
}
use session_bound_agent_iden.Agent.StateMachine.{
  StateMachine, handle_event, run_events, reset, look_up, commit, add_transition, new_state_machine,
  Keys,
}
use session_bound_agent_iden.Agent.StateMachine.Reset.{
  state_after, reset_not_serial, reset_may_stop,
}
use session_bound_agent_iden.Agent.States.{
  AgentState, AgentEvent, idle, receiving_manifest, receiving_algorithm, receiving_data, agent_keys,
  running, start, manifest_received, algorithm_received, AgentMachine, service_machine,
  add_manifest, Life, born, handled, initialised, stopped,
}
use session_bound_agent_iden.Agent.States.Table.{agent_next, table_of_Life}
use session_bound_agent_iden.Agent.States.Trace.{run_up, running_iff}

abbrev Log : Type 0
Log = Unit {0}

-- A machine in a state, with the transitions of the service.
abbrev at : AgentState → AgentMachine Log
at state = record service_machine { current_state = state }

-- Started, given a manifest with datasets, stopped, started, and given one without.
abbrev first_manifest : AgentMachine Log
first_manifest = add_manifest (at receiving_manifest) true

abbrev restarted_agent : AgentMachine Log
restarted_agent = record (reset first_manifest idle) { current_state = receiving_manifest }

abbrev second_manifest : AgentMachine Log
second_manifest = add_manifest restarted_agent false

second_manifest-Life : Life second_manifest (false ∷ true ∷ [])
unfolding service_machine add_manifest reset handle_event look_up commit
second_manifest-Life = initialised false (
    handled {action = none} start
      (stopped (initialised true (handled {action = none} start born refl))) refl)

table_of_Life_example :
    second_manifest.transitions receiving_algorithm algorithm_received ≡ some running
unfolding agent_next
table_of_Life_example = table_of_Life second_manifest-Life receiving_algorithm algorithm_received

running_iff_example :
    ((sm' : AgentMachine Log) × (run_events second_manifest (run_up false) ≡ some sm')
      × (sm'.current_state ≡ running))
    ↔ (run_up false ≡ manifest_received ∷ algorithm_received ∷ [])
unfolding add_manifest reset
running_iff_example =
    running_iff false (true ∷ []) (run_up false) second_manifest second_manifest-Life refl

-- The manifest's event is looked up, and the agent is stopped before the commit.
reset_not_serial_example :
    ((commit (reset (at receiving_manifest) idle) receiving_algorithm).0.current_state
      ≡ receiving_algorithm)
    × (state_after (at receiving_manifest) manifest_received ≡ receiving_algorithm)
    × ((reset (commit (at receiving_manifest) receiving_algorithm).0 idle).current_state
        ≢ receiving_algorithm)
    × (state_after (reset (at receiving_manifest) idle) manifest_received ≢ receiving_algorithm)
unfolding service_machine reset look_up
reset_not_serial_example =
    reset_not_serial (at receiving_manifest) idle manifest_received receiving_algorithm refl
      (ground arith) (ground arith)

same_option : Option AgentEvent → Option AgentEvent → Bool
same_option none none = true
same_option (some d) (some e) = agent_keys.same_event d e
same_option d e = false

abbrev nil_keys : Keys AgentState (Option AgentEvent)
nil_keys = record { same_state = agent_keys.same_state; same_event = same_option }

-- Events with a nil value, which no transition names.
abbrev nil_machine : StateMachine AgentState (Option AgentEvent) Log
nil_machine =
    add_transition nil_keys (new_state_machine receiving_data)
      (record { from_state = idle; event = some start; to_state = receiving_manifest })

abbrev reset_machine : StateMachine AgentState (Option AgentEvent) Log
reset_machine = reset nil_machine idle

abbrev returned : Status AgentState (Option AgentEvent)
returned = failed_at idle none

-- A second `Reset` does not start the loop again.
reset_again : Run none reset_machine returned (reset reset_machine receiving_data) returned
reset_again = next here (machine_reset receiving_data)

reset_may_stop_example :
    Run none nil_machine
      (waiting nil_machine.channels)
      (reset reset_machine receiving_data)
      returned
    × (returned ≡ returned)
unfolding add_transition new_state_machine same_option
reset_may_stop_example =
    reset_may_stop nil_machine (reset reset_machine receiving_data) idle returned refl reset_again
