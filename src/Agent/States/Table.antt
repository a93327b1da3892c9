-- ===== src/Agent/States/Table.antt =====
-- The table of transitions that an agent's machine has at any point of its life.
use session_bound_agent_iden.Common.{
  Bool, true, false, Option, none, some, List, [], ◌∷◌, ◌≡◌, ◌∙◌, ap, arith,
}
use session_bound_agent_iden.Agent.StateMachine.{handle_event, moved, reset}
use session_bound_agent_iden.Agent.States.{
  AgentState, AgentEvent, idle, receiving_manifest, receiving_algorithm, receiving_data, running,
  consuming_results, complete, failed, start, manifest_received, algorithm_received, data_received,
  run_complete, results_consumed, run_failed, AgentMachine, service_machine, add_manifest, Life,
  born, handled, initialised, stopped,
}

-- After the algorithm the latest manifest decides.
unfoldable pub after_algorithm : List Bool → Option AgentState
after_algorithm [] = none
after_algorithm (true ∷ ms) = some receiving_data
after_algorithm (false ∷ ms) = some running

-- The edge for the last dataset stays once a manifest with datasets has come.
unfoldable pub after_data : List Bool → Option AgentState
after_data [] = none
after_data (true ∷ ms) = some running
after_data (false ∷ ms) = after_data ms

unfoldable pub agent_next : List Bool → AgentState → AgentEvent → Option AgentState
unfolding after_algorithm after_data
agent_next ms idle start = some receiving_manifest
agent_next ms receiving_manifest manifest_received = some receiving_algorithm
agent_next ms receiving_algorithm algorithm_received = after_algorithm ms
agent_next ms receiving_algorithm run_failed = some failed
agent_next ms receiving_data data_received = after_data ms
agent_next ms receiving_data run_failed = some failed
agent_next ms running run_complete = some consuming_results
agent_next ms running run_failed = some failed
agent_next ms consuming_results results_consumed = some complete
agent_next ms s e = none

abbrev pub HasTable : {A : Type 0} → AgentMachine A → List Bool → Type 0
HasTable sm ms = (s : AgentState) (e : AgentEvent) → sm.transitions s e ≡ agent_next ms s e

service_table :
    (A : Type 0) (s : AgentState) (e : AgentEvent)
    → (service_machine {A = A}).transitions s e ≡ agent_next [] s e
unfolding service_machine agent_next
service_table A s e = ground arith

manifest_table :
    {A : Type 0} (sm : AgentMachine A) (ms : List Bool) (m : Bool)
    → HasTable sm ms
    → (s : AgentState) (e : AgentEvent)
    → (add_manifest sm m).transitions s e ≡ agent_next (m ∷ ms) s e
unfolding add_manifest agent_next
manifest_table sm ms true h s e = let known = h s e in ground arith
manifest_table sm ms false h s e = let known = h s e in ground arith

handled_transitions :
    {A : Type 0} (sm sm' : AgentMachine A) (e : AgentEvent) {action : Option A}
    → handle_event sm e ≡ moved sm' action
    → sm'.transitions ≡ sm.transitions
unfolding handle_event
handled_transitions sm sm' e h = ground arith

-- Whatever has happened to an agent's machine, its transitions are those of the service and of
-- the latest manifest, and the edge after the last dataset if any manifest had datasets.
pub table_of_Life :
    {A : Type 0} {sm : AgentMachine A} {ms : List Bool}
    → Life sm ms
    → (s : AgentState) (e : AgentEvent) → sm.transitions s e ≡ agent_next ms s e
unfolding reset
table_of_Life {A} born s e = service_table A s e
table_of_Life (handled {sm} {sm'} d l h) s e =
    ap (λ f. f s e) (handled_transitions sm sm' d h) ∙ table_of_Life l s e
table_of_Life (initialised {sm} {ms} m l) s e = manifest_table sm ms m (table_of_Life l) s e
table_of_Life (stopped l) s e = table_of_Life l s e
