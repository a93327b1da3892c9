-- ===== src/Agent.antt =====
-- The agent (agent/): its state machine, and the life cycle of a computation over it.
pub mod StateMachine
pub mod States
pub mod Results
