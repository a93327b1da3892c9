-- ===== src/Agent/Results/Tests.antt =====
-- Witnesses for the results of a computation.
use session_bound_agent_iden.Common.{ℕ, pos, none, some, List, [], ◌∷◌, ◌≡◌, ◌≤◌, ◌↔◌, false, refl}
use session_bound_agent_iden.GoString.{bytes}
use session_bound_agent_iden.Agent.States.{consuming_results, running}
use session_bound_agent_iden.Agent.Results.{ResultStore, ResultCall, result_of, run_results}
use session_bound_agent_iden.Agent.Results.Once.{sent_count, sent_once, MayFetch, result_iff}

-- A run with one consumer and no error.
abbrev store : ResultStore ℕ
store = record {
  result_consumers = bytes "key" ∷ [];
  consumed = false;
  result = bytes "42";
  run_error = none;
}

abbrev fetch : ResultCall
fetch = record { current_state = consuming_results; index = some (pos 0) }

abbrev early : ResultCall
early = record { current_state = running; index = some (pos 0) }

-- Two consumers that both read the state before the first call takes the lock.
abbrev calls : List ResultCall
calls = early ∷ fetch ∷ fetch ∷ []

calls_sent : sent_count (run_results store calls) ≡ 1
unfolding sent_count run_results result_of
calls_sent = refl

sent_once_example : sent_count (run_results store calls) ≤ 1
sent_once_example = sent_once calls store

result_iff_example :
    ((result_of store fetch).1.err ≡ none) ↔ (MayFetch store fetch × (store.run_error ≡ none))
result_iff_example = result_iff store fetch
