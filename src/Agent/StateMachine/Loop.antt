-- ===== src/Agent/StateMachine/Loop.antt =====
-- agent/statemachine/state.go: the goroutine of `Start` among the other operations.
use session_bound_agent_iden.Common.{ℕ, Option, ◌≡◌}
use session_bound_agent_iden.Agent.StateMachine.{
  StateMachine, Keys, Transition, moved, invalid_transition, handle_event, reset, add_transition,
  set_action, Ready, event_received, restarted,
}

-- Where `Start` is: about to read the channels, in the `select` on a pair of them, or returned,
-- with the error of an invalid transition or with that of its context.
pub data Status (S E : Type 0) : Type 0 where
  looping : Status S E
  waiting : ℕ → Status S E
  failed_at : S → E → Status S E
  cancelled : Status S E

-- One step of `Start`, a whole `handleEvent` being one, or of another goroutine that changes the
-- machine meanwhile.
pub data Step {S E A : Type 0} (nil_event : E)
    : StateMachine S E A → Status S E → StateMachine S E A → Status S E → Type 0 where
  channels_read : {sm : StateMachine S E A} → Step nil_event sm looping sm (waiting sm.channels)
  event_handled :
      {sm sm' : StateMachine S E A} {held : ℕ} {action : Option A} (e : E)
      → Ready nil_event sm held (event_received e)
      → handle_event sm e ≡ moved sm' action
      → Step nil_event sm (waiting held) sm' looping
  event_refused :
      {sm : StateMachine S E A} {held : ℕ} {s : S} {x : E} (e : E)
      → Ready nil_event sm held (event_received e)
      → handle_event sm e ≡ invalid_transition s x
      → Step nil_event sm (waiting held) sm (failed_at s x)
  loop_restarted :
      {sm : StateMachine S E A} {held : ℕ}
      → Ready nil_event sm held restarted
      → Step nil_event sm (waiting held) sm looping
  context_done :
      {sm : StateMachine S E A} {held : ℕ} → Step nil_event sm (waiting held) sm cancelled
  machine_reset :
      {sm : StateMachine S E A} {x : Status S E} (initial_state : S)
      → Step nil_event sm x (reset sm initial_state) x
  transition_added :
      {sm : StateMachine S E A} {x : Status S E} (keys : Keys S E) (t : Transition S E)
      → Step nil_event sm x (add_transition keys sm t) x
  action_set :
      {sm : StateMachine S E A} {x : Status S E} (keys : Keys S E) (state : S) (action : Option A)
      → Step nil_event sm x (set_action keys sm state action) x

pub data Run {S E A : Type 0} (nil_event : E) (sm : StateMachine S E A) (x : Status S E)
    : StateMachine S E A → Status S E → Type 0 where
  here : Run nil_event sm x sm x
  next :
      {sm' sm'' : StateMachine S E A} {y z : Status S E}
      → Run nil_event sm x sm' y
      → Step nil_event sm' y sm'' z
      → Run nil_event sm x sm'' z
