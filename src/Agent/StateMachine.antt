-- ===== src/Agent/StateMachine.antt =====
-- agent/statemachine/state.go. States and events are interface values, compared by `same_state`
-- and `same_event`. The lock makes the operations a sequence. A pair of channels is the number of
-- resets before it was made: those of an earlier number are closed.
pub mod Loop
pub mod Reset
use session_bound_agent_iden.Common.{
  ℕ, Bool, Option, none, some, List, [], ◌∷◌, ◌&&◌, if◌then◌else◌, ◌≡◌, ◌+◌, ◌<◌,
}

pub record Transition (S E : Type 0) : Type 0 where
  pub from_state : S
  pub event : E
  pub to_state : S

-- The equality of interface values.
pub record Keys (S E : Type 0) : Type 0 where
  pub same_state : S → S → Bool
  pub same_event : E → E → Bool

pub record StateMachine (S E A : Type 0) : Type 0 where
  pub current_state : S
  pub transitions : S → E → Option S
  pub actions : S → Option A
  pub channels : ℕ

-- What `handleEvent` gives: the machine, and the action that it starts, or an invalid transition.
pub data Handled (S E A : Type 0) : Type 0 where
  moved : StateMachine S E A → Option A → Handled S E A
  invalid_transition : S → E → Handled S E A

unfoldable pub new_state_machine : {S E A : Type 0} → S → StateMachine S E A
new_state_machine initial_state = record {
  current_state = initial_state;
  transitions = λ from_state event. none;
  actions = λ state. none;
  channels = 0;
}

unfoldable pub add_transition :
    {S E A : Type 0} → Keys S E → StateMachine S E A → Transition S E → StateMachine S E A
add_transition keys sm t = record sm {
  transitions = λ state event.
      if keys.same_state state t.from_state && keys.same_event event t.event
      then some t.to_state
      else sm.transitions state event;
}

-- The loops over `AddTransition` of the agent's service.
unfoldable pub add_transitions :
    {S E A : Type 0} → Keys S E → StateMachine S E A → List (Transition S E) → StateMachine S E A
unfolding add_transition
add_transitions keys sm [] = sm
add_transitions keys sm (t ∷ ts) = add_transitions keys (add_transition keys sm t) ts

unfoldable pub set_action :
    {S E A : Type 0} → Keys S E → StateMachine S E A → S → Option A → StateMachine S E A
set_action keys sm state action = record sm {
  actions = λ s. if keys.same_state s state then action else sm.actions s;
}

unfoldable pub reset : {S E A : Type 0} → StateMachine S E A → S → StateMachine S E A
reset sm initial_state = record sm { current_state = initial_state; channels = sm.channels + 1 }

-- The first locked part of `handleEvent`.
unfoldable pub look_up : {S E A : Type 0} → StateMachine S E A → E → Option S
look_up sm event = sm.transitions sm.current_state event

-- The second locked part.
unfoldable pub commit : {S E A : Type 0} → StateMachine S E A → S → StateMachine S E A × Option A
commit sm next_state = (record sm { current_state = next_state }, sm.actions next_state)

-- `handleEvent` with no other operation between its two parts.
unfoldable pub handle_event : {S E A : Type 0} → StateMachine S E A → E → Handled S E A
unfolding look_up commit
handle_event sm event = elim (look_up sm event) [
  | none ↦ invalid_transition sm.current_state event
  | some next_state ↦ let (sm', action) = commit sm next_state in moved sm' action
]

-- The loop of `Start` over the events that it receives: it ends at the first invalid transition.
unfoldable pub run_events :
    {S E A : Type 0} → StateMachine S E A → List E → Option (StateMachine S E A)
unfolding handle_event
run_events sm [] = some sm
run_events sm (e ∷ es) = elim (handle_event sm e) [
  | invalid_transition s x ↦ none
  | moved sm' action ↦ run_events sm' es
]

-- What the `select` of `Start` may choose while it holds a pair of channels. A closed channel is
-- always ready, and a receive from it gives the nil event.
pub data Choice (E : Type 0) : Type 0 where
  event_received : E → Choice E
  restarted : Choice E

pub data Ready {S E A : Type 0} (nil_event : E) (sm : StateMachine S E A) (held : ℕ)
    : Choice E → Type 0 where
  sent : (e : E) → held ≡ sm.channels → Ready nil_event sm held (event_received e)
  event_channel_closed : held < sm.channels → Ready nil_event sm held (event_received nil_event)
  reset_channel_closed : held < sm.channels → Ready nil_event sm held restarted
