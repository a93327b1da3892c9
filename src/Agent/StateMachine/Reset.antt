-- ===== src/Agent/StateMachine/Reset.antt =====
-- agent/statemachine/state.go: `Reset` between the two locked parts of `handleEvent`, and while
-- `Start` waits.
use session_bound_agent_iden.Agent.StateMachine.Loop.{
  Status, Step, Run, waiting, failed_at, channels_read, event_handled, event_refused,
  loop_restarted, context_done, machine_reset, transition_added, action_set, here, next,
}
use session_bound_agent_iden.Common.{
  none, some, ◌≡◌, ◌≢◌, inl, inr, Option-cases, sym, ap, ◌∙◌, refl, arith,
}
use session_bound_agent_iden.Agent.StateMachine.{
  StateMachine, reset, look_up, commit, handle_event, moved, invalid_transition,
  event_channel_closed,
}

-- The state after a whole `handleEvent`: an invalid transition leaves it.
pub state_after : {S E A : Type 0} → StateMachine S E A → E → S
unfolding handle_event
state_after sm event = elim (handle_event sm event) [
  | moved sm' action ↦ sm'.current_state
  | invalid_transition s e ↦ sm.current_state
]

module _ {S E A : Type 0} (sm : StateMachine S E A) (initial_state : S) where
  -- Where `handleEvent` looks up a next state, other than the one given to `Reset` and not that of
  -- the same event there, and `Reset` comes before its second lock, the machine ends in the next
  -- state, which neither order of the two whole calls gives.
  pub reset_not_serial :
      (event : E) (next_state : S)
      → look_up sm event ≡ some next_state
      → next_state ≢ initial_state
      → look_up (reset sm initial_state) event ≢ some next_state
      → ((commit (reset sm initial_state) next_state).0.current_state ≡ next_state)
        × (state_after sm event ≡ next_state)
        × ((reset (commit sm next_state).0 initial_state).current_state ≢ next_state)
        × (state_after (reset sm initial_state) event ≢ next_state)
  unfolding commit reset state_after handle_event look_up
  reset_not_serial event next_state h other apart = (
    refl,
    rw (h, handle_event, look_up, state_after) refl,
    λ same. other (sym same),
    λ same. elim (Option-cases (sm.transitions initial_state event)) [
      | inl stuck ↦ other (sym (rw (stuck, handle_event, look_up, state_after) at same))
      | inr (t, found) ↦
          apart (found ∙ ap some (rw (found, handle_event, look_up, state_after) at same))
    ],
  )

module _ {S E A : Type 0} {nil_event : E} where
  -- No step leads out of a `Start` that returned with an error.
  Step-from_failed :
      {sm sm' : StateMachine S E A} {x y : Status S E} {s : S} {e : E}
      → Step nil_event sm x sm' y
      → x ≡ failed_at s e
      → y ≡ failed_at s e
  Step-from_failed channels_read h = cc
  Step-from_failed (event_handled e ready moves) h = cc
  Step-from_failed (event_refused e ready refuses) h = cc
  Step-from_failed (loop_restarted ready) h = cc
  Step-from_failed context_done h = cc
  Step-from_failed (machine_reset initial_state) h = h
  Step-from_failed (transition_added keys t) h = h
  Step-from_failed (action_set keys state action) h = h

  Run-from_failed :
      {sm : StateMachine S E A} {x : Status S E} {s : S} {e : E} {sm' : StateMachine S E A}
      {y : Status S E}
      → Run nil_event sm x sm' y
      → x ≡ failed_at s e
      → y ≡ failed_at s e
  Run-from_failed here h = h
  Run-from_failed (next r st) h = Step-from_failed st (Run-from_failed r h)

  append-Run :
      {sm sm' : StateMachine S E A} {x y : Status S E} {sm'' : StateMachine S E A} {z : Status S E}
      → Run nil_event sm x sm' y
      → Run nil_event sm' y sm'' z
      → Run nil_event sm x sm'' z
  append-Run r here = r
  append-Run r (next q st) = next (append-Run r q) st

  -- Where no transition leaves the initial state on the nil event, `Reset` may stop a `Start` that
  -- waits for events: it may return the error of an invalid transition, and whatever steps come
  -- after that, further resets included, it has then returned and handles no event.
  pub reset_may_stop :
      (sm sm' : StateMachine S E A) (initial_state : S) (y : Status S E)
      → sm.transitions initial_state nil_event ≡ none
      → Run nil_event (reset sm initial_state) (failed_at initial_state nil_event) sm' y
      → Run nil_event sm (waiting sm.channels) sm' y × (y ≡ failed_at initial_state nil_event)
  unfolding reset handle_event look_up
  reset_may_stop sm sm' initial_state y h later =
      let closed = event_channel_closed (omega arith) in
      let refused = event_refused nil_event closed (rw (h, handle_event, look_up) refl) in
      (
        append-Run (next (next here (machine_reset initial_state)) refused) later,
        Run-from_failed later refl,
      )
