-- ===== src/Agent/States/Trace.antt =====
-- What must have happened when an agent runs a computation.
use session_bound_agent_iden.Common.{
  ◌⊎◌, inl, inr, Option-cases, ◌↔◌, Bool, true, false, none, some, List, [], ◌∷◌, if◌then◌else◌,
  ◌≡◌, ◌∙◌, sym, refl, ap, arith,
}
use mathlib.Core.Path.{subst}
use mathlib.Core.Option.{some-injective}
use session_bound_agent_iden.Agent.StateMachine.{handle_event, look_up, run_events}
use session_bound_agent_iden.Agent.States.{
  AgentState, AgentEvent, receiving_manifest, receiving_algorithm, receiving_data, running,
  consuming_results, complete, failed, manifest_received, algorithm_received, data_received,
  AgentMachine, Life,
}
use session_bound_agent_iden.Agent.States.Table.{
  agent_next, after_algorithm, after_data, HasTable, table_of_Life,
}

-- The states of the table that a sequence of events leads through.
pub data Way (ms : List Bool) : AgentState → List AgentEvent → AgentState → Type 0 where
  stay : {s : AgentState} → Way ms s [] s
  step :
      {s u : AgentState} {es : List AgentEvent} (e : AgentEvent) (t : AgentState)
      → agent_next ms s e ≡ some t
      → Way ms t es u
      → Way ms s (e ∷ es) u

run_events-Way :
    {A : Type 0} (ms : List Bool) (es : List AgentEvent) (sm sm' : AgentMachine A)
    → HasTable sm ms
    → run_events sm es ≡ some sm'
    → Way ms sm.current_state es sm'.current_state
unfolding run_events handle_event
run_events-Way ms [] sm sm' h r =
    subst (λ t. Way ms sm.current_state [] t.current_state) (some-injective _ _ r) stay
run_events-Way ms (e ∷ es) sm sm' h r = elim (Option-cases (sm.transitions sm.current_state e)) [
  | inl stuck ↦ absurd (ground arith)
  | inr (t, next) ↦ step e t (sym (h sm.current_state e) ∙ next) (
      run_events-Way ms es (record sm { current_state = t }) sm' h
        (rw (next, run_events, handle_event) at r))
]

is_over : AgentState → Bool
is_over consuming_results = true
is_over complete = true
is_over failed = true
is_over s = false

next_over :
    (ms : List Bool) (s t : AgentState) (e : AgentEvent)
    → is_over s ≡ true
    → agent_next ms s e ≡ some t
    → is_over t ≡ true
unfolding is_over agent_next
next_over ms s t e o n = ground arith

stays_over :
    (ms : List Bool) (es : List AgentEvent) (s u : AgentState)
    → is_over s ≡ true
    → Way ms s es u
    → is_over u ≡ true
stays_over ms es s u o stay = o
stays_over ms es s u o (step {es = rest} e t n w) =
    stays_over ms rest t u (next_over ms s t e o n) w

next_running :
    (ms : List Bool) (t : AgentState) (e : AgentEvent)
    → agent_next ms running e ≡ some t
    → is_over t ≡ true
unfolding is_over agent_next
next_running ms t e n = ground arith

-- What leads from one state to running, and no more.
from_running : (ms : List Bool) (es : List AgentEvent) → Way ms running es running → es ≡ []
unfolding is_over
from_running ms es stay = refl
from_running ms es (step {es = rest} e t n w) =
    let over = stays_over ms rest t running (next_running ms t e n) w in absurd (ground arith)

after_data-cases : (ms : List Bool) → (after_data ms ≡ none) ⊎ (after_data ms ≡ some running)
unfolding after_data
after_data-cases [] = inl refl
after_data-cases (true ∷ ms) = inr refl
after_data-cases (false ∷ ms) = after_data-cases ms

next_data :
    (ms : List Bool) (t : AgentState) (e : AgentEvent)
    → agent_next ms receiving_data e ≡ some t
    → (is_over t ≡ true) ⊎ ((t ≡ running) × (e ≡ data_received))
unfolding is_over agent_next
next_data ms t e n = let known = after_data-cases ms in ground arith

from_data :
    (ms : List Bool) (es : List AgentEvent)
    → Way ms receiving_data es running
    → es ≡ data_received ∷ []
unfolding is_over
from_data ms es (step {es = rest} e t n w) = elim (next_data ms t e n) [
  | inl over ↦ let o = stays_over ms rest t running over w in absurd (ground arith)
  | inr (on, last) ↦
      let done = from_running ms rest (subst (λ s. Way ms s rest running) on w) in ground arith
]

next_algorithm :
    (m : Bool) (ms : List Bool) (t : AgentState) (e : AgentEvent)
    → agent_next (m ∷ ms) receiving_algorithm e ≡ some t
    → (is_over t ≡ true)
      ⊎ ((t ≡ (if m then receiving_data else running)) × (e ≡ algorithm_received))
unfolding is_over agent_next after_algorithm
next_algorithm m ms t e n = ground arith

-- From the state that follows the algorithm.
after_start :
    (m : Bool) (ms : List Bool) (es : List AgentEvent)
    → Way (m ∷ ms) (if m then receiving_data else running) es running
    → es ≡ (if m then data_received ∷ [] else [])
after_start true ms es w = from_data (true ∷ ms) es w
after_start false ms es w = from_running (false ∷ ms) es w

from_algorithm :
    (m : Bool) (ms : List Bool) (es : List AgentEvent)
    → Way (m ∷ ms) receiving_algorithm es running
    → es ≡ algorithm_received ∷ (if m then data_received ∷ [] else [])
unfolding is_over
from_algorithm m ms es (step {es = rest} e t n w) = elim (next_algorithm m ms t e n) [
  | inl over ↦ let o = stays_over (m ∷ ms) rest t running over w in absurd (ground arith)
  | inr (on, first) ↦
      rw (first, after_start m ms rest (subst (λ s. Way (m ∷ ms) s rest running) on w)) refl
]

next_manifest :
    (ms : List Bool) (t : AgentState) (e : AgentEvent)
    → agent_next ms receiving_manifest e ≡ some t
    → (t ≡ receiving_algorithm) × (e ≡ manifest_received)
unfolding agent_next
next_manifest ms t e n = ground arith

from_manifest :
    (m : Bool) (ms : List Bool) (es : List AgentEvent)
    → Way (m ∷ ms) receiving_manifest es running
    → es ≡ manifest_received ∷ algorithm_received ∷ (if m then data_received ∷ [] else [])
from_manifest m ms es (step {es = rest} e t n w) =
    let (on, first) = next_manifest (m ∷ ms) t e n in
    rw (first, from_algorithm m ms rest (subst (λ s. Way (m ∷ ms) s rest running) on w)) refl

-- The events of a computation with this manifest, up to the run.
abbrev pub run_up : Bool → List AgentEvent
run_up m = manifest_received ∷ algorithm_received ∷ (if m then data_received ∷ [] else [])

run_step :
    {A : Type 0} (sm : AgentMachine A) (s t : AgentState) (e : AgentEvent) (es : List AgentEvent)
    → sm.transitions s e ≡ some t
    → run_events (record sm { current_state = s }) (e ∷ es)
      ≡ run_events (record sm { current_state = t }) es
unfolding run_events handle_event look_up
run_step sm s t e es h = rw (h, handle_event, look_up, run_events) refl

reaches_running :
    {A : Type 0} (m : Bool) (ms : List Bool) (sm : AgentMachine A)
    → HasTable sm (m ∷ ms)
    → run_events (record sm { current_state = receiving_manifest }) (run_up m)
      ≡ some (record sm { current_state = running })
unfolding run_events agent_next after_algorithm after_data
reaches_running true ms sm h =
    run_step sm receiving_manifest receiving_algorithm manifest_received
      (algorithm_received ∷ data_received ∷ []) (h receiving_manifest manifest_received)
    ∙ (run_step sm receiving_algorithm receiving_data algorithm_received (data_received ∷ [])
          (h receiving_algorithm algorithm_received)
        ∙ run_step sm receiving_data running data_received [] (h receiving_data data_received))
reaches_running false ms sm h =
    run_step sm receiving_manifest receiving_algorithm manifest_received (algorithm_received ∷ [])
      (h receiving_manifest manifest_received)
    ∙ run_step sm receiving_algorithm running algorithm_received []
        (h receiving_algorithm algorithm_received)

at_state :
    {A : Type 0} (sm : AgentMachine A) (s : AgentState)
    → sm.current_state ≡ s
    → sm ≡ record sm { current_state = s }
at_state sm s h = ap (λ t. record sm { current_state = t }) h

running_trace :
    {A : Type 0} (m : Bool) (ms : List Bool) (es : List AgentEvent) (sm sm' : AgentMachine A)
    → Life sm (m ∷ ms)
    → sm.current_state ≡ receiving_manifest
    → run_events sm es ≡ some sm'
    → sm'.current_state ≡ running
    → es ≡ run_up m
running_trace m ms es sm sm' l from r to =
    let w = run_events-Way (m ∷ ms) es sm sm' (table_of_Life l) r in
    from_manifest m ms es (
      subst (λ s. Way (m ∷ ms) s es running) from
        (subst (λ u. Way (m ∷ ms) sm.current_state es u) to w))

-- At any point of its life, an agent whose latest manifest is `m` gets from receiving the
-- manifest to running by exactly these events: the manifest, the algorithm and, if the manifest
-- has datasets, the last of them. What earlier manifests added changes nothing.
pub running_iff :
    {A : Type 0} (m : Bool) (ms : List Bool) (es : List AgentEvent) (sm : AgentMachine A)
    → Life sm (m ∷ ms)
    → sm.current_state ≡ receiving_manifest
    → ((sm' : AgentMachine A) × (run_events sm es ≡ some sm') × (sm'.current_state ≡ running))
      ↔ (es ≡ run_up m)
running_iff m ms es sm l from = (
  λ (sm', r, to). running_trace m ms es sm sm' l from r to,
  λ same. (
    record sm { current_state = running },
    rw same (
        ap (λ x. run_events x (run_up m)) (at_state sm receiving_manifest from)
        ∙ reaches_running m ms sm (table_of_Life l)),
    refl,
  ),
)
