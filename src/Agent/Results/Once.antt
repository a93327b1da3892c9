-- ===== src/Agent/Results/Once.antt =====
-- When `Result` succeeds, and that it ends the computation once.
use session_bound_agent_iden.Common.{
  ◌<◌, pos, negsuc, length, ℕ, true, false, ◌+◌, ◌≤◌, Option, none, some, List, [], ◌∷◌, ◌≡◌, ◌∙◌,
  refl, ◌↔◌, arith, Option-cases, inl, inr, ◌⊎◌,
}
use session_bound_agent_iden.Agent.States.{
  AgentState, consuming_results, complete, failed, idle, receiving_manifest, receiving_algorithm,
  receiving_data, running, AgentEvent,
}
use session_bound_agent_iden.Agent.Results.{
  ResultStore, ResultCall, ResultReply, is_result_state, result_of, run_results, consume,
  run_error_of,
}

-- How many replies send the event.
abbrev one_if_sent : Option AgentEvent → ℕ
one_if_sent none = 0
one_if_sent (some e) = 1

unfoldable pub sent_count : {E : Type 0} → List (ResultReply E) → ℕ
sent_count [] = 0
sent_count (r ∷ rs) = one_if_sent r.sent + sent_count rs

-- A call sends the event only if no call has, and then marks that.
sent_marks :
    {E : Type 0} (s : ResultStore E) (x : ResultCall)
    → ((result_of s x).1.sent ≡ none × (result_of s x).0.consumed ≡ s.consumed)
      ⊎ (s.consumed ≡ false × (result_of s x).0.consumed ≡ true)
unfolding result_of consume
sent_marks s x = ground arith

none_after :
    {E : Type 0} (xs : List ResultCall) (s : ResultStore E)
    → s.consumed ≡ true
    → sent_count (run_results s xs) ≡ 0
unfolding sent_count run_results
none_after [] s h = refl
none_after (x ∷ xs) s h =
    let marks = sent_marks s x in let rest = none_after xs (result_of s x).0 in ground arith

one_at_most : (sent : Option AgentEvent) → one_if_sent sent ≤ 1
one_at_most none = omega arith
one_at_most (some e) = omega arith

-- Over any sequence of calls of `Result`, whatever state each has read, the event that ends the
-- computation is sent at most once.
pub sent_once :
    {E : Type 0} (xs : List ResultCall) (s : ResultStore E) → sent_count (run_results s xs) ≤ 1
unfolding sent_count run_results
sent_once [] s = omega arith
sent_once (x ∷ xs) s =
    let rest = sent_once xs (result_of s x).0 in
    let after = none_after xs (result_of s x).0 in
    let first = one_at_most (result_of s x).1.sent in
    elim (sent_marks s x) [
      | inl (quiet, same) ↦ rw quiet (omega arith)
      | inr (free, marked) ↦ let none_left = after marked in ground arith
    ]

-- The states that have a result: it is being fetched, was fetched, or the run failed.
pub data HasResult : AgentState → Type 0 where
  fetching : HasResult consuming_results
  fetched : HasResult complete
  broken : HasResult failed

-- The caller may have the result: it asks in a state that has one, and its index is the place of a
-- declared consumer.
pub record MayFetch {E : Type 0} (s : ResultStore E) (x : ResultCall) : Type 0 where
  pub state_ready : HasResult x.current_state
  pub place : ℕ
  pub given : x.index ≡ some (pos place)
  pub declared : place < length s.result_consumers

HasResult-of : (t : AgentState) → is_result_state t ≡ true → HasResult t
HasResult-of consuming_results h = fetching
HasResult-of complete h = fetched
HasResult-of failed h = broken
HasResult-of idle h = cc
HasResult-of receiving_manifest h = cc
HasResult-of receiving_algorithm h = cc
HasResult-of receiving_data h = cc
HasResult-of running h = cc

is_result_state_of : (t : AgentState) → HasResult t → is_result_state t ≡ true
is_result_state_of _ fetching = refl
is_result_state_of _ fetched = refl
is_result_state_of _ broken = refl

result_sound :
    {E : Type 0} (s : ResultStore E) (x : ResultCall)
    → (result_of s x).1.err ≡ none
    → MayFetch s x × (s.run_error ≡ none)
unfolding result_of consume run_error_of
result_sound s x h = elim (Option-cases x.index) [
  | inl missing ↦ absurd (ground arith)
  | inr (negsuc n, given) ↦ absurd (ground arith)
  | inr (pos n, given) ↦ (
    record {
      state_ready = HasResult-of x.current_state (ground arith);
      place = n;
      given = given;
      declared = ground arith;
    },
    ground arith,
  )
]

result_complete :
    {E : Type 0} (s : ResultStore E) (x : ResultCall)
    → MayFetch s x
    → ((result_of s x).1.err ≡ run_error_of s.run_error) × ((result_of s x).1.result ≡ s.result)
unfolding result_of consume
result_complete s x f =
    let ready = is_result_state_of x.current_state f.state_ready in
    let declared = f.declared in rw f.given (ground arith)

-- `Result` returns no error exactly when the caller may have the result and the run had no error.
pub result_iff :
    {E : Type 0} (s : ResultStore E) (x : ResultCall)
    → ((result_of s x).1.err ≡ none) ↔ (MayFetch s x × (s.run_error ≡ none))
unfolding run_error_of
result_iff s x =
    (result_sound s x, λ (f, clean). (result_complete s x f).0 ∙ rw (clean, run_error_of) refl)
