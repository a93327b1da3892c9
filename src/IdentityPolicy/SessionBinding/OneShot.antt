-- ===== src/IdentityPolicy/SessionBinding/OneShot.antt =====
-- The whole check of a statement, the replay cache included: what it accepts, when it asks the
-- cache, and that no statement is accepted twice during its lifetime.
use session_bound_agent_iden.Common.{
  ◌≡◌, refl, sym, ◌∙◌, ◌≢◌, ◌↔◌, inl, inr, ◌≤◌, Option, none, some, List, [], ◌∷◌, arith, All,
  Option-cases, ok, ap,
}
use session_bound_agent_iden.GoString.{Bytes}
use session_bound_agent_iden.GoString.Laws.{bytes_eq_refl}
use session_bound_agent_iden.GoTime.{Time}
use session_bound_agent_iden.IdentityPolicy.Errors.{as_error}
use session_bound_agent_iden.IdentityPolicy.Errors.Laws.{as_error_nil}
use session_bound_agent_iden.IdentityPolicy.Values.{Assertion}
use session_bound_agent_iden.IdentityPolicy.Replay.{
  ReplayCache, MemoryReplayCache, memory_cache, memory_mark_used, Call,
}
use session_bound_agent_iden.IdentityPolicy.Replay.Memory.{
  seen-mark_used, mark_used_keeps, held_refused,
}
use session_bound_agent_iden.IdentityPolicy.SessionBinding.{
  VerifiedGrant, Statement, statement_errors, validate_statement, mark_session_binding_used,
  replay_key, new_assertion,
}
use session_bound_agent_iden.IdentityPolicy.SessionBinding.Authorized.{
  Authorized, statement_errors_iff,
}
use session_bound_agent_iden.IdentityPolicy.SessionBinding.ReplayKey.{
  SameUse, replay_key_of_SameUse,
}

-- Whether the cache, if there is one, accepts the statement's key.
abbrev pub CacheAccepts : {S : Type 0} → Option (ReplayCache S) → S → Statement → Type 0
CacheAccepts none c s = Unit
CacheAccepts (some cache) c s = (cache.mark_used c (replay_key s) s.binding.expires_at).1 ≡ none

mark_iff :
    {S : Type 0} (cache : Option (ReplayCache S)) (c : S) (s : Statement)
    → ((mark_session_binding_used cache c s).1 ≡ none) ↔ CacheAccepts cache c s
unfolding mark_session_binding_used
mark_iff none c s = (λ h. tt, λ h. refl)
mark_iff (some cache) c s = (λ h. ground arith, λ h. ground arith)

module _ {S : Type 0} (g : VerifiedGrant) (s : Statement) (now : Time)
    (cache : Option (ReplayCache S)) (c : S) where
  errors_none : Authorized g s now → as_error (statement_errors g s now) ≡ none
  errors_none a = rw ((statement_errors_iff g s now).1 a)

  validate_statement_sound :
      (validate_statement g s now cache c).1 ≡ none → Authorized g s now × CacheAccepts cache c s
  unfolding validate_statement
  validate_statement_sound h = elim (Option-cases (as_error (statement_errors g s now))) [
    | inl clean ↦ (
      (statement_errors_iff g s now).0 (as_error_nil _ clean),
      (mark_iff cache c s).0 (rw (clean, validate_statement) at h),
    )
    | inr (e, found) ↦ absurd (ground arith)
  ]

  -- A statement is accepted exactly when the grant authorizes it and the replay cache, if there
  -- is one, accepts its key.
  pub validate_statement_iff :
      ((validate_statement g s now cache c).1 ≡ none)
      ↔ (Authorized g s now × CacheAccepts cache c s)
  unfolding validate_statement
  validate_statement_iff = (
    validate_statement_sound,
    λ a. rw (errors_none a.0, validate_statement) ((mark_iff cache c s).1 a.1),
  )

  -- A statement that the grant does not authorize never reaches the replay cache, so it burns no
  -- nonce: if the cache's state changes, the statement is authorized.
  pub unauthorized_keeps_cache : (validate_statement g s now cache c).0 ≢ c → Authorized g s now
  unfolding validate_statement
  unauthorized_keeps_cache h = elim (Option-cases (as_error (statement_errors g s now))) [
    | inl clean ↦ (statement_errors_iff g s now).0 (as_error_nil _ clean)
    | inr (e, found) ↦ absurd (h (rw (found, validate_statement)))
  ]

  -- An assertion is returned only for an accepted statement, and carries the grant's issuer and
  -- values and the statement's binding.
  pub new_assertion_sound :
      (a : Assertion)
      → (new_assertion g s now cache c).1 ≡ ok a
      → (a.issuer ≡ g.issuer)
        × (a.values ≡ g.values)
        × (a.binding ≡ s.binding)
        × Authorized g s now
        × CacheAccepts cache c s
  unfolding new_assertion
  new_assertion_sound a h = elim (Option-cases (validate_statement g s now cache c).1) [
    | inl accepted ↦
        let (auth, cached) = validate_statement_sound accepted in
        let e : record { issuer = g.issuer; values = g.values; binding = s.binding } ≡ a =
          ground arith in
        (
          ap (λ x. x.issuer) (sym e),
          ap (λ x. x.values) (sym e),
          ap (λ x. x.binding) (sym e),
          auth,
          cached,
        )
    | inr (x, refused) ↦ absurd (ground arith)
  ]

-- Calls of `MarkUsed` on a shared in-process cache by other requests, each with its clock reading.
pub after_calls : Option MemoryReplayCache → List Call → Option MemoryReplayCache
after_calls c [] = c
after_calls c (x ∷ xs) = after_calls ((memory_cache x.now).mark_used c x.key x.expires_at).0 xs

-- The cache holds the key with this expiry.
abbrev Holds : Option MemoryReplayCache → Bytes → Time → Type 0
Holds none key e = ⊥
Holds (some m) key e = m.seen key ≡ some e

Holds-after_calls :
    (c : Option MemoryReplayCache) (key : Bytes) (e : Time) (calls : List Call)
    → Holds c key e
    → All (λ x. x.now ≤ e) calls
    → Holds (after_calls c calls) key e
unfolding after_calls memory_cache
Holds-after_calls c key e [] h l = h
Holds-after_calls none key e (x ∷ xs) h l = absurd h
Holds-after_calls (some m) key e (x ∷ xs) h (le, l) =
    Holds-after_calls (some (memory_mark_used x.now m x.key x.expires_at).0) key e xs
      (mark_used_keeps x.now m x.key x.expires_at key e h le) l

accepted-Holds :
    (clock : Time) (m : MemoryReplayCache) (s : Statement)
    → CacheAccepts (some (memory_cache clock)) (some m) s
    → Holds
        ((memory_cache clock).mark_used (some m) (replay_key s) s.binding.expires_at).0
        (replay_key s)
        s.binding.expires_at
unfolding memory_cache
accepted-Holds clock m s h =
    seen-mark_used clock m (replay_key s) s.binding.expires_at (replay_key s) h
    ∙ rw (bytes_eq_refl (replay_key s))

held-CacheAccepts :
    (clock : Time) (c : Option MemoryReplayCache) (t : Statement) (key : Bytes) (e : Time)
    → Holds c key e
    → clock ≤ e
    → replay_key t ≡ key
    → ¬ CacheAccepts (some (memory_cache clock)) c t
unfolding memory_cache
held-CacheAccepts clock none t key e h le same = absurd h
held-CacheAccepts clock (some m) t key e h le same =
    held_refused clock m (replay_key t) t.binding.expires_at e (rw same h) le

mark_state :
    {S : Type 0} (cache : ReplayCache S) (c : S) (s : Statement)
    → (mark_session_binding_used (some cache) c s).0
      ≡ (cache.mark_used c (replay_key s) s.binding.expires_at).0
unfolding mark_session_binding_used
mark_state cache c s = ground arith

state_after_accept :
    (g : VerifiedGrant) (s : Statement) (now clock : Time) (c : Option MemoryReplayCache)
    → (validate_statement g s now (some (memory_cache clock)) c).1 ≡ none
    → (validate_statement g s now (some (memory_cache clock)) c).0
      ≡ ((memory_cache clock).mark_used c (replay_key s) s.binding.expires_at).0
unfolding validate_statement
state_after_accept g s now clock c h = elim (Option-cases (as_error (statement_errors g s now))) [
  | inl clean ↦ rw (clean, validate_statement) (mark_state (memory_cache clock) c s)
  | inr (e, found) ↦ absurd (ground arith)
]

-- A statement accepted with an in-process cache is not accepted again, nor is another statement
-- with the same grant hash, audience, exporter, request context and nonce, under any grant: until a
-- clock reading passes the accepted expiry, whatever other calls come between.
pub accepted_statement_once :
    (g h : VerifiedGrant) (s t : Statement) (now later clock clock' : Time) (m : MemoryReplayCache)
    (calls : List Call)
    → (validate_statement g s now (some (memory_cache clock)) (some m)).1 ≡ none
    → SameUse t s
    → All (λ x. x.now ≤ s.binding.expires_at) calls
    → clock' ≤ s.binding.expires_at
    → (validate_statement h t later
        (some (memory_cache clock'))
        (after_calls (validate_statement g s now (some (memory_cache clock)) (some m)).0 calls)).1
      ≢ none
accepted_statement_once g h s t now later clock clock' m calls accepted same before le again =
    let (_, cached) =
      validate_statement_sound g s now (some (memory_cache clock)) (some m) accepted in
    let held = accepted-Holds clock m s cached in
    let (_, cached') =
      validate_statement_sound h t later (some (memory_cache clock'))
        (after_calls (validate_statement g s now (some (memory_cache clock)) (some m)).0 calls)
        again in
    held-CacheAccepts clock' _ t (replay_key s) s.binding.expires_at
      (Holds-after_calls _ (replay_key s) s.binding.expires_at calls
        (rw (state_after_accept g s now clock (some m) accepted) held) before)
      le (replay_key_of_SameUse t s same) cached'
