-- ===== src/IdentityPolicy/Replay.antt =====
-- Replay caches of pkg/atls/identitypolicy: the interface of session_binding.go, the in-process
-- cache of replay_cache.go and the shared one of setnx_replay_cache.go. The clock's reading is an
-- argument of each call. The lock makes the calls on one cache a sequence.
pub mod Memory
pub mod SetNx
use session_bound_agent_iden.Common.{
  String, ℕ, Bool, true, false, not, ◌&&◌, Option, none, some, List, [], ◌∷◌, if◌then◌else◌, ltb,
  ◌==◌, Result, ok, err,
}
use session_bound_agent_iden.GoString.{Bytes, bytes_eq, is_blank}
use session_bound_agent_iden.GoTime.{Time, is_zero, after, sub}
use session_bound_agent_iden.IdentityPolicy.Errors.{
  Cause, nested, sentinel, Err, missing_binding, expired_assertion, replay_detected,
  missing_set_nx_store, replay_store_failed,
}

-- A cache with states `S`: `MarkUsed` gives the new state and an error, or none on acceptance.
pub record ReplayCache (S : Type 0) : Type 0 where
  pub mark_used : S → Bytes → Time → S × Option Cause

abbrev pub session_error : String → Err → Cause
session_error field e = nested "session_binding" field (sentinel e)

-- The map `seen` from keys to expiry times.
pub record MemoryReplayCache : Type 0 where
  pub seen : Bytes → Option Time

abbrev pub new_memory_replay_cache : MemoryReplayCache
new_memory_replay_cache = record { seen = λ key. none }

-- The test under which the loop of `MarkUsed` deletes an entry.
abbrev is_stale : Time → Time → Bool
is_stale now expires_at = not (is_zero expires_at) && not (is_zero now) && after now expires_at

pub drop_stale : Time → Option Time → Option Time
drop_stale now none = none
drop_stale now (some expires_at) = if is_stale now expires_at then none else some expires_at

purge : Time → (Bytes → Option Time) → Bytes → Option Time
unfolding drop_stale
purge now seen key = drop_stale now (seen key)

abbrev pub put : Bytes → Time → (Bytes → Option Time) → Bytes → Option Time
put key expires_at seen k = if bytes_eq k key then some expires_at else seen k

-- The checks of `MarkUsed` before it takes the lock.
check_expiry : Bytes → Time → Time → Option Cause
check_expiry key now expires_at =
    if is_blank key
    then some (session_error "nonce" missing_binding)
    else if is_zero expires_at
    then some (session_error "expires_at" missing_binding)
    else if not (is_zero now) && after now expires_at
    then some (session_error "expires_at" expired_assertion)
    else none

-- Under the lock.
record_key : Time → MemoryReplayCache → Bytes → Time → MemoryReplayCache × Option Cause
unfolding purge
record_key now c key expires_at =
    let seen = purge now c.seen in
    elim (seen key) [
      | some _ ↦ (record { seen = seen }, some (sentinel replay_detected))
      | none ↦ (record { seen = put key expires_at seen }, none)
    ]

unfoldable pub memory_mark_used :
    Time → MemoryReplayCache → Bytes → Time → MemoryReplayCache × Option Cause
unfolding check_expiry record_key
memory_mark_used now c key expires_at = elim (check_expiry key now expires_at) [
  | some e ↦ (c, some e)
  | none ↦ record_key now c key expires_at
]

-- A call of `MarkUsed`, with the reading of the clock that it makes.
pub record Call : Type 0 where
  pub now : Time
  pub key : Bytes
  pub expires_at : Time

-- The calls on one cache, in the order in which they take its lock, each with its result.
pub run_calls : MemoryReplayCache → List Call → List (Call × Option Cause)
unfolding memory_mark_used
run_calls c [] = []
run_calls c (x ∷ xs) =
    let (c', e) = memory_mark_used x.now c x.key x.expires_at in (x, e) ∷ run_calls c' xs

-- A nil `*MemoryReplayCache` accepts every key.
unfoldable pub memory_cache : Time → ReplayCache (Option MemoryReplayCache)
unfolding memory_mark_used
memory_cache now = record {
  mark_used = λ c key expires_at. elim c [
    | none ↦ (none, none)
    | some m ↦ let (m', e) = memory_mark_used now m key expires_at in (some m', e)
  ];
}

-- A store that the deployment supplies: `SetNX` fails, or says whether it recorded the key.
pub record SetNxStore (S : Type 0) : Type 0 where
  pub set_nx : S → Bytes → ℕ → S × Result (Unit {0}) Bool

set_nx_answer : Result (Unit {0}) Bool → Option Cause
set_nx_answer (err _) = some (session_error "nonce" replay_store_failed)
set_nx_answer (ok false) = some (sentinel replay_detected)
set_nx_answer (ok true) = none

-- The call of the store with the remaining lifetime.
call_store : {S : Type 0} → SetNxStore S → Time → S → Bytes → Time → S × Option Cause
unfolding set_nx_answer sub
call_store store now s key expires_at =
    let ttl = sub expires_at now in
    let (s', answer) = store.set_nx s key ttl in
    if ttl == 0
    then (s, some (session_error "expires_at" expired_assertion))
    else (s', set_nx_answer answer)

-- `SetNXReplayCache`: its store, or nil. The clock reading is an argument of `MarkUsed`.
pub record SetNxReplayCache (S : Type 0) : Type 0 where
  pub store : Option (SetNxStore S)

-- A nil `*SetNXReplayCache` accepts every key.
unfoldable pub set_nx_mark_used :
    {S : Type 0} → Option (SetNxReplayCache S) → Time → S → Bytes → Time → S × Option Cause
unfolding check_expiry call_store
set_nx_mark_used none now s key expires_at = (s, none)
set_nx_mark_used (some c) now s key expires_at = elim c.store [
  | none ↦ (s, some (session_error "nonce" missing_set_nx_store))
  | some store ↦ elim (check_expiry key now expires_at) [
    | some e ↦ (s, some e)
    | none ↦ call_store store now s key expires_at
  ]
]

-- `NewSetNXReplayCacheWithClock`, as the cache that callers use.
unfoldable pub set_nx_cache : {S : Type 0} → Option (SetNxStore S) → Time → ReplayCache S
unfolding set_nx_mark_used
set_nx_cache store now = record {
  mark_used = set_nx_mark_used (some (record { store = store })) now;
}
