-- ===== src/IdentityPolicy/Replay/Memory.antt =====
-- The in-process replay cache accepts a key once during its lifetime.
use session_bound_agent_iden.Common.{
  ◌≡◌, ◌∙◌, ◌≢◌, ◌↔◌, ◌⊎◌, inl, inr, ◌≤◌, ◌<◌, false, Option, none, some, List, [], ◌∷◌, arith, All,
  if◌then◌else◌, Option-cases,
}
use session_bound_agent_iden.GoString.{Bytes, bytes_eq, is_blank}
use session_bound_agent_iden.GoString.Laws.{bytes_eq_iff, bytes_eq_refl}
use session_bound_agent_iden.GoTime.{Time}
use session_bound_agent_iden.IdentityPolicy.Errors.{Cause}
use session_bound_agent_iden.IdentityPolicy.Replay.{
  MemoryReplayCache, memory_mark_used, Call, run_calls, drop_stale,
}

-- The key is not empty, its expiry is present and not past, and the cache
-- holds no entry for it that is still live.
pub record Fresh (now : Time) (c : MemoryReplayCache) (key : Bytes) (expires_at : Time)
    : Type 0 where
  pub key_some : is_blank key ≡ false
  pub expiry_some : expires_at ≢ 0
  pub not_expired : now ≢ 0 → now ≤ expires_at
  pub unused :
      (c.seen key ≡ none) ⊎ ((e : Time) × (c.seen key ≡ some e) × (e ≢ 0) × (now ≢ 0) × (e < now))

memory_accepts :
    (now : Time) (c : MemoryReplayCache) (key : Bytes) (expires_at : Time)
    → (memory_mark_used now c key expires_at).1 ≡ none
    → Fresh now c key expires_at
unfolding memory_mark_used
memory_accepts now c key expires_at h = elim (Option-cases (c.seen key)) [
  | inl unused ↦ record {
    key_some = ground arith;
    expiry_some = ground arith;
    not_expired = ground arith;
    unused = inl unused;
  }
  | inr (e, old) ↦ record {
    key_some = ground arith;
    expiry_some = ground arith;
    not_expired = ground arith;
    unused = inr (e, old, ground arith, ground arith, ground arith);
  }
]

memory-Fresh :
    (now : Time) (c : MemoryReplayCache) (key : Bytes) (expires_at : Time)
    → Fresh now c key expires_at
    → (memory_mark_used now c key expires_at).1 ≡ none
unfolding memory_mark_used
memory-Fresh now c key expires_at f = ground (arith, f.unused)

-- `MarkUsed` accepts exactly a non-empty key with a live expiry that is not held already.
pub memory_mark_used_iff :
    (now : Time) (c : MemoryReplayCache) (key : Bytes) (expires_at : Time)
    → ((memory_mark_used now c key expires_at).1 ≡ none) ↔ Fresh now c key expires_at
memory_mark_used_iff now c key expires_at =
    (memory_accepts now c key expires_at, memory-Fresh now c key expires_at)

-- What an accepting call leaves in the cache: an accepted key is recorded with its expiry, and each other
-- entry stays unless it was stale.
pub seen-mark_used :
    (now : Time) (c : MemoryReplayCache) (key : Bytes) (expires_at : Time) (k : Bytes)
    → (memory_mark_used now c key expires_at).1 ≡ none
    → (memory_mark_used now c key expires_at).0.seen k
      ≡ (if bytes_eq k key then some expires_at else drop_stale now (c.seen k))
unfolding memory_mark_used
seen-mark_used now c key expires_at k h = ground arith

-- An entry is kept by every call at a time that has not passed its expiry.
pub mark_used_keeps :
    (now : Time) (c : MemoryReplayCache) (key : Bytes) (expires_at : Time) (k : Bytes) (e : Time)
    → c.seen k ≡ some e
    → now ≤ e
    → (memory_mark_used now c key expires_at).0.seen k ≡ some e
unfolding memory_mark_used
mark_used_keeps now c key expires_at k e h le = ground (arith, bytes_eq_iff k key)

-- A call on a held key is refused.
pub held_refused :
    (now : Time) (c : MemoryReplayCache) (key : Bytes) (expires_at e : Time)
    → c.seen key ≡ some e
    → now ≤ e
    → (memory_mark_used now c key expires_at).1 ≢ none
unfolding memory_mark_used
held_refused now c key expires_at e h le = ground arith

-- The result of a call on the key is an error.
abbrev pub Refused : Bytes → Call × Option Cause → Type 0
Refused key r = r.0.key ≡ key → r.1 ≢ none

run_calls-Refused :
    (c : MemoryReplayCache) (key : Bytes) (e : Time) (calls : List Call)
    → c.seen key ≡ some e
    → All (λ x. x.now ≤ e) calls
    → All (Refused key) (run_calls c calls)
unfolding run_calls
run_calls-Refused c key e [] h l = tt
run_calls-Refused c key e (x ∷ xs) h (le, l) = (
  λ same. held_refused x.now c x.key x.expires_at e (rw same h) le,
  run_calls-Refused (memory_mark_used x.now c x.key x.expires_at).0 key e xs
      (mark_used_keeps x.now c x.key x.expires_at key e h le) l,
)

-- Once a key is accepted, every later call on it is refused, whatever expiry it claims and
-- whatever other calls come between, as long as no clock reading passes the accepted expiry.
pub accepted_once :
    (now : Time) (c : MemoryReplayCache) (key : Bytes) (expires_at : Time) (calls : List Call)
    → (memory_mark_used now c key expires_at).1 ≡ none
    → All (λ x. x.now ≤ expires_at) calls
    → All (Refused key) (run_calls (memory_mark_used now c key expires_at).0 calls)
accepted_once now c key expires_at calls h l =
    run_calls-Refused (memory_mark_used now c key expires_at).0 key expires_at calls
      (seen-mark_used now c key expires_at key h ∙ rw bytes_eq_refl) l
