-- ===== src/IdentityPolicy/SessionBinding/Tests.antt =====
-- Tests of the session-binding check and its replay cache, and their theorems at concrete inputs.
use session_bound_agent_iden.Common.{
  ◌⊎◌, ◌≡◌, refl, ◌≢◌, ◌↔◌, Bool, true, false, Option, none, some, List, [], ◌∷◌, arith, ok, not,
}
use session_bound_agent_iden.GoString.{bytes}
use session_bound_agent_iden.IdentityPolicy.Errors.{
  aggregate, validation_error, unauthorized_binding_key,
}
use session_bound_agent_iden.IdentityPolicy.Values.{Assertion}
use session_bound_agent_iden.IdentityPolicy.Policy.Tests.{agent_values, session, policy_code}
use session_bound_agent_iden.IdentityPolicy.Policy.{lifetime_errors}
use session_bound_agent_iden.IdentityPolicy.Replay.{
  SetNxReplayCache, ReplayCache, MemoryReplayCache, new_memory_replay_cache, memory_cache,
  memory_mark_used, Call, SetNxStore, set_nx_mark_used,
}
use session_bound_agent_iden.IdentityPolicy.Replay.SetNx.{Recorded, set_nx_mark_used_iff}
use session_bound_agent_iden.IdentityPolicy.SessionBinding.{
  VerifiedGrant, Statement, statement_errors, validate_statement, allows_binding_key, new_assertion,
  has_binding_key, validate_grant_values, validate_endpoint_keys, validate_grant_lifetime,
  validate_statement_binding,
}
use session_bound_agent_iden.IdentityPolicy.SessionBinding.Authorized.{
  Authorized, statement_errors_iff,
}
use session_bound_agent_iden.IdentityPolicy.SessionBinding.ReplayKey.{SameUse, replay_key_injective}
use session_bound_agent_iden.IdentityPolicy.SessionBinding.OneShot.{
  CacheAccepts, validate_statement_iff, unauthorized_keeps_cache, new_assertion_sound, after_calls,
  accepted_statement_once,
}

unfoldable pub binding_code : Unit {0}
unfolding policy_code validate_statement statement_errors validate_grant_values
    validate_endpoint_keys validate_grant_lifetime validate_statement_binding lifetime_errors
    allows_binding_key has_binding_key new_assertion memory_cache
binding_code = tt

abbrev pub grant : VerifiedGrant
grant = record {
  issuer = bytes "manager";
  issuer_key = bytes "key-m";
  audience = bytes "verifier";
  grant_hash = bytes "hash";
  values = agent_values;
  confirmation_key = bytes "key-a";
  authorized_endpoint_keys = bytes "key-e" ∷ [];
  issued_at = 5;
  expires_at = 50;
}

abbrev pub statement : Statement
statement = record {
  grant_hash = bytes "hash";
  audience = bytes "verifier";
  signer_key = bytes "key-e";
  binding = session;
}

abbrev pub empty_cache : Option MemoryReplayCache
empty_cache = some new_memory_replay_cache

statement_accepted : (validate_statement grant statement 15 none tt).1 ≡ none
unfolding binding_code
statement_accepted = refl

statement_cached :
    (validate_statement grant statement 15 (some (memory_cache 15)) empty_cache).1 ≡ none
unfolding binding_code
statement_cached = refl

issuer_refused :
    (validate_statement grant (record statement { signer_key = bytes "key-m" }) 15 none tt).1
    ≡ some (
        aggregate
          (some (validation_error "session_binding" "signer_key" unauthorized_binding_key) ∷ []))
unfolding binding_code
issuer_refused = refl

statement_clean : statement_errors grant statement 15 ≡ []
unfolding binding_code
statement_clean = refl

statement-Authorized : Authorized grant statement 15
statement-Authorized = (statement_errors_iff grant statement 15).0 statement_clean

statement_errors_iff_example :
    (statement_errors grant statement 15 ≡ []) ↔ Authorized grant statement 15
statement_errors_iff_example = statement_errors_iff grant statement 15

replay_key_injective_example : SameUse statement statement
replay_key_injective_example = replay_key_injective statement-Authorized statement-Authorized refl

validate_statement_iff_example :
    ((validate_statement grant statement 15 (some (memory_cache 15)) empty_cache).1 ≡ none)
    ↔ (Authorized grant statement 15 × CacheAccepts (some (memory_cache 15)) empty_cache statement)
validate_statement_iff_example =
    validate_statement_iff grant statement 15 (some (memory_cache 15)) empty_cache

abbrev assertion : Assertion
assertion = record { issuer = bytes "manager"; values = agent_values; binding = session }

assertion_made :
    (new_assertion grant statement 15 (some (memory_cache 15)) empty_cache).1 ≡ ok assertion
unfolding binding_code
assertion_made = refl

new_assertion_sound_example :
    (assertion.issuer ≡ grant.issuer)
    × (assertion.values ≡ grant.values)
    × (assertion.binding ≡ statement.binding)
    × Authorized grant statement 15
    × CacheAccepts (some (memory_cache 15)) empty_cache statement
new_assertion_sound_example =
    new_assertion_sound grant statement 15 (some (memory_cache 15)) empty_cache assertion
      assertion_made

-- A cache that remembers whether it was asked.
abbrev asked_cache : ReplayCache Bool
asked_cache = record { mark_used = λ asked key expires_at. (true, none) }

cache_asked : (validate_statement grant statement 15 (some asked_cache) false).0 ≢ false
unfolding binding_code
cache_asked e = cc

unauthorized_keeps_cache_example : Authorized grant statement 15
unauthorized_keeps_cache_example =
    unauthorized_keeps_cache grant statement 15 (some asked_cache) false cache_asked

abbrev other_calls : List Call
other_calls = record { now = 16; key = bytes "k"; expires_at = 30 } ∷ []

accepted_statement_once_example :
    (validate_statement grant statement 17 (some (memory_cache 17)) (
      after_calls
        (validate_statement grant statement 15 (some (memory_cache 15)) empty_cache).0
        other_calls)).1
    ≢ none
accepted_statement_once_example =
    accepted_statement_once grant grant statement statement 15 17 15 17 new_memory_replay_cache
      other_calls statement_cached
      (record { grant_hash = refl; audience = refl; exporter = refl; context = refl; nonce = refl })
      (omega arith) (omega arith)

first_use : (memory_mark_used 15 new_memory_replay_cache (bytes "k") 20).1 ≡ none
unfolding binding_code
first_use = refl

-- A store with one slot.
abbrev slot : SetNxStore Bool
slot = record { set_nx = λ used key ttl. (true, ok (not used)) }

abbrev slot_cache : Option (SetNxReplayCache Bool)
slot_cache = some (record { store = some slot })

set_nx_mark_used_iff_example : ((set_nx_mark_used slot_cache 15 false (bytes "k") 20).1 ≡ none) ↔ (
    (slot_cache ≡ none)
    ⊎ ((d : SetNxReplayCache Bool) × (store : SetNxStore Bool) × (slot_cache ≡ some d)
        × (d.store ≡ some store)
        × Recorded store 15 false (bytes "k") 20))
set_nx_mark_used_iff_example = set_nx_mark_used_iff slot_cache 15 false (bytes "k") 20
