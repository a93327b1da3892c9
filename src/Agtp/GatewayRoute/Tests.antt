-- ===== src/Agtp/GatewayRoute/Tests.antt =====
-- Tests of the gateway route gate, and its theorems at concrete inputs.
use session_bound_agent_iden.Common.{
  pos, ◌≡◌, refl, ◌≢◌, ◌↔◌, Bool, true, false, Option, none, some, [], ◌∷◌, ◌++◌, arith,
}
use session_bound_agent_iden.GoString.{bytes, bytes_eq, is_blank, contains_any}
use session_bound_agent_iden.IdentityPolicy.Errors.{is_error}
use session_bound_agent_iden.IdentityPolicy.Replay.{
  ReplayCache, MemoryReplayCache, new_memory_replay_cache, memory_cache,
}
use session_bound_agent_iden.Agtp.RouteTypes.{
  Assertion, HolderOfKeyProof, ExpectedRoute, replayed, joined, mismatch,
}
use session_bound_agent_iden.Agtp.GatewayRoute.{
  assertion_type, has_markup, validate, route_errors, replay_key,
}
use session_bound_agent_iden.Agtp.GatewayRoute.Accept.{RouteAccepted}
use session_bound_agent_iden.Agtp.GatewayRoute.Gate.{
  RouteCacheAccepts, validate_route_iff, rejected_keeps_cache,
}
use session_bound_agent_iden.Agtp.GatewayRoute.ReplayKey.{
  IsSeparable, SameRoute, replay_key_separates, replay_key_ambiguous,
}

route_code : Unit {0}
unfolding validate route_errors has_markup contains_any is_blank bytes_eq memory_cache is_error
    replay_key
route_code = tt

abbrev route : Assertion
route = record {
  assertion_type = assertion_type;
  version = pos 1;
  issuer = bytes "gateway";
  audience = bytes "agent";
  id = bytes "id1";
  issued_at = 10;
  expires_at = 30;
  nonce = bytes "n1";
  grant_hash = bytes "hash";
  gateway_session_binding_sha256 = bytes "gsb";
  route_id = bytes "r1";
  next_hop = bytes "hop";
  tenant = bytes "t";
  principal = [];
  authority_scope = bytes "read";
  policy_id = bytes "p1";
  target_agent = bytes "agent-7";
  target_workload = [];
  target_agent_key_thumbprint = bytes "thumb";
  upstream_authn = bytes "mtls";
  upstream_peer = bytes "peer";
  request_context_sha256 = bytes "ctx";
  task_id = [];
  context_id = [];
  session_id = [];
  audit_hash = [];
  agent_hok_proof_sha256 = bytes "hok";
}

abbrev holder : HolderOfKeyProof
holder = record {
  agent_id = bytes "agent-7";
  workload_id = [];
  key_thumbprint = bytes "thumb";
  grant_hash = bytes "hash";
  route_id = bytes "r1";
  task_id = [];
  context_id = [];
  nonce = bytes "n1";
  issued_at = 11;
  expires_at = 30;
}

abbrev local : ExpectedRoute
local = record {
  issuer = bytes "gateway";
  audience = bytes "agent";
  tenant = bytes "t";
  authority_scope = [];
  route_id = bytes "r1";
  policy_id = bytes "p1";
  target_agent = bytes "agent-7";
  target_workload = [];
  target_agent_key_thumbprint = [];
  request_context_sha256 = bytes "ctx";
  task_id = [];
  context_id = [];
  audit_hash = [];
  require_holder_proof = true;
}

abbrev empty_cache : Option MemoryReplayCache
empty_cache = some new_memory_replay_cache

route_accepted :
    (validate route (some holder) local 15 0 (some (memory_cache 15)) empty_cache).1 ≡ none
unfolding route_code
route_accepted = refl

route_replayed :
    (validate route
      (some holder)
      local
      15
      0
      (some (memory_cache 15))
      (validate route (some holder) local 15 0 (some (memory_cache 15)) empty_cache).0).1
    ≡ some replayed
unfolding route_code
route_replayed = refl

wrong_tenant :
    (validate route (some holder) (record local { tenant = bytes "u" }) 15 0 none empty_cache).1
    ≡ some (joined (record { field = "tenant"; err = mismatch } ∷ []))
unfolding route_code
wrong_tenant = refl

validate_route_iff_example :
    ((validate route (some holder) local 15 0 (some (memory_cache 15)) empty_cache).1 ≡ none) ↔ (
      RouteAccepted route (some holder) local 15
      × RouteCacheAccepts (some (memory_cache 15)) empty_cache route)
validate_route_iff_example =
    validate_route_iff route (some holder) local 15 0 (some (memory_cache 15)) empty_cache

abbrev asked_cache : ReplayCache Bool
asked_cache = record { mark_used = λ asked key expires_at. (true, none) }

cache_asked : (validate route (some holder) local 15 0 (some asked_cache) false).0 ≢ false
unfolding route_code
cache_asked e = cc

rejected_keeps_cache_example : RouteAccepted route (some holder) local 15
rejected_keeps_cache_example =
    rejected_keeps_cache route (some holder) local 15 0 (some asked_cache) false cache_asked

route-IsSeparable : IsSeparable route
route-IsSeparable = omega arith

replay_key_separates_example : SameRoute route route
replay_key_separates_example =
    replay_key_separates route route route-IsSeparable route-IsSeparable refl

replay_key_ambiguous_example :
    replay_key (record route { tenant = bytes "a" ++ (0 ∷ bytes "b"); authority_scope = bytes "c" })
    ≡ replay_key
        (record route { tenant = bytes "a"; authority_scope = bytes "b" ++ (0 ∷ bytes "c") })
replay_key_ambiguous_example = replay_key_ambiguous route (bytes "a") (bytes "b") (bytes "c")

abbrev any_tenant : ExpectedRoute
any_tenant = record local { tenant = [] }

abbrev in_tenant : Assertion
in_tenant = record route { tenant = bytes "t"; authority_scope = b'x' ∷ 0 ∷ b'y' ∷ [] }

abbrev other_tenant : Assertion
other_tenant = record route { tenant = b't' ∷ 0 ∷ b'x' ∷ []; authority_scope = bytes "y" }

other_tenant_accepted :
    (validate other_tenant (some holder) any_tenant 15 0 (some (memory_cache 15)) empty_cache).1
    ≡ none
unfolding route_code
other_tenant_accepted = refl

-- The assertion of the other tenant is refused as a replay of the first.
other_tenant_refused :
    (validate other_tenant
      (some holder)
      any_tenant
      15
      0
      (some (memory_cache 15))
      (validate in_tenant (some holder) any_tenant 15 0 (some (memory_cache 15)) empty_cache).0).1
    ≡ some replayed
unfolding route_code
other_tenant_refused = refl
