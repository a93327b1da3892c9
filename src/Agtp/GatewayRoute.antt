-- ===== src/Agtp/GatewayRoute.antt =====
-- pkg/agtp/gatewayroute/route.go: the policy gate for gateway route assertions whose signatures
-- the caller has checked.
pub mod Fields
pub mod Described
pub mod Accept
pub mod Gate
pub mod ReplayKey
pub mod Tests
use session_bound_agent_iden.Common.{
  ℕ, ℤ, pos, negsuc, String, Bool, true, false, not, ◌&&◌, ◌||◌, Option, none, some, List, [], ◌∷◌,
  ◌++◌, if◌then◌else◌, is_nil, ltb, ◌==◌,
}
use session_bound_agent_iden.GoString.{Bytes, bytes, bytes_eq, is_blank, contains_any}
use session_bound_agent_iden.GoTime.{Time, is_zero, after}
use session_bound_agent_iden.IdentityPolicy.Errors.{Cause, is_error, replay_detected}
use session_bound_agent_iden.IdentityPolicy.Replay.{ReplayCache}
use session_bound_agent_iden.Agtp.RouteTypes.{
  RouteErr, missing_expected, missing_observed, mismatch, expired, future, unsafe_value, FieldError,
  RouteError, joined, replayed, cache_failed, Assertion, HolderOfKeyProof, ExpectedRoute,
}

abbrev pub assertion_type : Bytes
assertion_type = bytes "ai2ai.gateway-route-assertion"

abbrev pub is_version : ℤ → Bool
is_version (pos n) = n == 1
is_version (negsuc n) = false

unfoldable pub has_markup : Bytes → Bool
has_markup value = contains_any value (13 ∷ 10 ∷ b'<' ∷ b'>' ∷ [])

abbrev pub field_error : String → RouteErr → List FieldError
field_error name e = record { field = name; err = e } ∷ []

-- `field` and `expectedField`
pub record ObservedField : Type 0 where
  pub name : String
  pub value : Bytes

pub record ExpectedField : Type 0 where
  pub name : String
  pub want : Bytes
  pub got : Bytes

abbrev observed : String → Bytes → ObservedField
observed name value = record { name = name; value = value }

abbrev expected_field : String → Bytes → Bytes → ExpectedField
expected_field name want got = record { name = name; want = want; got = got }

unfoldable pub validate_observed : ObservedField → List FieldError
validate_observed f =
    if is_blank f.value
    then field_error f.name missing_observed
    else if has_markup f.value
    then field_error f.name unsafe_value
    else []

abbrev pub core_fields : Assertion → List ObservedField
core_fields a =
    observed "gta_type" a.assertion_type
    ∷ observed "iss" a.issuer
    ∷ observed "aud" a.audience
    ∷ observed "jti" a.id
    ∷ observed "nonce" a.nonce
    ∷ observed "grant_hash" a.grant_hash
    ∷ observed "gateway_session_binding_sha256" a.gateway_session_binding_sha256
    ∷ observed "route_id" a.route_id
    ∷ observed "next_hop" a.next_hop
    ∷ observed "policy_id" a.policy_id
    ∷ observed "target_agent" a.target_agent
    ∷ observed "upstream_authn" a.upstream_authn
    ∷ observed "upstream_peer" a.upstream_peer
    ∷ observed "request_context_sha256" a.request_context_sha256
    ∷ []

-- The loop of `validateCore`.
pub observed_errors : List ObservedField → List FieldError
unfolding validate_observed
observed_errors [] = []
observed_errors (f ∷ fs) = validate_observed f ++ observed_errors fs

pub type_errors : Assertion → List FieldError
type_errors a =
    if not (is_nil a.assertion_type) && not (bytes_eq a.assertion_type assertion_type)
    then field_error "gta_type" mismatch
    else []

pub version_errors : Assertion → List FieldError
version_errors a = if not (is_version a.version) then field_error "gta_version" mismatch else []

pub issued_errors : Time → Time → List FieldError
issued_errors issued_at now =
    if is_zero issued_at
    then field_error "iat" missing_observed
    else if after issued_at now
    then field_error "iat" future
    else []

pub expiry_errors : Time → Time → List FieldError
expiry_errors expires_at now =
    if is_zero expires_at
    then field_error "exp" missing_observed
    else if after now expires_at
    then field_error "exp" expired
    else []

unfoldable pub validate_core : Assertion → Time → List FieldError
unfolding observed_errors type_errors version_errors issued_errors expiry_errors
validate_core a now =
    observed_errors (core_fields a)
    ++ (type_errors a
        ++ (version_errors a ++ (issued_errors a.issued_at now ++ expiry_errors a.expires_at now)))

abbrev pub expected_fields : Assertion → ExpectedRoute → List ExpectedField
expected_fields a e =
    expected_field "iss" e.issuer a.issuer
    ∷ expected_field "aud" e.audience a.audience
    ∷ expected_field "tenant" e.tenant a.tenant
    ∷ expected_field "authority_scope" e.authority_scope a.authority_scope
    ∷ expected_field "route_id" e.route_id a.route_id
    ∷ expected_field "policy_id" e.policy_id a.policy_id
    ∷ expected_field "target_agent" e.target_agent a.target_agent
    ∷ expected_field "target_workload" e.target_workload a.target_workload
    ∷ expected_field "target_agent_key_thumbprint" e.target_agent_key_thumbprint
        a.target_agent_key_thumbprint
    ∷ expected_field "request_context_sha256" e.request_context_sha256 a.request_context_sha256
    ∷ expected_field "task_id" e.task_id a.task_id
    ∷ expected_field "context_id" e.context_id a.context_id
    ∷ expected_field "audit_hash" e.audit_hash a.audit_hash
    ∷ []

-- One round of the loop of `compareExpected`.
pub compare_field : ExpectedField → List FieldError
compare_field f =
    if is_blank f.want
    then []
    else if has_markup f.want
    then field_error f.name unsafe_value
    else if is_blank f.got
    then field_error f.name missing_observed
    else if has_markup f.got
    then field_error f.name unsafe_value
    else if not (bytes_eq f.want f.got)
    then field_error f.name mismatch
    else []

pub compare_fields : List ExpectedField → List FieldError
unfolding compare_field
compare_fields [] = []
compare_fields (f ∷ fs) = compare_field f ++ compare_fields fs

pub missing_route_errors : ExpectedRoute → List FieldError
missing_route_errors e =
    if is_blank e.issuer
      || is_blank e.audience
      || is_blank e.route_id
      || is_blank e.policy_id
      || is_blank e.target_agent
      || is_blank e.request_context_sha256
    then field_error "*" missing_expected
    else []

unfoldable pub compare_expected : Assertion → ExpectedRoute → List FieldError
unfolding compare_fields missing_route_errors
compare_expected a e = compare_fields (expected_fields a e) ++ missing_route_errors e

-- `holderKeyThumbprint`
abbrev pub holder_key_thumbprint : Assertion → ExpectedRoute → Bytes
holder_key_thumbprint a e =
    if not (is_nil e.target_agent_key_thumbprint)
    then e.target_agent_key_thumbprint
    else a.target_agent_key_thumbprint

abbrev pub holder_fields : Assertion → HolderOfKeyProof → ExpectedRoute → List ExpectedField
holder_fields a p e =
    expected_field "holder.agent" a.target_agent p.agent_id
    ∷ expected_field "holder.workload" a.target_workload p.workload_id
    ∷ expected_field "holder.key_thumbprint" (holder_key_thumbprint a e) p.key_thumbprint
    ∷ expected_field "grant_hash" a.grant_hash p.grant_hash
    ∷ expected_field "route_id" a.route_id p.route_id
    ∷ expected_field "task_id" a.task_id p.task_id
    ∷ expected_field "context_id" a.context_id p.context_id
    ∷ expected_field "holder.nonce" a.nonce p.nonce
    ∷ []

-- One round of the loop of `validateHolderProof`.
pub holder_field : ExpectedField → List FieldError
holder_field f =
    if is_blank f.want
    then []
    else if is_blank f.got
    then field_error f.name missing_observed
    else if has_markup f.got
    then field_error f.name unsafe_value
    else if not (bytes_eq f.want f.got)
    then field_error f.name mismatch
    else []

pub holder_field_errors : List ExpectedField → List FieldError
unfolding holder_field
holder_field_errors [] = []
holder_field_errors (f ∷ fs) = holder_field f ++ holder_field_errors fs

pub holder_issued_errors : HolderOfKeyProof → Time → List FieldError
holder_issued_errors p now = if after p.issued_at now then field_error "iat" future else []

pub proof_hash_errors : Assertion → List FieldError
proof_hash_errors a =
    if is_blank a.agent_hok_proof_sha256
    then field_error "agent_hok_proof_sha256" missing_observed
    else []

unfoldable pub validate_holder_proof :
    Assertion → Option HolderOfKeyProof → ExpectedRoute → Time → List FieldError
unfolding holder_field_errors holder_issued_errors expiry_errors proof_hash_errors
validate_holder_proof a none e now = field_error "agent_hok_proof_sha256" missing_observed
validate_holder_proof a (some p) e now =
    holder_field_errors (holder_fields a p e)
    ++ (holder_issued_errors p now ++ (expiry_errors p.expires_at now ++ proof_hash_errors a))

unfoldable pub replay_key : Assertion → Bytes
replay_key a =
    a.issuer
    ++ (0 ∷ a.audience
        ++ (0 ∷ a.tenant
            ++ (0 ∷ a.authority_scope ++ (0 ∷ a.route_id ++ (0 ∷ a.grant_hash ++ (0 ∷ a.nonce))))))

-- `opts.Now`, or the reading of the system's clock.
abbrev pub effective_now : Time → Time → Time
effective_now now wall = if is_zero now then wall else now

-- `errs` of `Validate`.
unfoldable pub route_errors :
    Assertion → Option HolderOfKeyProof → ExpectedRoute → Time → List FieldError
unfolding validate_core compare_expected validate_holder_proof
route_errors a p e now =
    validate_core a now
    ++ (compare_expected a e
        ++ (if e.require_holder_proof then validate_holder_proof a p e now else []))

pub cache_answer : Option Cause → Option RouteError
cache_answer none = none
cache_answer (some c) = if is_error c replay_detected then some replayed else some (cache_failed c)

pub mark_route : {S : Type 0} → Option (ReplayCache S) → S → Assertion → S × Option RouteError
unfolding cache_answer replay_key
mark_route none c a = (c, none)
mark_route (some cache) c a =
    let (c', e) = cache.mark_used c (replay_key a) a.expires_at in (c', cache_answer e)

unfoldable pub validate :
    {S : Type 0}
    → Assertion
    → Option HolderOfKeyProof
    → ExpectedRoute
    → Time
    → Time
    → Option (ReplayCache S)
    → S
    → S × Option RouteError
unfolding route_errors mark_route
validate a p e now wall cache c = elim (route_errors a p e (effective_now now wall)) [
  | fe ∷ errs ↦ (c, some (joined (fe ∷ errs)))
  | [] ↦ mark_route cache c a
]
