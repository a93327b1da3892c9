-- ===== src/Agtp/RouteTypes.antt =====
-- The records and errors of pkg/agtp/gatewayroute/route.go.
use session_bound_agent_iden.Common.{ℤ, String, Bool, List}
use session_bound_agent_iden.GoString.{Bytes}
use session_bound_agent_iden.GoTime.{Time}
use session_bound_agent_iden.IdentityPolicy.Errors.{Cause}

pub data RouteErr : Type 0 where
  missing_expected missing_observed mismatch expired future unsafe_value : RouteErr

-- `fieldError(field, err)`
pub record FieldError : Type 0 where
  pub field : String
  pub err : RouteErr

-- What `Validate` returns besides nil: the joined field errors, `ErrReplayDetected`, or another
-- error of the replay cache.
pub data RouteError : Type 0 where
  joined : List FieldError → RouteError
  replayed : RouteError
  cache_failed : Cause → RouteError

pub record Assertion : Type 0 where
  pub assertion_type : Bytes
  pub version : ℤ
  pub issuer : Bytes
  pub audience : Bytes
  pub id : Bytes
  pub issued_at : Time
  pub expires_at : Time
  pub nonce : Bytes
  pub grant_hash : Bytes
  pub gateway_session_binding_sha256 : Bytes
  pub route_id : Bytes
  pub next_hop : Bytes
  pub tenant : Bytes
  pub principal : Bytes
  pub authority_scope : Bytes
  pub policy_id : Bytes
  pub target_agent : Bytes
  pub target_workload : Bytes
  pub target_agent_key_thumbprint : Bytes
  pub upstream_authn : Bytes
  pub upstream_peer : Bytes
  pub request_context_sha256 : Bytes
  pub task_id : Bytes
  pub context_id : Bytes
  pub session_id : Bytes
  pub audit_hash : Bytes
  pub agent_hok_proof_sha256 : Bytes

pub record HolderOfKeyProof : Type 0 where
  pub agent_id : Bytes
  pub workload_id : Bytes
  pub key_thumbprint : Bytes
  pub grant_hash : Bytes
  pub route_id : Bytes
  pub task_id : Bytes
  pub context_id : Bytes
  pub nonce : Bytes
  pub issued_at : Time
  pub expires_at : Time

pub record ExpectedRoute : Type 0 where
  pub issuer : Bytes
  pub audience : Bytes
  pub tenant : Bytes
  pub authority_scope : Bytes
  pub route_id : Bytes
  pub policy_id : Bytes
  pub target_agent : Bytes
  pub target_workload : Bytes
  pub target_agent_key_thumbprint : Bytes
  pub request_context_sha256 : Bytes
  pub task_id : Bytes
  pub context_id : Bytes
  pub audit_hash : Bytes
  pub require_holder_proof : Bool
