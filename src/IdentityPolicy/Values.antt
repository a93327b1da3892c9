-- ===== src/IdentityPolicy/Values.antt =====
-- The records of pkg/atls/identitypolicy/policy.go, and the policy's modes.
use session_bound_agent_iden.Common.{
  String, Bool, true, false, ◌||◌, Option, none, some, List, str_eq, if◌then◌else◌,
}
use session_bound_agent_iden.GoString.{Bytes}
use session_bound_agent_iden.GoTime.{Time}
use session_bound_agent_iden.IdentityPolicy.Errors.{Err, invalid_mode}

pub record Requirements : Type 0 where
  pub l3 : Bool
  pub l4 : Bool
  pub l5 : Bool
  pub l6 : Bool

-- `Requirements.Enabled`
unfoldable pub any_required : Requirements → Bool
any_required r = r.l3 || r.l4 || r.l5 || r.l6

pub record Values : Type 0 where
  pub service : Bytes
  pub tenant : Bytes
  pub deployment : Bytes
  pub environment : Bytes
  pub workload : Bytes
  pub agent : Bytes
  pub agent_public_key : Bytes
  pub computation_id : Bytes
  pub task_id : Bytes
  pub thread_id : Bytes
  pub delegation_id : Bytes
  pub intent_ref : Bytes
  pub capability_ref : Bytes
  pub ontology_id : Bytes
  pub scopes : List Bytes
  pub resources : List Bytes
  pub authorization_details : List Bytes

pub record Binding : Type 0 where
  pub leaf_public_key_sha256 : Bytes
  pub tls_exporter_sha256 : Bytes
  pub request_context_sha256 : Bytes
  pub attestation_binder_sha256 : Bytes
  pub nonce : Bytes
  pub issued_at : Time
  pub expires_at : Time

pub record Assertion : Type 0 where
  pub issuer : Bytes
  pub values : Values
  pub binding : Binding

-- `Mode` and `SetMode` are strings in the source, so other texts occur too.
pub record Policy : Type 0 where
  pub mode : String
  pub set_mode : String
  pub require : Requirements
  pub expected : Values

abbrev pub mode_default : String
mode_default = ""

abbrev pub mode_disabled : String
mode_disabled = "disabled"

abbrev pub mode_required : String
mode_required = "required"

abbrev pub set_mode_default : String
set_mode_default = ""

abbrev pub set_mode_contains_all : String
set_mode_contains_all = "contains_all"

abbrev pub set_mode_exact : String
set_mode_exact = "exact"

-- `Policy.Enabled`
unfoldable pub enabled : Policy → Bool
unfolding any_required
enabled p =
    if str_eq p.mode mode_disabled
    then false
    else if str_eq p.mode mode_required
    then true
    else if str_eq p.mode mode_default
    then any_required p.require
    else false

-- `Policy.ValidateMode`
unfoldable pub validate_mode : Policy → Option Err
validate_mode p =
    if str_eq p.mode mode_default || str_eq p.mode mode_disabled || str_eq p.mode mode_required
    then if str_eq p.set_mode set_mode_default
        || str_eq p.set_mode set_mode_contains_all
        || str_eq p.set_mode set_mode_exact
      then none
      else some invalid_mode
    else some invalid_mode

-- `Policy.setMode`
unfoldable pub effective_set_mode : Policy → String
effective_set_mode p = if str_eq p.set_mode set_mode_default then set_mode_exact else p.set_mode
