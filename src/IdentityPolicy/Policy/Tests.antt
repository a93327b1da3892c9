-- ===== src/IdentityPolicy/Policy/Tests.antt =====
-- Tests of the policy, and its theorems at concrete inputs.
use session_bound_agent_iden.Common.{◌≡◌, refl, ◌↔◌, true, false, none, some, [], ◌∷◌}
use session_bound_agent_iden.GoString.{
  bytes, is_blank, valid_string, is_control, bytes_eq, has_prefix, has_suffix,
}
use session_bound_agent_iden.IdentityPolicy.Errors.{
  aggregate, validation_error, mismatch, missing_expected,
}
use session_bound_agent_iden.IdentityPolicy.Values.{
  Values, Binding, Assertion, Policy, validate_mode, any_required, effective_set_mode,
}
use session_bound_agent_iden.IdentityPolicy.Checks.{
  is_unsafe, validate_value, validate_field_value, validate_reference_value,
}
use session_bound_agent_iden.IdentityPolicy.Sets.{
  require_exact_set, require_contains_all, validate_set,
}
use session_bound_agent_iden.IdentityPolicy.Sets.Accept.{SameSet, ContainsSet}
use session_bound_agent_iden.IdentityPolicy.Sets.Exact.{require_exact_set_iff}
use session_bound_agent_iden.IdentityPolicy.Sets.Contains.{require_contains_all_iff}
use session_bound_agent_iden.IdentityPolicy.Policy.{validate, validate_assertion}
use session_bound_agent_iden.IdentityPolicy.Policy.Accept.{Accepted, validate_iff}
use session_bound_agent_iden.IdentityPolicy.Policy.Session.{AcceptedBinding, validate_assertion_iff}

-- What a run of the policy unfolds.
unfoldable pub policy_code : Unit {0}
unfolding validate validate_assertion validate_mode any_required is_blank validate_field_value
    validate_value is_unsafe valid_string is_control bytes_eq validate_reference_value has_prefix
    has_suffix validate_set effective_set_mode
policy_code = tt

abbrev pub blank_values : Values
blank_values = record {
  service = [];
  tenant = [];
  deployment = [];
  environment = [];
  workload = [];
  agent = [];
  agent_public_key = [];
  computation_id = [];
  task_id = [];
  thread_id = [];
  delegation_id = [];
  intent_ref = [];
  capability_ref = [];
  ontology_id = [];
  scopes = [];
  resources = [];
  authorization_details = [];
}

abbrev pub agent_values : Values
agent_values = record blank_values {
  service = bytes "billing";
  intent_ref = bytes "urn:pay";
  scopes = bytes "read" ∷ bytes "write" ∷ [];
}

abbrev pub strict : Policy
strict = record {
  mode = "required";
  set_mode = "";
  require = record { l3 = true; l4 = false; l5 = true; l6 = true };
  expected = agent_values;
}

abbrev pub reordered : Values
reordered = record agent_values {
  scopes = bytes "write" ∷ bytes " " ∷ bytes "read" ∷ bytes "write" ∷ [];
}

abbrev pub session : Binding
session = record {
  leaf_public_key_sha256 = bytes "leaf";
  tls_exporter_sha256 = bytes "exporter";
  request_context_sha256 = bytes "context";
  attestation_binder_sha256 = [];
  nonce = bytes "n1";
  issued_at = 10;
  expires_at = 20;
}

abbrev claim : Assertion
claim = record { issuer = bytes "manager"; values = reordered; binding = session }

validate_accepts : validate strict reordered ≡ none
unfolding policy_code
validate_accepts = refl

validate_wrong_service :
    validate strict (record reordered { service = bytes "sales" })
    ≡ some (aggregate (some (validation_error "L3" "service" mismatch) ∷ []))
unfolding policy_code
validate_wrong_service = refl

validate_no_layer :
    validate
      (record strict { require = record { l3 = false; l4 = false; l5 = false; l6 = false } })
      reordered
    ≡ some (aggregate (some (validation_error "policy" "*" missing_expected) ∷ []))
unfolding policy_code
validate_no_layer = refl

validate_assertion_accepts : validate_assertion strict claim session 15 ≡ none
unfolding policy_code
validate_assertion_accepts = refl

validate_iff_example : (validate strict reordered ≡ none) ↔ Accepted strict reordered
validate_iff_example = validate_iff strict reordered

validate_assertion_iff_example :
    (validate_assertion strict claim session 15 ≡ none)
    ↔ (AcceptedBinding session session 15 × Accepted strict reordered)
validate_assertion_iff_example = validate_assertion_iff strict claim session 15

require_exact_set_iff_example :
    (require_exact_set agent_values.scopes reordered.scopes ≡ none)
    ↔ SameSet agent_values.scopes reordered.scopes
require_exact_set_iff_example = require_exact_set_iff agent_values.scopes reordered.scopes

require_contains_all_iff_example :
    (require_contains_all agent_values.scopes reordered.scopes ≡ none)
    ↔ ContainsSet agent_values.scopes reordered.scopes
require_contains_all_iff_example = require_contains_all_iff agent_values.scopes reordered.scopes
