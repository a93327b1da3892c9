-- ===== src/IdentityPolicy/Policy.antt =====
-- `Validate` and `ValidateAssertion` of pkg/atls/identitypolicy/policy.go: the comparison of
-- observed values with the verifier's local policy, layer by layer.
pub mod Fields
pub mod Layers
pub mod Authorization
pub mod Accept
pub mod Session
pub mod Tests
use session_bound_agent_iden.Common.{
  String, Bool, true, false, not, ◌&&◌, ◌||◌, Option, none, some, List, [], ◌∷◌, ◌++◌, str_eq,
  if◌then◌else◌, is_nil, ltb, ◌==◌,
}
use session_bound_agent_iden.GoString.{Bytes, bytes_eq, is_blank}
use session_bound_agent_iden.GoTime.{Time, is_zero, after}
use session_bound_agent_iden.IdentityPolicy.Errors.{
  Err, missing_expected, missing_observed, mismatch, unsafe_value, missing_binding,
  expired_assertion, future_assertion, ValidationErrors, Error, single, validation_error, failure,
  failures, as_error, error_entries,
}
use session_bound_agent_iden.IdentityPolicy.Checks.{
  is_unsafe, validate_field_value, validate_reference_value,
}
use session_bound_agent_iden.IdentityPolicy.Values.{
  Values, Binding, Assertion, Policy, mode_required, any_required, validate_mode,
  effective_set_mode,
}
use session_bound_agent_iden.IdentityPolicy.Sets.{validate_set}

pub record Field : Type 0 where
  pub name : String
  pub get : Values → Bytes

abbrev pub field : String → (Values → Bytes) → Field
field name get = record { name = name; get = get }

-- One round of the loop over a layer's fields, for a field whose expected value is not empty.
unfoldable pub check_value : (Bytes → Option Err) → Bytes → Bytes → Option Err
check_value check want got = elim (check want) [
  | some e ↦ some e
  | none ↦ if is_blank got then some missing_observed else elim (check got) [
    | some e ↦ some e
    | none ↦ if not (bytes_eq got want) then some mismatch else none
  ]
]

-- `hasExpected` and `errs` at the end of a loop.
pub record Outcome : Type 0 where
  pub has_expected : Bool
  pub errs : ValidationErrors

-- The loop over a layer's fields, with the check of a value as a parameter.
unfoldable pub check_fields :
    (String → Bytes → Option Err) → String → Values → Values → List Field → Outcome
unfolding check_value
check_fields check layer expected observed [] = record { has_expected = false; errs = [] }
check_fields check layer expected observed (f ∷ fs) =
    let rest = check_fields check layer expected observed fs in
    let e = check_value (check f.name) (f.get expected) (f.get observed) in
    if is_blank (f.get expected)
    then rest
    else record { has_expected = true; errs = failures layer f.name e ++ rest.errs }

-- `if !hasExpected { return missing expected }; if len(errs) > 0 { return errs }; return nil`
abbrev pub layer_result : String → Outcome → Option Error
layer_result layer o =
    if not o.has_expected
    then some (single (validation_error layer "*" missing_expected))
    else as_error o.errs

unfoldable pub validate_exact_layer : String → Values → Values → List Field → Option Error
unfolding check_fields
validate_exact_layer layer expected observed fields =
    layer_result layer (check_fields validate_field_value layer expected observed fields)

abbrev pub l3_fields : List Field
l3_fields =
    field "service" (λ v. v.service)
    ∷ field "tenant" (λ v. v.tenant)
    ∷ field "deployment" (λ v. v.deployment)
    ∷ field "environment" (λ v. v.environment)
    ∷ []

abbrev pub l4_fields : List Field
l4_fields =
    field "workload" (λ v. v.workload)
    ∷ field "agent" (λ v. v.agent)
    ∷ field "agent_public_key" (λ v. v.agent_public_key)
    ∷ []

abbrev pub l5_fields : List Field
l5_fields =
    field "computation_id" (λ v. v.computation_id)
    ∷ field "task_id" (λ v. v.task_id)
    ∷ field "thread_id" (λ v. v.thread_id)
    ∷ field "delegation_id" (λ v. v.delegation_id)
    ∷ field "intent_ref" (λ v. v.intent_ref)
    ∷ []

abbrev pub l6_references : List Field
l6_references =
    field "capability_ref" (λ v. v.capability_ref) ∷ field "ontology_id" (λ v. v.ontology_id) ∷ []

-- One of the three set blocks of `validateL6`.
unfoldable pub check_set : String → List Bytes → List Bytes → String → Outcome
check_set name expected observed set_mode =
    if is_nil expected then record { has_expected = false; errs = [] } else record {
      has_expected = true;
      errs = failures "L6" name (validate_set expected observed set_mode);
    }

abbrev pub join : Outcome → Outcome → Outcome
join a b = record { has_expected = a.has_expected || b.has_expected; errs = a.errs ++ b.errs }

unfoldable pub validate_l6 : Values → Values → String → Option Error
unfolding check_set check_fields
validate_l6 expected observed set_mode = layer_result "L6" (
    join (check_set "scopes" expected.scopes observed.scopes set_mode) (
      join (check_set "resources" expected.resources observed.resources set_mode) (
        join
          (check_set "authorization_details" expected.authorization_details
            observed.authorization_details set_mode)
          (check_fields (λ name. validate_reference_value) "L6" expected observed l6_references))))

-- `if required { if err := ...; err != nil { errs = appendValidationErrors(errs, err) } }`
abbrev pub layer_errors : Bool → Option Error → ValidationErrors
layer_errors required e = if required then error_entries e else []

-- The errors that the mode gives.
mode_errors : Policy → ValidationErrors
mode_errors p =
    failures "policy" "mode" (validate_mode p)
    ++ (if str_eq p.mode mode_required && not (any_required p.require)
        then failure "policy" "*" missing_expected
        else [])

unfoldable pub validate : Policy → Values → Option Error
unfolding mode_errors validate_exact_layer validate_l6
validate p observed = as_error (
    mode_errors p
    ++ layer_errors p.require.l3 (validate_exact_layer "L3" p.expected observed l3_fields)
    ++ layer_errors p.require.l4 (validate_exact_layer "L4" p.expected observed l4_fields)
    ++ layer_errors p.require.l5 (validate_exact_layer "L5" p.expected observed l5_fields)
    ++ layer_errors p.require.l6 (validate_l6 p.expected observed (effective_set_mode p)))

pub record BindingField : Type 0 where
  pub name : String
  pub want : Bytes
  pub got : Bytes

-- One round of the loop of `validateBinding`, for an expected value that is not empty.
check_binding_value : Bytes → Bytes → Option Err
check_binding_value want got =
    if is_unsafe want
    then some unsafe_value
    else if is_blank got
    then some missing_binding
    else if is_unsafe got
    then some unsafe_value
    else if not (bytes_eq got want)
    then some mismatch
    else none

unfoldable pub check_binding_fields : List BindingField → Outcome
unfolding check_binding_value
check_binding_fields [] = record { has_expected = false; errs = [] }
check_binding_fields (f ∷ fs) =
    let rest = check_binding_fields fs in
    if is_blank f.want then rest else record {
      has_expected = true;
      errs = failures "binding" f.name (check_binding_value f.want f.got) ++ rest.errs;
    }

abbrev binding_field : String → Bytes → Bytes → BindingField
binding_field name want got = record { name = name; want = want; got = got }

abbrev pub binding_fields : Binding → Binding → List BindingField
binding_fields observed expected =
    binding_field "leaf_public_key_sha256" expected.leaf_public_key_sha256
      observed.leaf_public_key_sha256
    ∷ binding_field "tls_exporter_sha256" expected.tls_exporter_sha256 observed.tls_exporter_sha256
    ∷ binding_field "request_context_sha256" expected.request_context_sha256
        observed.request_context_sha256
    ∷ binding_field "attestation_binder_sha256" expected.attestation_binder_sha256
        observed.attestation_binder_sha256
    ∷ binding_field "nonce" expected.nonce observed.nonce
    ∷ []

-- The tests of `ExpiresAt` and `IssuedAt`, which three functions share: the layer and the error
-- for a missing expiry are theirs.
expiry_errors : String → Err → Time → Time → ValidationErrors
expiry_errors layer missing expires_at now =
    if is_zero expires_at
    then failure layer "expires_at" missing
    else if not (is_zero now) && after now expires_at
    then failure layer "expires_at" expired_assertion
    else []

issue_errors : String → Time → Time → ValidationErrors
issue_errors layer issued_at now =
    if not (is_zero issued_at) && not (is_zero now) && after issued_at now
    then failure layer "issued_at" future_assertion
    else []

unfoldable pub lifetime_errors : String → Err → Time → Time → Time → ValidationErrors
unfolding expiry_errors issue_errors
lifetime_errors layer missing issued_at expires_at now =
    expiry_errors layer missing expires_at now ++ issue_errors layer issued_at now

unfoldable pub validate_binding : Binding → Binding → Time → Option Error
unfolding check_binding_fields lifetime_errors
validate_binding observed expected now =
    let o = check_binding_fields (binding_fields observed expected) in
    as_error (
      o.errs
      ++ (if not o.has_expected then failure "binding" "*" missing_expected else [])
      ++ lifetime_errors "binding" missing_binding observed.issued_at observed.expires_at now)

unfoldable pub validate_assertion : Policy → Assertion → Binding → Time → Option Error
unfolding validate validate_binding
validate_assertion p assertion expected_binding now = as_error (
    error_entries (validate_binding assertion.binding expected_binding now)
    ++ error_entries (validate p assertion.values))
