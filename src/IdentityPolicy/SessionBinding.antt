-- ===== src/IdentityPolicy/SessionBinding.antt =====
-- pkg/atls/identitypolicy/session_binding.go: the holder-of-key statement is checked against the
-- verified grant, and its nonce is marked as used.
pub mod Keys
pub mod Accept
pub mod Authorized
pub mod ReplayKey
pub mod OneShot
pub mod Tests
use session_bound_agent_iden.Common.{
  String, Bool, true, false, not, ◌&&◌, ◌||◌, Option, none, some, List, [], ◌∷◌, ◌++◌,
  if◌then◌else◌, is_nil, ltb, any, length, Result, ok, err,
}
use session_bound_agent_iden.GoString.{Bytes, bytes_eq, is_blank}
use session_bound_agent_iden.GoTime.{Time}
use session_bound_agent_iden.IdentityPolicy.Errors.{
  Err, missing_expected, missing_observed, mismatch, missing_binding, too_many_values,
  unauthorized_binding_key, ValidationErrors, ValidationError, Error, single, validation_error,
  failure, failures, as_error, error_entries,
}
use session_bound_agent_iden.IdentityPolicy.Checks.{
  validate_value, validate_field_value, max_set_values,
}
use session_bound_agent_iden.IdentityPolicy.Values.{Values, Binding, Assertion}
use session_bound_agent_iden.IdentityPolicy.Policy.{Field, field, lifetime_errors}
use session_bound_agent_iden.IdentityPolicy.Replay.{ReplayCache}

pub record VerifiedGrant : Type 0 where
  pub issuer : Bytes
  pub issuer_key : Bytes
  pub audience : Bytes
  pub grant_hash : Bytes
  pub values : Values
  pub confirmation_key : Bytes
  pub authorized_endpoint_keys : List Bytes
  pub issued_at : Time
  pub expires_at : Time

-- `VerifiedSessionBindingStatement`
pub record Statement : Type 0 where
  pub grant_hash : Bytes
  pub audience : Bytes
  pub signer_key : Bytes
  pub binding : Binding

-- `validateExpectedString`, `validateObservedString` and `validateBindingString` differ in the
-- error for an empty value.
unfoldable pub check_string : Err → Bytes → Option Err
check_string empty value = if is_blank value then some empty else validate_value value

pub string_errors : String → String → Err → Bytes → ValidationErrors
unfolding check_string
string_errors layer name empty value = failures layer name (check_string empty value)

unfoldable pub has_binding_key : VerifiedGrant → Bool
has_binding_key g =
    if not (is_blank g.confirmation_key) || not (is_blank g.values.agent_public_key)
    then true
    else any (λ key. not (is_blank key)) g.authorized_endpoint_keys

unfoldable pub allows_binding_key : VerifiedGrant → Bytes → Bool
allows_binding_key g key =
    if is_blank key
    then false
    else if bytes_eq key g.confirmation_key || bytes_eq key g.values.agent_public_key
    then true
    else any (λ allowed. bytes_eq key allowed) g.authorized_endpoint_keys

abbrev pub grant_fields : List Field
grant_fields =
    field "service" (λ v. v.service)
    ∷ field "tenant" (λ v. v.tenant)
    ∷ field "deployment" (λ v. v.deployment)
    ∷ field "environment" (λ v. v.environment)
    ∷ field "workload" (λ v. v.workload)
    ∷ field "agent" (λ v. v.agent)
    ∷ field "agent_public_key" (λ v. v.agent_public_key)
    ∷ field "computation_id" (λ v. v.computation_id)
    ∷ field "task_id" (λ v. v.task_id)
    ∷ field "thread_id" (λ v. v.thread_id)
    ∷ field "delegation_id" (λ v. v.delegation_id)
    ∷ field "intent_ref" (λ v. v.intent_ref)
    ∷ field "capability_ref" (λ v. v.capability_ref)
    ∷ field "ontology_id" (λ v. v.ontology_id)
    ∷ []

-- One round of the grant's loops: an empty value is skipped.
pub optional_errors : String → (Bytes → Option Err) → Bytes → ValidationErrors
optional_errors name check value =
    if is_blank value then [] else failures "identity_grant" name (check value)

-- The loop of `validateGrantValues` over the single-valued fields.
pub grant_field_errors : Values → List Field → ValidationErrors
unfolding optional_errors
grant_field_errors values [] = []
grant_field_errors values (f ∷ fs) =
    optional_errors f.name (validate_field_value f.name) (f.get values)
    ++ grant_field_errors values fs

-- The loop over the values of one set, or over the endpoint keys.
pub value_errors : String → List Bytes → ValidationErrors
unfolding optional_errors
value_errors name [] = []
value_errors name (value ∷ values) =
    optional_errors name validate_value value ++ value_errors name values

pub grant_set_errors : String → List Bytes → ValidationErrors
unfolding value_errors
grant_set_errors name values =
    if ltb max_set_values (length values)
    then failure "identity_grant" name too_many_values
    else value_errors name values

unfoldable pub validate_grant_values : Values → Option Error
unfolding grant_field_errors grant_set_errors
validate_grant_values values = as_error (
    grant_field_errors values grant_fields
    ++ grant_set_errors "scopes" values.scopes
    ++ grant_set_errors "resources" values.resources
    ++ grant_set_errors "authorization_details" values.authorization_details)

unfoldable pub validate_endpoint_keys : List Bytes → Option Error
unfolding value_errors
validate_endpoint_keys keys =
    if ltb max_set_values (length keys)
    then some (single (validation_error "identity_grant" "authorized_endpoint_key" too_many_values))
    else as_error (value_errors "authorized_endpoint_key" keys)

unfoldable pub validate_grant_lifetime : VerifiedGrant → Time → Option Error
validate_grant_lifetime g now =
    as_error (lifetime_errors "identity_grant" missing_expected g.issued_at g.expires_at now)

unfoldable pub validate_statement_binding : Binding → Time → Option Error
unfolding string_errors
validate_statement_binding b now = as_error (
    string_errors "session_binding" "leaf_public_key_sha256" missing_binding
      b.leaf_public_key_sha256
    ++ string_errors "session_binding" "tls_exporter_sha256" missing_binding b.tls_exporter_sha256
    ++ string_errors "session_binding" "request_context_sha256" missing_binding
        b.request_context_sha256
    ++ string_errors "session_binding" "nonce" missing_binding b.nonce
    ++ (if is_nil b.attestation_binder_sha256
        then []
        else string_errors "session_binding" "attestation_binder_sha256" missing_binding
            b.attestation_binder_sha256)
    ++ lifetime_errors "session_binding" missing_binding b.issued_at b.expires_at now)

-- A field of the statement that must equal the grant's.
pub matched_errors : String → Bytes → Bytes → ValidationErrors
unfolding check_string
matched_errors name granted stated = elim (check_string missing_observed stated) [
  | some e ↦ failure "session_binding" name e
  | none ↦ if not (bytes_eq granted stated) then failure "session_binding" name mismatch else []
]

-- The checks of the key that signed the statement.
pub signer_errors : VerifiedGrant → Bytes → ValidationErrors
unfolding check_string allows_binding_key
signer_errors g key = elim (check_string missing_observed key) [
  | some e ↦ failure "session_binding" "signer_key" e
  | none ↦
      if not (allows_binding_key g key)
      then failure "session_binding" "signer_key" unauthorized_binding_key
      else if not (is_nil g.issuer_key) && bytes_eq key g.issuer_key
      then failure "session_binding" "issuer_key" unauthorized_binding_key
      else []
]

-- `errs` before the replay cache is asked.
unfoldable pub statement_errors : VerifiedGrant → Statement → Time → ValidationErrors
unfolding string_errors matched_errors signer_errors has_binding_key
statement_errors g s now =
    string_errors "identity_grant" "issuer" missing_expected g.issuer
    ++ string_errors "identity_grant" "aud" missing_expected g.audience
    ++ string_errors "identity_grant" "grant_hash" missing_expected g.grant_hash
    ++ matched_errors "grant_hash" g.grant_hash s.grant_hash
    ++ matched_errors "aud" g.audience s.audience
    ++ signer_errors g s.signer_key
    ++ (if not (has_binding_key g)
        then failure "identity_grant" "confirmation_key" missing_expected
        else [])
    ++ error_entries (validate_grant_values g.values)
    ++ error_entries (validate_endpoint_keys g.authorized_endpoint_keys)
    ++ error_entries (validate_grant_lifetime g now)
    ++ error_entries (validate_statement_binding s.binding now)

-- The key of `MarkSessionBindingUsed`: five fields joined by NUL bytes.
unfoldable pub replay_key : Statement → Bytes
replay_key s =
    s.grant_hash
    ++ (0 ∷ s.audience
        ++ (0 ∷ s.binding.tls_exporter_sha256
            ++ (0 ∷ s.binding.request_context_sha256 ++ (0 ∷ s.binding.nonce))))

-- Calls that may mark a nonce return the cache's new state; without a cache nothing changes.
unfoldable pub mark_session_binding_used :
    {S : Type 0} → Option (ReplayCache S) → S → Statement → S × Option Error
unfolding replay_key
mark_session_binding_used none c s = (c, none)
mark_session_binding_used (some cache) c s =
    let (c', e) = cache.mark_used c (replay_key s) s.binding.expires_at in
    elim e [
      | none ↦ (c', none)
      | some cause ↦
          (c', some (single (record { layer = "session_binding"; field = "nonce"; err = cause })))
    ]

-- `ValidateSessionBindingStatementWithOptions`
unfoldable pub validate_statement :
    {S : Type 0} → VerifiedGrant → Statement → Time → Option (ReplayCache S) → S → S × Option Error
unfolding mark_session_binding_used
validate_statement g s now cache c = elim (as_error (statement_errors g s now)) [
  | some e ↦ (c, some e)
  | none ↦ mark_session_binding_used cache c s
]

-- `NewAssertionFromSessionBindingWithOptions`
unfoldable pub new_assertion :
    {S : Type 0}
    → VerifiedGrant
    → Statement
    → Time
    → Option (ReplayCache S)
    → S
    → S × Result Error Assertion
unfolding validate_statement
new_assertion g s now cache c =
    let (c', e) = validate_statement g s now cache c in
    elim e [
      | some e ↦ (c', err e)
      | none ↦ (c', ok (record { issuer = g.issuer; values = g.values; binding = s.binding }))
    ]
