-- ===== src/IdentityPolicy/SessionBinding/Accept.antt =====
-- When a session-binding statement is authorized by its grant.
use session_bound_agent_iden.Common.{
  String, ◌≡◌, refl, sym, ◌∙◌, ◌≢◌, ◌↔◌, inl, inr, ◌≤◌, true, false, List, [], ◌∷◌, arith, All,
  Option, none, append-eq-nil, append_nil_nil, Bool-cases, length, is_nil, ltb,
}
use session_bound_agent_iden.GoString.{Bytes, is_blank}
use session_bound_agent_iden.GoString.Laws.{bytes_eq_iff}
use session_bound_agent_iden.IdentityPolicy.Errors.{Err, error_entries}
use session_bound_agent_iden.IdentityPolicy.Errors.Laws.{error_entries-as_error}
use session_bound_agent_iden.IdentityPolicy.Checks.{
  validate_value, validate_field_value, max_set_values,
}
use session_bound_agent_iden.IdentityPolicy.Values.{Values}
use session_bound_agent_iden.IdentityPolicy.Policy.{Field}
use session_bound_agent_iden.IdentityPolicy.Policy.Fields.{failures_nil}
use session_bound_agent_iden.IdentityPolicy.SessionBinding.{
  VerifiedGrant, string_errors, grant_fields, optional_errors, grant_field_errors, value_errors,
  grant_set_errors, validate_grant_values, validate_endpoint_keys, matched_errors, signer_errors,
}
use session_bound_agent_iden.IdentityPolicy.SessionBinding.Keys.{IsGrantKey, allows_binding_key_iff}

-- A required text: not empty, and well-formed.
abbrev pub IsText : Bytes → Type 0
IsText value = (is_blank value ≡ false) × (validate_value value ≡ none)

-- A text that may be left out.
abbrev pub IsOptional : (Bytes → Option Err) → Bytes → Type 0
IsOptional check value = is_blank value ≡ false → check value ≡ none

pub string_errors_iff :
    (layer name : String) (e : Err) (value : Bytes)
    → (string_errors layer name e value ≡ []) ↔ IsText value
unfolding string_errors
string_errors_iff layer name e value = (λ h. ground arith, λ h. ground arith)

pub matched_errors_iff :
    (name : String) (granted stated : Bytes)
    → (matched_errors name granted stated ≡ []) ↔ (IsText stated × (stated ≡ granted))
unfolding matched_errors
matched_errors_iff name granted stated = (
  λ h. ground (arith, bytes_eq_iff granted stated),
  λ h. ground (arith, bytes_eq_iff granted stated),
)

-- The signer's key is well-formed, one of the grant's keys, and not the grant issuer's own.
pub record IsSigner (g : VerifiedGrant) (key : Bytes) : Type 0 where
  pub text : IsText key
  pub allowed : IsGrantKey g key
  pub not_issuer : g.issuer_key ≢ [] → key ≢ g.issuer_key

pub is_nil_iff : (s : Bytes) → (is_nil s ≡ true) ↔ (s ≡ [])
is_nil_iff [] = (λ h. refl, λ h. refl)
is_nil_iff (b ∷ s) = (λ h. cc, λ h. cc)

pub signer_errors_iff :
    (g : VerifiedGrant) (key : Bytes) → (signer_errors g key ≡ []) ↔ IsSigner g key
unfolding signer_errors
signer_errors_iff g key = (
  λ h. record {
    text = ground arith;
    allowed = (allows_binding_key_iff g key).0 (ground arith);
    not_issuer = λ n e. ground (arith, is_nil_iff g.issuer_key, bytes_eq_iff key g.issuer_key);
  },
  λ s. ground (
    arith,
    s.text,
    (allows_binding_key_iff g key).1 s.allowed,
    s.not_issuer,
    is_nil_iff g.issuer_key,
    bytes_eq_iff key g.issuer_key,
  ),
)

optional_errors_iff :
    (name : String) (check : Bytes → Option Err) (value : Bytes)
    → (optional_errors name check value ≡ []) ↔ IsOptional check value
unfolding optional_errors
optional_errors_iff name check value =
    (λ h n. failures_nil "identity_grant" name (check value) (rw n at h), λ h. ground arith)

grant_field_errors_iff :
    (values : Values) (fs : List Field)
    → (grant_field_errors values fs ≡ [])
      ↔ All (λ f. IsOptional (validate_field_value f.name) (f.get values)) fs
unfolding grant_field_errors
grant_field_errors_iff values [] = (λ h. tt, λ h. refl)
grant_field_errors_iff values (f ∷ fs) =
    let (sound, complete) = grant_field_errors_iff values fs in
    let one = optional_errors_iff f.name (validate_field_value f.name) (f.get values) in
    (
      λ h. let (here, later) = append-eq-nil _ _ h in (one.0 here, sound later),
      λ h. append_nil_nil _ _ (one.1 h.0) (complete h.1),
    )

value_errors_iff :
    (name : String) (values : List Bytes)
    → (value_errors name values ≡ []) ↔ All (IsOptional validate_value) values
unfolding value_errors
value_errors_iff name [] = (λ h. tt, λ h. refl)
value_errors_iff name (v ∷ values) =
    let (sound, complete) = value_errors_iff name values in
    let one = optional_errors_iff name validate_value v in
    (
      λ h. let (here, later) = append-eq-nil _ _ h in (one.0 here, sound later),
      λ h. append_nil_nil _ _ (one.1 h.0) (complete h.1),
    )

-- A list of at most 128 values, each empty or well-formed.
abbrev pub IsValueList : List Bytes → Type 0
IsValueList values = (length values ≤ max_set_values) × All (IsOptional validate_value) values

grant_set_errors_iff :
    (name : String) (values : List Bytes) → (grant_set_errors name values ≡ []) ↔ IsValueList values
unfolding grant_set_errors
grant_set_errors_iff name values =
    let (sound, complete) = value_errors_iff name values in
    (λ h. (ground arith, sound (ground arith)), λ h. ground (arith, complete h.1))

pub endpoint_keys_iff :
    (keys : List Bytes) → (error_entries (validate_endpoint_keys keys) ≡ []) ↔ IsValueList keys
unfolding validate_endpoint_keys
endpoint_keys_iff keys =
    let (sound, complete) = value_errors_iff "authorized_endpoint_key" keys in
    elim (Bool-cases (ltb max_set_values (length keys))) [
      | inl many ↦ (λ h. absurd (ground arith), λ h. absurd (ground arith))
      | inr few ↦ (
        λ h. (ground arith, sound (sym (error_entries-as_error _) ∙ (rw few at h))),
        λ h. rw (few, complete h.1),
      )
    ]

-- The values that a grant carries: each is empty or well-formed.
pub record GrantValues (values : Values) : Type 0 where
  pub fields : All (λ f. IsOptional (validate_field_value f.name) (f.get values)) grant_fields
  pub scopes : IsValueList values.scopes
  pub resources : IsValueList values.resources
  pub details : IsValueList values.authorization_details

pub validate_grant_values_iff :
    (values : Values) → (error_entries (validate_grant_values values) ≡ []) ↔ GrantValues values
unfolding validate_grant_values
validate_grant_values_iff values = (
  λ h.
      let all = sym (error_entries-as_error _) ∙ h in
      let (front, three) = append-eq-nil _ _ all in
      let (front', two) = append-eq-nil _ _ front in
      let (fields, one) = append-eq-nil _ _ front' in
      record {
        fields = (grant_field_errors_iff values grant_fields).0 fields;
        scopes = (grant_set_errors_iff "scopes" values.scopes).0 one;
        resources = (grant_set_errors_iff "resources" values.resources).0 two;
        details =
            (grant_set_errors_iff "authorization_details" values.authorization_details).0 three;
      },
  λ g. rw (
    (grant_field_errors_iff values grant_fields).1 g.fields,
    (grant_set_errors_iff "scopes" values.scopes).1 g.scopes,
    (grant_set_errors_iff "resources" values.resources).1 g.resources,
    (grant_set_errors_iff "authorization_details" values.authorization_details).1 g.details,
  ),
)
