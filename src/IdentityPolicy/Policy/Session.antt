-- ===== src/IdentityPolicy/Policy/Session.antt =====
-- When `validateBinding` and `ValidateAssertion` of pkg/atls/identitypolicy/policy.go accept.
use session_bound_agent_iden.Common.{
  String, ◌≡◌, refl, ◌≢◌, ◌↔◌, ◌⊎◌, inl, inr, ◌≤◌, true, false, none, List, [], ◌∷◌, arith, All,
  Any, Bool-cases, append-eq-nil, append_nil_nil,
}
use session_bound_agent_iden.GoString.{Bytes, is_blank}
use session_bound_agent_iden.GoString.Laws.{bytes_eq_iff}
use session_bound_agent_iden.GoTime.{Time}
use session_bound_agent_iden.IdentityPolicy.Errors.{
  Err, ValidationErrors, as_error, error_entries, missing_binding,
}
use session_bound_agent_iden.IdentityPolicy.Errors.Laws.{as_error_nil, error_entries-as_error}
use session_bound_agent_iden.IdentityPolicy.Checks.{is_unsafe}
use session_bound_agent_iden.IdentityPolicy.Values.{Values, Binding, Assertion, Policy}
use session_bound_agent_iden.IdentityPolicy.Policy.{
  validate, validate_binding, validate_assertion, BindingField, binding_fields, expiry_errors,
  issue_errors, check_binding_fields, check_binding_value, lifetime_errors,
}
use session_bound_agent_iden.IdentityPolicy.Policy.Fields.{failures_nil}
use session_bound_agent_iden.IdentityPolicy.Policy.Accept.{Accepted, validate_iff}

-- The expiry is present; at a known time, it is not past, and the issue time is not ahead.
pub record IsLive (issued_at expires_at now : Time) : Type 0 where
  pub expires : expires_at ≢ 0
  pub not_expired : now ≢ 0 → now ≤ expires_at
  pub not_future : issued_at ≢ 0 → now ≢ 0 → issued_at ≤ now

pub lifetime_errors_sound :
    (layer : String) (missing : Err) (issued_at expires_at now : Time)
    → lifetime_errors layer missing issued_at expires_at now ≡ []
    → IsLive issued_at expires_at now
unfolding lifetime_errors
lifetime_errors_sound layer missing issued_at expires_at now h =
    let (one, two) =
      append-eq-nil (expiry_errors layer missing expires_at now) (issue_errors layer issued_at now)
        h in
    ground arith

pub lifetime_errors_complete :
    (layer : String) (missing : Err) (issued_at expires_at now : Time)
    → IsLive issued_at expires_at now
    → lifetime_errors layer missing issued_at expires_at now ≡ []
unfolding lifetime_errors
lifetime_errors_complete layer missing issued_at expires_at now live =
    append_nil_nil (expiry_errors layer missing expires_at now) (issue_errors layer issued_at now)
      (ground arith) (ground arith)

-- A binding value is not expected, or it is safe and observed as it was expected.
abbrev pub BindingAgrees : BindingField → Type 0
BindingAgrees f = (is_blank f.want ≡ true) ⊎ ((is_unsafe f.want ≡ false) × (f.got ≡ f.want))

abbrev pub IsExpectedBinding : BindingField → Type 0
IsExpectedBinding f = is_blank f.want ≡ false

check_binding_value_iff :
    (want got : Bytes)
    → is_blank want ≡ false
    → (check_binding_value want got ≡ none) ↔ ((is_unsafe want ≡ false) × (got ≡ want))
unfolding check_binding_value
check_binding_value_iff want got n = (
  λ h. ground (arith, bytes_eq_iff got want),
  λ h. let (safe, same) = h in ground (arith, bytes_eq_iff got want),
)

check_binding_sound :
    (fs : List BindingField) → (check_binding_fields fs).errs ≡ [] → All BindingAgrees fs
unfolding check_binding_fields
check_binding_sound [] h = tt
check_binding_sound (f ∷ fs) h = elim (Bool-cases (is_blank f.want)) [
  | inl b ↦ (inl b, check_binding_sound fs (ground arith))
  | inr n ↦
      let (here, later) = append-eq-nil _ _ (rw n at h) in
      (
        inr ((check_binding_value_iff f.want f.got n).0 (failures_nil "binding" f.name _ here)),
        check_binding_sound fs later,
      )
]

check_binding_complete :
    (fs : List BindingField) → All BindingAgrees fs → (check_binding_fields fs).errs ≡ []
unfolding check_binding_fields
check_binding_complete [] h = refl
check_binding_complete (f ∷ fs) (a, h) = elim (Bool-cases (is_blank f.want)) [
  | inl b ↦ rw b (check_binding_complete fs h)
  | inr n ↦
      let agrees : (is_unsafe f.want ≡ false) × (f.got ≡ f.want) = ground arith in
      rw (n, (check_binding_value_iff f.want f.got n).1 agrees) (check_binding_complete fs h)
]

check_binding_has :
    (fs : List BindingField)
    → ((check_binding_fields fs).has_expected ≡ true) ↔ Any IsExpectedBinding fs
unfolding check_binding_fields
check_binding_has [] = (λ h. cc, λ h. absurd h)
check_binding_has (f ∷ fs) = elim (Bool-cases (is_blank f.want)) [
  | inl b ↦ (
    λ h. inr ((check_binding_has fs).0 (rw b at h)),
    λ h. ground (arith, (check_binding_has fs).1),
  )
  | inr n ↦ (λ h. inl n, λ h. rw n)
]

-- The observed binding is that of the accepted session: something is expected, every expected
-- value is safe and observed, and the assertion is live.
pub record AcceptedBinding (observed expected : Binding) (now : Time) : Type 0 where
  pub agree : All BindingAgrees (binding_fields observed expected)
  pub some_expected : Any IsExpectedBinding (binding_fields observed expected)
  pub live : IsLive observed.issued_at observed.expires_at now

module _ (observed expected : Binding) (now : Time) where
  validate_binding_sound :
      validate_binding observed expected now ≡ none → AcceptedBinding observed expected now
  unfolding validate_binding
  validate_binding_sound h =
      let (front, life) = append-eq-nil _ _ (as_error_nil _ h) in
      let (clean, found) = append-eq-nil _ _ front in
      record {
        agree = check_binding_sound (binding_fields observed expected) clean;
        some_expected = (check_binding_has (binding_fields observed expected)).0 (ground arith);
        live = lifetime_errors_sound "binding" missing_binding _ _ now life;
      }

  validate_binding_complete :
      AcceptedBinding observed expected now → validate_binding observed expected now ≡ none
  unfolding validate_binding
  validate_binding_complete a =
      rw
        (
          check_binding_complete (binding_fields observed expected) a.agree,
          (check_binding_has (binding_fields observed expected)).1 a.some_expected,
        )
        (rw (
          lifetime_errors_complete "binding" missing_binding observed.issued_at observed.expires_at
            now a.live))

  -- `validateBinding` accepts exactly the bindings of the accepted session that are live.
  pub validate_binding_iff :
      (validate_binding observed expected now ≡ none) ↔ AcceptedBinding observed expected now
  validate_binding_iff = (validate_binding_sound, validate_binding_complete)

entries_nil : (errs : ValidationErrors) → error_entries (as_error errs) ≡ [] → as_error errs ≡ none
entries_nil errs h = rw (← error_entries-as_error errs, h)

binding_entries_nil :
    (observed expected : Binding) (now : Time)
    → error_entries (validate_binding observed expected now) ≡ []
    → validate_binding observed expected now ≡ none
unfolding validate_binding
binding_entries_nil observed expected now h = entries_nil _ h

policy_entries_nil :
    (p : Policy) (observed : Values)
    → error_entries (validate p observed) ≡ []
    → validate p observed ≡ none
unfolding validate
policy_entries_nil p observed h = entries_nil _ h

-- `ValidateAssertion` accepts exactly when the binding is accepted and the values meet the policy.
pub validate_assertion_iff :
    (p : Policy) (assertion : Assertion) (expected : Binding) (now : Time)
    → (validate_assertion p assertion expected now ≡ none)
      ↔ (AcceptedBinding assertion.binding expected now × Accepted p assertion.values)
unfolding validate_assertion
validate_assertion_iff p assertion expected now = (
  λ h.
      let (one, two) = append-eq-nil _ _ (as_error_nil _ h) in
      (
        (validate_binding_iff assertion.binding expected now).0
            (binding_entries_nil assertion.binding expected now one),
        (validate_iff p assertion.values).0 (policy_entries_nil p assertion.values two),
      ),
  λ a. rw (
    (validate_binding_iff assertion.binding expected now).1 a.0,
    (validate_iff p assertion.values).1 a.1,
  ),
)
