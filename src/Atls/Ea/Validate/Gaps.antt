-- ===== src/Atls/Ea/Validate/Gaps.antt =====
-- What the acceptance of an authenticator does not depend on.
use session_bound_agent_iden.Common.{
  ◌≢◌, ℕ, Option, none, some, List, [], ◌∷◌, true, false, ◌≡◌, inl, inr, refl, Option-cases,
  Result-cases, ok, arith,
}
use session_bound_agent_iden.GoString.{Bytes}
use session_bound_agent_iden.Atls.Tls.{ConnectionState}
use session_bound_agent_iden.Atls.Attestation.{VerificationPolicy}
use session_bound_agent_iden.Atls.Ea.Extensions.{Extension}
use session_bound_agent_iden.Atls.Ea.Request.{AuthenticatorRequest}
use session_bound_agent_iden.Atls.Ea.Messages.{CertificateEntry}
use session_bound_agent_iden.Atls.Ea.Policy.{
  SpontaneousAuthenticatorPolicy, permits, validate_entry_extensions,
}
use session_bound_agent_iden.Atls.Ea.Signatures.{Primitives}
use session_bound_agent_iden.Atls.Ea.Transcript.{Role, AuthenticatorKeys}
use session_bound_agent_iden.Atls.Ea.Create.{RequestPart}
use session_bound_agent_iden.Atls.Ea.Flight.{
  Flight, Accepted, validate_entries, leaf_evidence, check_entries, check_flight,
  check_authenticator,
}
use session_bound_agent_iden.Atls.Ea.Validate.{
  finish_empty, ValidationResult, Shared, finish_full, accepted_result, check_all,
  validate_authenticator,
}

finish_full-ne-empty :
    {K P C : Type 0} (prim : Primitives K P C) (w w' : Shared C) (st : ConnectionState)
    (att : VerificationPolicy) (a : Accepted C) (v : ValidationResult C)
    → finish_full prim w st att a ≡ (w', ok v)
    → v.empty ≡ false
unfolding finish_full accepted_result
finish_full-ne-empty prim w w' st att a v h = ground arith

-- A result with a chain is that of a full authenticator.
pub chain_full :
    {K P C : Type 0} (prim : Primitives K P C) (w w' : Shared C) (st : ConnectionState)
    (role : Role) (req : Option AuthenticatorRequest)
    (policy : Option SpontaneousAuthenticatorPolicy) (att : VerificationPolicy) (auth_bytes : Bytes)
    (v : ValidationResult C)
    → validate_authenticator prim w st role req policy att auth_bytes ≡ (w', ok v)
    → v.chain ≢ []
    → v.empty ≡ false
unfolding validate_authenticator finish_empty
chain_full prim w w' st role req policy att b v h n =
    elim (Result-cases (check_all prim st role req policy b)) [
      | inr (x, bad) ↦ absurd (ground arith)
      | inl ((context, none), checked) ↦ absurd (ground arith)
      | inl ((context, some a), checked) ↦
          finish_full-ne-empty prim w w' st att a v (rw (checked, validate_authenticator) at h)
    ]

-- An empty authenticator that is accepted under one attestation policy is accepted under every
-- other, also one that requires attestation.
pub empty_ignores_attestation :
    {K P C : Type 0} (prim : Primitives K P C) (w w' : Shared C) (st : ConnectionState)
    (role : Role) (req : Option AuthenticatorRequest)
    (policy : Option SpontaneousAuthenticatorPolicy) (att other : VerificationPolicy)
    (auth_bytes : Bytes) (v : ValidationResult C)
    → validate_authenticator prim w st role req policy att auth_bytes ≡ (w', ok v)
    → v.empty ≡ true
    → validate_authenticator prim w st role req policy other auth_bytes ≡ (w', ok v)
unfolding validate_authenticator
empty_ignores_attestation prim w w' st role req policy att other b v h e =
    elim (Result-cases (check_all prim st role req policy b)) [
      | inr (x, bad) ↦ absurd (ground arith)
      | inl ((context, none), checked) ↦
          rw (checked, validate_authenticator) (rw (checked, validate_authenticator) at h)
      | inl ((context, some a), checked) ↦
          let full =
            finish_full-ne-empty prim w w' st att a v (rw (checked, validate_authenticator) at h) in
          absurd (ground arith)
    ]

-- A policy with other signature schemes.
abbrev pub with_schemes : SpontaneousAuthenticatorPolicy → List ℕ → SpontaneousAuthenticatorPolicy
with_schemes p schemes = record p { allowed_signature_schemes = schemes }

module _ (p : SpontaneousAuthenticatorPolicy) (schemes : List ℕ)
    (req : Option AuthenticatorRequest) where
  permits_same :
      (type : ℕ) → permits req (some (with_schemes p schemes)) type ≡ permits req (some p) type
  permits_same type = elim (Option-cases req) [
    | inl missing ↦ rw missing (unfold permits in refl)
    | inr (r, given) ↦ rw given (unfold permits in refl)
  ]

  extensions_same :
      (es : List Extension)
      → validate_entry_extensions es req (some (with_schemes p schemes))
        ≡ validate_entry_extensions es req (some p)
  unfolding validate_entry_extensions
  extensions_same [] = refl
  extensions_same (e ∷ es) = rw (permits_same e.type, extensions_same es) refl

  entries_same :
      (es : List CertificateEntry)
      → validate_entries es req (some (with_schemes p schemes)) ≡ validate_entries es req (some p)
  unfolding validate_entries
  entries_same [] = refl
  entries_same (e ∷ es) = ground (arith, extensions_same e.extensions, entries_same es)

  evidence_same :
      (e : CertificateEntry)
      → leaf_evidence e req (some (with_schemes p schemes)) ≡ leaf_evidence e req (some p)
  unfolding leaf_evidence
  evidence_same e = simp permits_same

module _ {K P C : Type 0} (prim : Primitives K P C) (p : SpontaneousAuthenticatorPolicy)
    (schemes : List ℕ) (req : Option AuthenticatorRequest) where
  check_entries_same :
      (keys : AuthenticatorKeys) (part : RequestPart) (f : Flight) (es : List CertificateEntry)
      → check_entries prim keys req (some (with_schemes p schemes)) part f es
        ≡ check_entries prim keys req (some p) part f es
  unfolding check_entries
  check_entries_same keys part f [] = refl
  check_entries_same keys part f (e ∷ es) =
      rw (entries_same p schemes req (e ∷ es), evidence_same p schemes req e) refl

  check_authenticator_same :
      (keys : AuthenticatorKeys) (part : RequestPart) (b : Bytes)
      → check_authenticator prim keys req (some (with_schemes p schemes)) part b
        ≡ check_authenticator prim keys req (some p) part b
  unfolding check_authenticator check_flight
  check_authenticator_same keys part b = simp (check_entries_same)

  check_all_same :
      (st : ConnectionState) (role : Role) (b : Bytes)
      → check_all prim st role req (some (with_schemes p schemes)) b
        ≡ check_all prim st role req (some p) b
  unfolding check_all
  check_all_same st role b = simp (check_authenticator_same)

  -- The signature schemes that a policy allows make no difference to what is accepted: they are
  -- checked where an authenticator is made, and not where it is validated.
  pub schemes_not_enforced :
      (w : Shared C) (st : ConnectionState) (role : Role) (att : VerificationPolicy) (b : Bytes)
      → validate_authenticator prim w st role req (some (with_schemes p schemes)) att b
        ≡ validate_authenticator prim w st role req (some p) att b
  unfolding validate_authenticator
  schemes_not_enforced w st role att b = rw (check_all_same st role b, validate_authenticator) refl
