-- ===== src/Atls/Ea/Policy.antt =====
-- pkg/atls/ea/policy.go, and where cmw_attestation.go lets evidence stand: which extensions the
-- entries of an authenticator may carry.
pub mod Permits
use session_bound_agent_iden.Common.{
  ℕ, Option, none, some, List, [], ◌∷◌, Bool, true, false, not, ◌||◌, if◌then◌else◌, ◌==◌, any,
  is_nil,
}
use session_bound_agent_iden.Atls.Ea.Wire.{EaErr, bad_request}
use session_bound_agent_iden.Atls.Ea.Extensions.{Extension, cmw_attestation_extension_type}
use session_bound_agent_iden.Atls.Ea.Request.{AuthenticatorRequest}
use session_bound_agent_iden.Atls.Ea.Messages.{CertificateEntry}

pub record SpontaneousAuthenticatorPolicy : Type 0 where
  pub allowed_signature_schemes : List ℕ
  pub allowed_certificate_extensions : List ℕ

unfoldable pub request_permits : Option AuthenticatorRequest → ℕ → Bool
request_permits none type = false
request_permits (some req) type = any (λ e. e.type == type) req.extensions

unfoldable pub policy_permits : Option SpontaneousAuthenticatorPolicy → ℕ → Bool
policy_permits none type = false
policy_permits (some p) type = any (λ allowed. allowed == type) p.allowed_certificate_extensions

unfoldable pub policy_permits_scheme : Option SpontaneousAuthenticatorPolicy → ℕ → Bool
policy_permits_scheme none scheme = true
policy_permits_scheme (some p) scheme =
    is_nil p.allowed_signature_schemes
    || any (λ allowed. allowed == scheme) p.allowed_signature_schemes

-- The request decides where there is one, else the policy.
unfoldable pub permits :
    Option AuthenticatorRequest → Option SpontaneousAuthenticatorPolicy → ℕ → Bool
unfolding request_permits policy_permits
permits (some req) policy type = request_permits (some req) type
permits none policy type = policy_permits policy type

unfoldable pub validate_entry_extensions :
    List Extension
    → Option AuthenticatorRequest
    → Option SpontaneousAuthenticatorPolicy
    → Option EaErr
unfolding permits
validate_entry_extensions [] req policy = none
validate_entry_extensions (e ∷ es) req policy =
    let rest = validate_entry_extensions es req policy in
    if not (permits req policy e.type) then some bad_request else rest

abbrev pub has_cmw : CertificateEntry → Bool
has_cmw entry = any (λ e. e.type == cmw_attestation_extension_type) entry.extensions

-- `ValidateCMWAttestationPlacement`: in the first entry only.
unfoldable pub validate_cmw_placement : List CertificateEntry → Option EaErr
validate_cmw_placement [] = none
validate_cmw_placement (first ∷ others) = if any has_cmw others then some bad_request else none
