-- ===== src/Atls/Ea/Validate/Tests.antt =====
-- Authenticators over a toy session, whose primitives compute; witnesses.
use session_bound_agent_iden.Atls.Ea.Policy.{validate_cmw_placement, SpontaneousAuthenticatorPolicy}
use session_bound_agent_iden.Common.{none, some, [], ◌∷◌, true, false, ◌≡◌, refl, arith, ok, err}
use session_bound_agent_iden.GoString.{Bytes, bytes_eq}
use session_bound_agent_iden.Atls.Tls.{ConnectionState, Hashes, version_tls13}
use session_bound_agent_iden.Atls.Attestation.{VerificationPolicy}
use session_bound_agent_iden.Atls.Ea.Wire.{
  handshake_type_client_certificate_request, context_reuse, marshal_handshake_message,
  unmarshal_handshake_message,
}
use session_bound_agent_iden.Atls.Ea.Extensions.{
  extract_cmw_attestation, marshal_extensions, unmarshal_extensions,
  cmw_attestation_offer_extension,
}
use session_bound_agent_iden.Atls.Ea.Request.{
  signature_schemes, AuthenticatorRequest, marshal_request, unmarshal_request,
}
use session_bound_agent_iden.Atls.Ea.Session.{new_session}
use session_bound_agent_iden.Atls.Ea.Signatures.{choose_signature_scheme, Primitives, ed25519_key}
use session_bound_agent_iden.Atls.Ea.Messages.{
  marshal_certificate, marshal_certificate_verify, marshal_finished, unmarshal_certificate,
  unmarshal_certificate_verify, unmarshal_finished,
}
use session_bound_agent_iden.Atls.Ea.Transcript.{server}
use session_bound_agent_iden.Atls.Ea.Create.{Identity, create_authenticator}
use session_bound_agent_iden.Atls.Ea.Flight.{check_authenticator}
use session_bound_agent_iden.Atls.Ea.Validate.{ValidationResult, Shared, validate_authenticator}
use session_bound_agent_iden.Atls.Ea.Validate.Sound.{FullyAccepted, fully_accepted}
use session_bound_agent_iden.Atls.Ea.Validate.Gaps.{
  empty_ignores_attestation, schemes_not_enforced, with_schemes,
}

-- Hashes that are short texts, and signatures that repeat the message.
abbrev hashes : Hashes
hashes = record { sum = λ h b. 7 ∷ []; sum512 = λ b. 8 ∷ []; hmac = λ h k b. 9 ∷ k }

abbrev pub prim : Primitives (Unit {0}) (Unit {0}) Bytes
prim = record {
  hashes = hashes;
  private_kind = λ k. ed25519_key;
  public_kind = λ k. ed25519_key;
  sign = λ alg k msg. ok (5 ∷ []);
  verify = λ alg k msg sig. bytes_eq sig (5 ∷ []);
  random = λ n. ok (1 ∷ 2 ∷ []);
  parse_certificate = λ der. ok der;
  public_key = λ c. tt;
  leaf = λ c. record { raw_subject_public_key_info = c; marshal_public_key = ok c };
  decode_payload = λ b. none;
}

abbrev pub session : ConnectionState
session = record {
  version = version_tls13;
  cipher_suite = 0x1301;
  export_keying_material = λ label context n. ok (3 ∷ []);
}

abbrev pub request : AuthenticatorRequest
request = record {
  type = handshake_type_client_certificate_request;
  context = 42 ∷ [];
  extensions =
      record { type = 13; payload = 0 ∷ 2 ∷ 8 ∷ 7 ∷ [] } ∷ cmw_attestation_offer_extension ∷ [];
}

abbrev pub identity : Identity (Unit {0})
identity = record { certificates = (77 ∷ []) ∷ []; private_key = some tt }

abbrev pub no_verifiers : VerificationPolicy
no_verifiers = record { evidence_verifier = none; results_verifier = none }

abbrev strict : VerificationPolicy
strict = record { evidence_verifier = some (λ e b. none); results_verifier = none }

abbrev pub fresh : Shared Bytes
fresh = record { session = some new_session; options = none }

abbrev pub used_once : Shared Bytes
used_once = record { session = some (record { used = (42 ∷ []) ∷ [] }); options = none }

unfoldable pub ea_code : Unit {0}
unfolding create_authenticator validate_authenticator marshal_request bytes_eq check_authenticator
    marshal_extensions marshal_handshake_message signature_schemes choose_signature_scheme
    marshal_certificate marshal_certificate_verify marshal_finished unmarshal_handshake_message
    unmarshal_extensions unmarshal_certificate unmarshal_certificate_verify unmarshal_finished
    unmarshal_request validate_cmw_placement extract_cmw_attestation
ea_code = tt

abbrev pub authenticator : Bytes
authenticator =
    11 ∷ 0 ∷ 0 ∷ 11 ∷ 1 ∷ 42 ∷ 0 ∷ 0 ∷ 6 ∷ 0 ∷ 0 ∷ 1 ∷ 77 ∷ 0 ∷ 0 ∷ 15 ∷ 0 ∷ 0 ∷ 5 ∷ 8 ∷ 7 ∷ 0 ∷ 1
    ∷ 5 ∷ 20 ∷ 0 ∷ 0 ∷ 2 ∷ 9 ∷ 3 ∷ []

abbrev pub accepted_once : ValidationResult Bytes
accepted_once = record {
  context = 42 ∷ [];
  chain = (77 ∷ []) ∷ [];
  cmw_attestation = none;
  attestation = none;
  empty = false;
}

created :
    create_authenticator prim none session server (some request) none identity []
    ≡ (none, ok authenticator)
unfolding ea_code
created = refl

accepted :
    validate_authenticator prim fresh session server (some request) none no_verifiers authenticator
    ≡ (used_once, ok accepted_once)
unfolding ea_code
accepted = refl

refused_again :
    validate_authenticator prim used_once session server
      (some request)
      none
      no_verifiers
      authenticator
    ≡ (used_once, err context_reuse)
unfolding ea_code
refused_again = refl

fully_accepted_example :
    FullyAccepted prim fresh used_once session server
      (some request)
      none
      no_verifiers
      authenticator
      accepted_once
fully_accepted_example =
    fully_accepted prim fresh used_once session server (some request) none no_verifiers
      authenticator accepted_once (ground arith) accepted refl

-- A Finished message alone, and what it is accepted as.
abbrev empty_authenticator_bytes : Bytes
empty_authenticator_bytes = 20 ∷ 0 ∷ 0 ∷ 2 ∷ 9 ∷ 3 ∷ []

abbrev accepted_empty : ValidationResult Bytes
accepted_empty = record {
  context = 42 ∷ [];
  chain = [];
  cmw_attestation = none;
  attestation = none;
  empty = true;
}

empty_accepted :
    validate_authenticator prim fresh session server
      (some request)
      none
      no_verifiers
      empty_authenticator_bytes
    ≡ (used_once, ok accepted_empty)
unfolding ea_code
empty_accepted = refl

empty_ignores_attestation_example :
    validate_authenticator prim fresh session server
      (some request)
      none
      strict
      empty_authenticator_bytes
    ≡ (used_once, ok accepted_empty)
empty_ignores_attestation_example =
    empty_ignores_attestation prim fresh used_once session server (some request) none no_verifiers
      strict empty_authenticator_bytes accepted_empty empty_accepted refl

abbrev only_p256 : SpontaneousAuthenticatorPolicy
only_p256 = record { allowed_signature_schemes = 0x0403 ∷ []; allowed_certificate_extensions = [] }

schemes_not_enforced_example :
    validate_authenticator prim fresh session server none
      (some (with_schemes only_p256 []))
      strict
      authenticator
    ≡ validate_authenticator prim fresh session server none (some only_p256) strict authenticator
schemes_not_enforced_example =
    schemes_not_enforced prim only_p256 [] none fresh session server strict authenticator
