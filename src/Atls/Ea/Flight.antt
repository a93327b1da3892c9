-- ===== src/Atls/Ea/Flight.antt =====
-- pkg/atls/ea/authenticator.go: the part of `validateAuthenticator` that reads the messages of an
-- authenticator and checks them, before any state changes.
pub mod Sound
use session_bound_agent_iden.Common.{
  ℕ, Option, none, some, List, [], ◌∷◌, Bool, true, false, not, ◌&&◌, ◌||◌, if◌then◌else◌, ◌==◌,
  is_nil, any, Result, ok, err, ◌>>=◌,
}
use session_bound_agent_iden.GoString.{Bytes, bytes_eq}
use session_bound_agent_iden.Atls.Ea.Wire.{
  EaErr, bad_request, unsupported_handshake_type, invalid_length, context_mismatch,
  finished_mismatch, unsupported_signature_scheme, HandshakeMessage, unmarshal_handshake_message,
  handshake_type_certificate, handshake_type_certificate_verify, handshake_type_finished,
}
use session_bound_agent_iden.Atls.Ea.Extensions.{
  extract_cmw_attestation, cmw_attestation_extension_type,
}
use session_bound_agent_iden.Atls.Ea.Request.{AuthenticatorRequest}
use session_bound_agent_iden.Atls.Ea.Messages.{
  CertificateMessage, CertificateEntry, CertificateVerifyMessage, raw_bytes, marshal_certificate,
  unmarshal_certificate, unmarshal_certificate_verify, unmarshal_finished,
}
use session_bound_agent_iden.Atls.Ea.Policy.{
  SpontaneousAuthenticatorPolicy, validate_entry_extensions, validate_cmw_placement, permits,
}
use session_bound_agent_iden.Atls.Ea.Signatures.{Primitives, verify_cert_verify}
use session_bound_agent_iden.Atls.Ea.Transcript.{AuthenticatorKeys, hash_concat, finished_mac}
use session_bound_agent_iden.Atls.Ea.Create.{RequestPart, fail_with, is_given}

-- The three messages behind a first one of type Certificate, with the bytes of the first two.
pub record Flight : Type 0 where
  pub cert : CertificateMessage
  pub cert_bytes : Bytes
  pub verify : CertificateVerifyMessage
  pub verify_bytes : Bytes
  pub verify_data : Bytes

-- What the checks accept, before any state changes: the chain, split at its leaf, and the evidence.
pub record Accepted (C : Type 0) : Type 0 where
  pub context : Bytes
  pub leaf : C
  pub intermediates : List C
  pub evidence : Option Bytes

-- The next message, which has the given type; any error becomes one error.
pub next_message : ℕ → EaErr → Bytes → Result EaErr (HandshakeMessage × Bytes)
next_message type e b = elim (unmarshal_handshake_message b) [
  | err x ↦ err e
  | ok (m, rest) ↦ if not (m.type == type) then err e else ok (m, rest)
]

-- The messages behind a Certificate message.
pub split_flight : HandshakeMessage → Bytes → Result EaErr Flight
unfolding next_message
split_flight cert_hm rest =
    next_message handshake_type_certificate_verify unsupported_handshake_type rest
    >>= λ (cv_hm, rest').
        next_message handshake_type_finished invalid_length rest' >>= λ (fin_hm, rest'').
        if not (is_nil rest'')
        then err invalid_length
        else (unmarshal_certificate (raw_bytes cert_hm) >>= λ (cert, _).
            unmarshal_certificate_verify (raw_bytes cv_hm) >>= λ (cv, _).
            unmarshal_finished (raw_bytes fin_hm) >>= λ (verify_data, _). ok (record {
              cert = cert;
              cert_bytes = raw_bytes cert_hm;
              verify = cv;
              verify_bytes = raw_bytes cv_hm;
              verify_data = verify_data;
            }))

-- The checks on every entry's extensions.
unfoldable pub validate_entries :
    List CertificateEntry
    → Option AuthenticatorRequest
    → Option SpontaneousAuthenticatorPolicy
    → Option EaErr
unfolding validate_entry_extensions
validate_entries [] req policy = none
validate_entries (e ∷ es) req policy =
    let rest = validate_entries es req policy in
    elim (validate_entry_extensions e.extensions req policy) [ some x ↦ some x | none ↦ rest ]

pub context_differs : Option AuthenticatorRequest → Bytes → Bool
context_differs none context = false
context_differs (some req) context = not (bytes_eq context req.context)

-- The evidence of the first entry, if the request or the policy lets it stand there.
unfoldable pub leaf_evidence :
    CertificateEntry
    → Option AuthenticatorRequest
    → Option SpontaneousAuthenticatorPolicy
    → Result EaErr (Option Bytes)
unfolding permits
leaf_evidence first req policy = extract_cmw_attestation first.extensions >>= λ evidence.
    if is_given evidence && not (permits req policy cmw_attestation_extension_type)
    then err bad_request
    else ok evidence

pub scheme_offered : Option AuthenticatorRequest → List ℕ → ℕ → Bool
scheme_offered none offered scheme = true
scheme_offered (some req) offered scheme = any (λ s. s == scheme) offered

module _ {K P C : Type 0} (prim : Primitives K P C) where
  pub parse_chain : List CertificateEntry → Result EaErr (List C)
  parse_chain [] = ok []
  parse_chain (e ∷ es) =
      prim.parse_certificate e.cert_der >>= λ c. parse_chain es >>= λ cs. ok (c ∷ cs)

  -- The signature and the MAC over the transcript.
  pub verify_proofs : AuthenticatorKeys → Bytes → Flight → C → Option EaErr
  unfolding hash_concat finished_mac verify_cert_verify
  verify_proofs keys request_bytes f leaf =
      elim (verify_cert_verify prim (prim.public_key leaf) f.verify.algorithm
        (hash_concat prim.hashes keys.hash (keys.context ∷ request_bytes ∷ f.cert_bytes ∷ []))
        f.verify.signature) [
          | some e ↦ some e
          | none ↦
              if not (
                bytes_eq
                  (finished_mac prim.hashes keys
                    (keys.context ∷ request_bytes ∷ f.cert_bytes ∷ f.verify_bytes ∷ []))
                  f.verify_data)
              then some finished_mismatch
              else none
        ]

  -- The checks on a leaf and its chain.
  pub check_chain :
      AuthenticatorKeys
      → Option AuthenticatorRequest
      → RequestPart
      → Flight
      → Option Bytes
      → List C
      → Result EaErr (Accepted C)
  unfolding scheme_offered verify_proofs
  check_chain keys req part f evidence [] = err unsupported_handshake_type
  check_chain keys req part f evidence (leaf ∷ others) =
      if not (scheme_offered req part.offered f.verify.algorithm)
      then err unsupported_signature_scheme
      else (fail_with (verify_proofs keys part.request_bytes f leaf) >>= λ _. ok (record {
        context = f.cert.context;
        leaf = leaf;
        intermediates = others;
        evidence = evidence;
      }))

  -- The checks on the entries. No entries is malformed.
  unfoldable pub check_entries :
      AuthenticatorKeys
      → Option AuthenticatorRequest
      → Option SpontaneousAuthenticatorPolicy
      → RequestPart
      → Flight
      → List CertificateEntry
      → Result EaErr (Accepted C)
  unfolding validate_entries leaf_evidence parse_chain check_chain
  check_entries keys req policy part f [] = err unsupported_handshake_type
  check_entries keys req policy part f (first ∷ others) =
      fail_with (validate_cmw_placement (first ∷ others)) >>= λ _.
      fail_with (validate_entries (first ∷ others) req policy) >>= λ _.
      leaf_evidence first req policy >>= λ evidence.
      parse_chain (first ∷ others) >>= λ chain. check_chain keys req part f evidence chain

  -- The checks on the messages of a full authenticator.
  unfoldable pub check_flight :
      AuthenticatorKeys
      → Option AuthenticatorRequest
      → Option SpontaneousAuthenticatorPolicy
      → RequestPart
      → Flight
      → Result EaErr (Accepted C)
  unfolding check_entries context_differs
  check_flight keys req policy part f =
      if context_differs req f.cert.context
      then err context_mismatch
      else check_entries keys req policy part f f.cert.entries

  -- A Finished message alone stands for an empty authenticator, on request only.
  pub check_empty :
      AuthenticatorKeys
      → Option AuthenticatorRequest
      → RequestPart
      → HandshakeMessage
      → Bytes
      → Result EaErr (Unit {0})
  unfolding finished_mac
  check_empty keys req part first rest =
      if not (is_given req) || not (is_nil rest)
      then err unsupported_handshake_type
      else (unmarshal_finished (raw_bytes first) >>= λ (verify_data, _).
          marshal_certificate (record { context = part.context; entries = [] }) >>= λ cert.
          if not (
            bytes_eq (finished_mac prim.hashes keys (keys.context ∷ part.request_bytes ∷ cert ∷ []))
              verify_data)
          then err finished_mismatch
          else ok tt)

  -- What the bytes of an authenticator are: `none` for an accepted empty one.
  unfoldable pub check_authenticator :
      AuthenticatorKeys
      → Option AuthenticatorRequest
      → Option SpontaneousAuthenticatorPolicy
      → RequestPart
      → Bytes
      → Result EaErr (Option (Accepted C))
  unfolding check_empty check_flight split_flight
  check_authenticator keys req policy part auth_bytes =
      unmarshal_handshake_message auth_bytes >>= λ (first, rest).
      if first.type == handshake_type_finished
      then (check_empty keys req part first rest >>= λ _. ok none)
      else if not (first.type == handshake_type_certificate)
      then err unsupported_handshake_type
      else (split_flight first rest >>= λ f.
          check_flight keys req policy part f >>= λ a. ok (some a))
