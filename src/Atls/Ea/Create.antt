-- ===== src/Atls/Ea/Create.antt =====
-- pkg/atls/ea/authenticator.go: `createAuthenticator`. What it returns besides the bytes is the
-- session, in which the context is marked as used at the end.
use session_bound_agent_iden.Common.{
  ℕ, Option, none, some, List, [], ◌∷◌, ◌++◌, map, Bool, true, false, not, ◌&&◌, if◌then◌else◌,
  ◌==◌, is_nil, Result, ok, err, ◌>>=◌,
}
use session_bound_agent_iden.GoString.{Bytes}
use session_bound_agent_iden.Atls.Tls.{ConnectionState, version_tls13}
use session_bound_agent_iden.Atls.Ea.Wire.{
  EaErr, not_tls13, invalid_role, bad_request, unsupported_signature_scheme,
}
use session_bound_agent_iden.Atls.Ea.Extensions.{Extension}
use session_bound_agent_iden.Atls.Ea.Request.{
  AuthenticatorRequest, marshal_request, signature_schemes, new_random_context,
}
use session_bound_agent_iden.Atls.Ea.Messages.{
  CertificateEntry, marshal_certificate, marshal_certificate_verify, marshal_finished,
}
use session_bound_agent_iden.Atls.Ea.Policy.{
  SpontaneousAuthenticatorPolicy, validate_entry_extensions, policy_permits_scheme,
}
use session_bound_agent_iden.Atls.Ea.Session.{Session, mark_context_used}
use session_bound_agent_iden.Atls.Ea.Signatures.{
  Primitives, choose_signature_scheme, sign_cert_verify,
}
use session_bound_agent_iden.Atls.Ea.Transcript.{
  Role, client, server, AuthenticatorKeys, export_keys, hash_concat, finished_mac,
}

-- `tls.Certificate`: the chain in DER, and the private key or nil.
pub record Identity (K : Type 0) : Type 0 where
  pub certificates : List Bytes
  pub private_key : Option K

-- What a request contributes: its bytes, the schemes that it offers, and its context.
pub record RequestPart : Type 0 where
  pub request_bytes : Bytes
  pub offered : List ℕ
  pub context : Bytes

abbrev pub or_else {ℓ} : {A : Type ℓ} → EaErr → Option A → Result EaErr A
or_else e none = err e
or_else e (some a) = ok a

abbrev pub fail_with : Option EaErr → Result EaErr (Unit {0})
fail_with none = ok tt
fail_with (some e) = err e

abbrev pub is_given {ℓ} : {A : Type ℓ} → Option A → Bool
is_given none = false
is_given (some a) = true

abbrev pub is_client : Role → Bool
is_client client = true
is_client server = false

unfoldable pub request_part : AuthenticatorRequest → Result EaErr RequestPart
request_part req = marshal_request req >>= λ b.
    or_else bad_request (signature_schemes req) >>= λ offered.
    ok (record { request_bytes = b; offered = offered; context = req.context })

-- The key of an identity, or none for an empty authenticator.
pub identity_key : {K : Type 0} → Identity K → Result EaErr (Option K)
identity_key i = elim i.private_key [
  | none ↦ if is_nil i.certificates then ok none else err bad_request
  | some k ↦ if is_nil i.certificates then err bad_request else ok (some k)
]

-- The extensions go to the leaf, the first certificate.
pub certificate_entries : List Bytes → List Extension → List CertificateEntry
certificate_entries [] exts = []
certificate_entries (der ∷ ders) exts =
    record { cert_der = der; extensions = exts }
    ∷ map (λ d. record { cert_der = d; extensions = [] }) ders

module _ {K P C : Type 0} (prim : Primitives K P C) where
  -- The request's part, or a random context for a spontaneous authenticator.
  pub create_part : Option AuthenticatorRequest → Result EaErr RequestPart
  unfolding request_part new_random_context
  create_part (some req) = request_part req
  create_part none = new_random_context prim.random 32 >>= λ c.
      ok (record { request_bytes = []; offered = []; context = c })

  pub empty_authenticator : AuthenticatorKeys → RequestPart → Result EaErr Bytes
  unfolding finished_mac
  empty_authenticator keys part =
      marshal_certificate (record { context = part.context; entries = [] }) >>= λ cert.
      marshal_finished
        (finished_mac prim.hashes keys (keys.context ∷ part.request_bytes ∷ cert ∷ []))

  pub full_authenticator :
      AuthenticatorKeys → RequestPart → ℕ → K → List CertificateEntry → Result EaErr Bytes
  unfolding hash_concat finished_mac sign_cert_verify
  full_authenticator keys part scheme key entries =
      marshal_certificate (record { context = part.context; entries = entries }) >>= λ cert.
      sign_cert_verify prim key scheme
        (hash_concat prim.hashes keys.hash (keys.context ∷ part.request_bytes ∷ cert ∷ []))
      >>= λ sig.
          marshal_certificate_verify (record { algorithm = scheme; signature = sig }) >>= λ cv.
          marshal_finished
            (finished_mac prim.hashes keys (keys.context ∷ part.request_bytes ∷ cert ∷ cv ∷ []))
          >>= λ fin. ok (cert ++ (cv ++ fin))

  -- The authenticator of an identity, after the checks on the role and the extensions.
  pub authenticator_for :
      AuthenticatorKeys
      → Option AuthenticatorRequest
      → RequestPart
      → Option SpontaneousAuthenticatorPolicy
      → Identity K
      → Option K
      → List Extension
      → Result EaErr Bytes
  unfolding empty_authenticator full_authenticator certificate_entries
  authenticator_for keys none part policy identity none exts = err bad_request
  authenticator_for keys (some req) part policy identity none exts = empty_authenticator keys part
  authenticator_for keys req part policy identity (some key) exts =
      choose_signature_scheme (prim.private_kind key) part.offered >>= λ scheme.
      if not (is_given req) && not (policy_permits_scheme policy scheme)
      then err unsupported_signature_scheme
      else full_authenticator keys part scheme key (certificate_entries identity.certificates exts)

  -- Everything before the context is marked: the context and the bytes.
  pub build_authenticator :
      ConnectionState
      → Role
      → Option AuthenticatorRequest
      → Option SpontaneousAuthenticatorPolicy
      → Identity K
      → List Extension
      → Result EaErr (Bytes × Bytes)
  unfolding create_part identity_key authenticator_for export_keys
  build_authenticator st role req policy identity exts =
      if not (st.version == version_tls13)
      then err not_tls13
      else if not (is_given req) && is_client role
      then err invalid_role
      else (fail_with (validate_entry_extensions exts req policy) >>= λ _.
          identity_key identity >>= λ key. create_part req >>= λ part.
          export_keys st role >>= λ keys.
          authenticator_for keys req part policy identity key exts >>= λ out.
          ok (part.context, out))

  unfoldable pub create_authenticator :
      Option Session
      → ConnectionState
      → Role
      → Option AuthenticatorRequest
      → Option SpontaneousAuthenticatorPolicy
      → Identity K
      → List Extension
      → Option Session × Result EaErr Bytes
  unfolding build_authenticator mark_context_used
  create_authenticator session st role req policy identity exts =
      elim (build_authenticator st role req policy identity exts) [
        | err e ↦ (session, err e)
        | ok (context, out) ↦
            let (session', e) = mark_context_used session context in
            (session', fail_with e >>= λ _. ok out)
      ]
