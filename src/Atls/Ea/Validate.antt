-- ===== src/Atls/Ea/Validate.antt =====
-- pkg/atls/ea/authenticator.go: `validateAuthenticator`. After the checks of Flight it adds the
-- intermediates to the caller's pool, verifies the chain, marks the context as used and verifies
-- the attestation.
pub mod Sound
pub mod Gaps
pub mod Tests
use session_bound_agent_iden.Common.{
  Option, none, some, List, [], ◌∷◌, ◌++◌, Bool, true, false, not, if◌then◌else◌, ◌==◌, Result, ok,
  err, ◌>>=◌,
}
use session_bound_agent_iden.GoString.{Bytes}
use session_bound_agent_iden.Atls.Tls.{ConnectionState, version_tls13}
use session_bound_agent_iden.Atls.Attestation.{
  missing_attestation, VerificationPolicy, VerifiedPayload, requires_attestation, parse_payload,
  verify_payload, exporter_label_attestation,
}
use session_bound_agent_iden.Atls.Ea.Wire.{EaErr, not_tls13, unattested}
use session_bound_agent_iden.Atls.Ea.Request.{AuthenticatorRequest}
use session_bound_agent_iden.Atls.Ea.Policy.{SpontaneousAuthenticatorPolicy}
use session_bound_agent_iden.Atls.Ea.Session.{Session, mark_context_used}
use session_bound_agent_iden.Atls.Ea.Signatures.{Primitives}
use session_bound_agent_iden.Atls.Ea.Transcript.{Role, export_keys}
use session_bound_agent_iden.Atls.Ea.Flight.{Accepted, check_authenticator}
use session_bound_agent_iden.Atls.Ea.Create.{RequestPart, request_part, fail_with}

-- `ValidationResult`
pub record ValidationResult (C : Type 0) : Type 0 where
  pub context : Bytes
  pub chain : List C
  pub cmw_attestation : Option Bytes
  pub attestation : Option VerifiedPayload
  pub empty : Bool

-- `x509.VerifyOptions`: the pool of intermediates, shared with the caller, if there is one, and
-- the verification of a leaf with a pool.
pub record VerifyOptions (C : Type 0) : Type 0 where
  pub pool : Option (List C)
  pub verify : List C → C → Option EaErr

-- What a call may change: the session, and the caller's pool.
pub record Shared (C : Type 0) : Type 0 where
  pub session : Option Session
  pub options : Option (VerifyOptions C)

module _ {K P C : Type 0} (prim : Primitives K P C) where
  pub validate_part : Option AuthenticatorRequest → Result EaErr RequestPart
  unfolding request_part
  validate_part none = ok (record { request_bytes = []; offered = []; context = [] })
  validate_part (some req) = request_part req

  -- The attestation, which the policy may require.
  pub check_attestation :
      ConnectionState → VerificationPolicy → Accepted C → Result EaErr (Option VerifiedPayload)
  unfolding verify_payload parse_payload
  check_attestation st att a = elim a.evidence [
    | none ↦ if requires_attestation att then err (unattested missing_attestation) else ok none
    | some evidence ↦
        elim (parse_payload prim.decode_payload evidence >>= λ p.
        verify_payload prim.hashes st exporter_label_attestation a.context (some (prim.leaf a.leaf))
          p att) [ err e ↦ err (unattested e) | ok v ↦ ok (some v) ]
  ]

  -- `opts.Intermediates.AddCert`: the pool of the caller, or a new one where it has none.
  abbrev add_intermediates : List C → VerifyOptions C → VerifyOptions C × List C
  add_intermediates cs o = elim o.pool [
    | none ↦ (o, cs)
    | some pool ↦ (record o { pool = some (pool ++ cs) }, pool ++ cs)
  ]

  -- The verification of the chain, and the options as it leaves them.
  pub verify_chain : Option (VerifyOptions C) → Accepted C → Option (VerifyOptions C) × Option EaErr
  verify_chain none a = (none, none)
  verify_chain (some o) a =
      let (o', pool) = add_intermediates a.intermediates o in (some o', o.verify pool a.leaf)

  pub accepted_result : Accepted C → Option VerifiedPayload → ValidationResult C
  accepted_result a att = record {
    context = a.context;
    chain = a.leaf ∷ a.intermediates;
    cmw_attestation = a.evidence;
    attestation = att;
    empty = false;
  }

  -- From the first change of state on.
  pub finish_full :
      Shared C
      → ConnectionState
      → VerificationPolicy
      → Accepted C
      → Shared C × Result EaErr (ValidationResult C)
  unfolding verify_chain check_attestation mark_context_used accepted_result
  finish_full w st att a =
      let (options, chain_error) = verify_chain w.options a in
      elim chain_error [
        | some e ↦ (record w { options = options }, err e)
        | none ↦
            let (session, reuse) = mark_context_used w.session a.context in
            (
              record { session = session; options = options },
              fail_with reuse >>= λ _. check_attestation st att a >>= λ v. ok (accepted_result a v),
            )
      ]

  pub finish_empty : Shared C → Bytes → Shared C × Result EaErr (ValidationResult C)
  unfolding mark_context_used
  finish_empty w context =
      let (session, reuse) = mark_context_used w.session context in
      (
        record w { session = session },
        fail_with reuse >>= λ _. ok (record {
          context = context;
          chain = [];
          cmw_attestation = none;
          attestation = none;
          empty = true;
        }),
      )

  -- The checks up to the first change of state: the request's context beside what is accepted.
  unfoldable pub check_all :
      ConnectionState
      → Role
      → Option AuthenticatorRequest
      → Option SpontaneousAuthenticatorPolicy
      → Bytes
      → Result EaErr (Bytes × Option (Accepted C))
  unfolding validate_part check_authenticator export_keys
  check_all st role req policy auth_bytes =
      if not (st.version == version_tls13)
      then err not_tls13
      else (export_keys st role >>= λ keys. validate_part req >>= λ part.
          check_authenticator prim keys req policy part auth_bytes >>= λ a. ok (part.context, a))

  -- A nil attestation policy has no verifiers.
  unfoldable pub validate_authenticator :
      Shared C
      → ConnectionState
      → Role
      → Option AuthenticatorRequest
      → Option SpontaneousAuthenticatorPolicy
      → VerificationPolicy
      → Bytes
      → Shared C × Result EaErr (ValidationResult C)
  unfolding check_all finish_empty finish_full
  validate_authenticator w st role req policy att auth_bytes =
      elim (check_all st role req policy auth_bytes) [
        | err e ↦ (w, err e)
        | ok (context, none) ↦ finish_empty w context
        | ok (context, some a) ↦ finish_full w st att a
      ]
