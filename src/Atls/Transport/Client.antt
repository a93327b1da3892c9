-- ===== src/Atls/Transport/Client.antt =====
-- pkg/atls/internal_transport/conn.go: the client's end of the exchange. What the peer sends is a
-- byte string, the clock reading is an argument, and deadlines and the TLS handshake are left out: the
-- connection is one whose handshake succeeded.
pub mod Sound
pub mod Accept
use session_bound_agent_iden.Common.{
  map_err, ℕ, ◌==◌, Option, none, some, List, [], ◌∷◌, Bool, true, false, not, ◌&&◌, ◌||◌,
  if◌then◌else◌, is_nil, Result, ok, err, ◌>>=◌,
}
use session_bound_agent_iden.GoString.{Bytes}
use session_bound_agent_iden.GoTime.{Time}
use session_bound_agent_iden.Atls.Tls.{ConnectionState, Foreign}
use session_bound_agent_iden.Atls.Attestation.{VerificationPolicy}
use session_bound_agent_iden.Atls.Ea.Wire.{EaErr, handshake_type_client_certificate_request}
use session_bound_agent_iden.Atls.Ea.Extensions.{
  Extension, cmw_attestation_extension_type, cmw_attestation_offer_extension,
}
use session_bound_agent_iden.Atls.Ea.Request.{
  AuthenticatorRequest, marshal_request, unmarshal_request, new_random_context,
  signature_algorithms_extension,
}
use session_bound_agent_iden.Atls.Ea.Policy.{request_permits}
use session_bound_agent_iden.Atls.Ea.Session.{Session}
use session_bound_agent_iden.Atls.Ea.Signatures.{Primitives, scheme_ecdsa_p256}
use session_bound_agent_iden.Atls.Ea.Transcript.{server}
use session_bound_agent_iden.Atls.Ea.Create.{Identity, create_authenticator, is_given}
use session_bound_agent_iden.Atls.Ea.Validate.{ValidationResult, Shared, validate_authenticator}
use session_bound_agent_iden.IdentityPolicy.Errors.{Error}
use session_bound_agent_iden.IdentityPolicy.Values.{Assertion, Policy, enabled}
use session_bound_agent_iden.IdentityPolicy.Policy.{validate_assertion}
use session_bound_agent_iden.IdentityPolicy.Replay.{ReplayCache}
use session_bound_agent_iden.IdentityPolicy.SessionBinding.{
  VerifiedGrant, Statement, new_assertion, mark_session_binding_used,
}
use session_bound_agent_iden.Atls.Transport.{
  TransportErr, missing_observed_identity, unexpected_frame_type, trailing_request_bytes,
  cmw_not_offered, missing_identity, missing_server_leaf, frame_error, ea_error, identity_error,
  foreign,
}
use session_bound_agent_iden.Atls.Transport.Frame.{
  FrameErr, Frame, frame_type_request, frame_type_authenticator, read_frame, write_frame,
}
use session_bound_agent_iden.Atls.Transport.Identity.{expected_identity_binding}

-- `ClientConfig`; the session and the verify options are part of the state, and `S` is the state
-- of the replay cache.
pub record ClientConfig (C S : Type 0) : Type 0 where
  pub attestation_policy : VerificationPolicy
  pub identity_policy : Policy
  pub observed_identity :
      Option (ConnectionState → ValidationResult C → Result TransportErr Assertion)
  pub identity_grant : Option VerifiedGrant
  pub identity_binding : Option Statement
  pub identity_replay : Option (ReplayCache S)
  pub request : Option AuthenticatorRequest
  pub request_builder : Option (Result TransportErr AuthenticatorRequest)

-- `Conn`: the request, and the validation result of a client.
pub record Conn (C : Type 0) : Type 0 where
  pub request : AuthenticatorRequest
  pub validation_result : Option (ValidationResult C)

abbrev pub identity_failure : Option Error → Result TransportErr (Unit {0})
identity_failure none = ok tt
identity_failure (some e) = err (identity_error e)

-- A frame of the expected type.
unfoldable pub receive : ℕ → Bytes → Result TransportErr Bytes
receive type received = map_err frame_error (read_frame received) >>= λ (f, rest).
    if not (f.type == type) then err unexpected_frame_type else ok f.payload

-- The nonce of a statement is marked where there is a statement.
unfoldable pub mark_statement :
    {C S : Type 0} → ClientConfig C S → S → Option Statement → S × Result TransportErr (Unit {0})
mark_statement cfg c none = (c, ok tt)
mark_statement cfg c (some statement) =
    let (c', e) = mark_session_binding_used cfg.identity_replay c statement in
    (c', identity_failure e)

module _ {K P C S : Type 0} (prim : Primitives K P C) where
  unfoldable pub build_request : ClientConfig C S → Result TransportErr AuthenticatorRequest
  build_request cfg = elim cfg.request_builder [
    | some built ↦ built
    | none ↦ elim cfg.request [
      | some req ↦ ok req
      | none ↦ map_err ea_error (new_random_context prim.random 32) >>= λ context.
          map_err ea_error (signature_algorithms_extension (scheme_ecdsa_p256 ∷ [])) >>= λ sig_ext.
          ok (record {
            type = handshake_type_client_certificate_request;
            context = context;
            extensions = sig_ext ∷ cmw_attestation_offer_extension ∷ [];
          })
    ]
  ]

  -- The assertion, with the statement whose nonce is marked once it is accepted. Here no replay
  -- cache is asked.
  unfoldable pub observed_identity_assertion :
      ClientConfig C S
      → S
      → ConnectionState
      → ValidationResult C
      → Time
      → Result TransportErr (Assertion × Option Statement)
  observed_identity_assertion cfg c st v now = elim cfg.observed_identity [
    | some observe ↦ observe st v >>= λ a. ok (a, none)
    | none ↦ elim cfg.identity_grant [
      | none ↦ err missing_observed_identity
      | some grant ↦ elim cfg.identity_binding [
        | none ↦ err missing_observed_identity
        | some statement ↦
            map_err identity_error (new_assertion grant statement now none c).1 >>= λ a.
            ok (a, some statement)
      ]
    ]
  ]

  -- The identity checks before a nonce is marked.
  unfoldable pub check_identity :
      ClientConfig C S
      → S
      → ConnectionState
      → ValidationResult C
      → Time
      → Result TransportErr (Option Statement)
  unfolding observed_identity_assertion
  check_identity cfg c st v now =
      observed_identity_assertion cfg c st v now >>= λ (assertion, statement).
      expected_identity_binding prim v >>= λ expected.
      identity_failure (validate_assertion cfg.identity_policy assertion expected now) >>= λ _.
      ok statement

  unfoldable pub validate_identity_policy :
      ClientConfig C S
      → S
      → ConnectionState
      → ValidationResult C
      → Time
      → S × Result TransportErr (Unit {0})
  unfolding check_identity mark_statement
  validate_identity_policy cfg c st v now =
      if not (enabled cfg.identity_policy)
      then (c, ok tt)
      else elim (check_identity cfg c st v now) [
        | err e ↦ (c, err e)
        | ok statement ↦ mark_statement cfg c statement
      ]

  -- What `ClientContext` sends.
  unfoldable pub client_request :
      ClientConfig C S → Result TransportErr (AuthenticatorRequest × Bytes)
  unfolding build_request
  client_request cfg = build_request cfg >>= λ req. map_err ea_error (marshal_request req) >>= λ b.
      map_err frame_error (write_frame (record { type = frame_type_request; payload = b }))
      >>= λ sent. ok (req, sent)

  -- What it makes of the answer.
  unfoldable pub accept_authenticator :
      ClientConfig C S
      → Shared C
      → S
      → ConnectionState
      → AuthenticatorRequest
      → Bytes
      → Time
      → (Shared C × S) × Result TransportErr (Conn C)
  unfolding validate_identity_policy
  accept_authenticator cfg w c st req auth_bytes now =
      let (w', validated) =
        validate_authenticator prim w st server (some req) none cfg.attestation_policy auth_bytes in
      elim validated [
        | err e ↦ ((w', c), err (ea_error e))
        | ok v ↦
            let (c', checked) = validate_identity_policy cfg c st v now in
            ((w', c'), checked >>= λ _. ok (record { request = req; validation_result = some v }))
      ]

  -- `ClientContext` on a connection: the peer answers what it is sent.
  unfoldable pub client :
      ClientConfig C S
      → Shared C
      → S
      → ConnectionState
      → (Bytes → Bytes)
      → Time
      → (Shared C × S) × Result TransportErr (Conn C)
  unfolding client_request receive accept_authenticator
  client cfg w c st peer now = elim (client_request cfg) [
    | err e ↦ ((w, c), err e)
    | ok (req, sent) ↦ elim (receive frame_type_authenticator (peer sent)) [
      | err e ↦ ((w, c), err e)
      | ok auth_bytes ↦ accept_authenticator cfg w c st req auth_bytes now
    ]
  ]
