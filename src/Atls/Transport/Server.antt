-- ===== src/Atls/Transport/Server.antt =====
-- pkg/atls/internal_transport/conn.go: the server's end of the exchange.
pub mod Requested
use session_bound_agent_iden.Common.{
  map_err, Option, none, some, List, [], ◌∷◌, not, ◌&&◌, if◌then◌else◌, is_nil, Result, ok, err,
  ◌>>=◌,
}
use session_bound_agent_iden.GoString.{Bytes}
use session_bound_agent_iden.Atls.Tls.{ConnectionState}
use session_bound_agent_iden.Atls.Ea.Extensions.{Extension, cmw_attestation_extension_type}
use session_bound_agent_iden.Atls.Ea.Request.{AuthenticatorRequest, unmarshal_request}
use session_bound_agent_iden.Atls.Ea.Policy.{request_permits}
use session_bound_agent_iden.Atls.Ea.Session.{Session}
use session_bound_agent_iden.Atls.Ea.Signatures.{Primitives}
use session_bound_agent_iden.Atls.Ea.Transcript.{server}
use session_bound_agent_iden.Atls.Ea.Create.{Identity, create_authenticator, is_given}
use session_bound_agent_iden.Atls.Transport.{
  ea_error, frame_error, TransportErr, trailing_request_bytes, cmw_not_offered, missing_identity,
  missing_server_leaf,
}
use session_bound_agent_iden.Atls.Transport.Frame.{
  frame_type_request, frame_type_authenticator, write_frame,
}
use session_bound_agent_iden.Atls.Transport.Client.{Conn, receive}

-- `ServerConfig`, with the certificates of its TLS configuration.
pub record ServerConfig (K C : Type 0) : Type 0 where
  pub tls_certificates : List (Identity K)
  pub identity : Identity K
  pub build_leaf_extensions :
      Option (ConnectionState → AuthenticatorRequest → C → Result TransportErr (List Extension))

-- The frame of a request, which fills it.
unfoldable pub receive_request : Bytes → Result TransportErr AuthenticatorRequest
unfolding receive
receive_request received = receive frame_type_request received >>= λ b.
    map_err ea_error (unmarshal_request b) >>= λ (req, rest).
    if not (is_nil rest) then err trailing_request_bytes else ok req

unfoldable pub resolve_identity :
    {K C : Type 0} → ServerConfig K C → Result TransportErr (Identity K)
resolve_identity cfg =
    if not (is_nil cfg.identity.certificates) && is_given cfg.identity.private_key
    then ok cfg.identity
    else elim cfg.tls_certificates [ [] ↦ err missing_identity | i ∷ others ↦ ok i ]

module _ {K P C : Type 0} (prim : Primitives K P C) where
  unfoldable pub build_server_extensions :
      ServerConfig K C
      → ConnectionState
      → AuthenticatorRequest
      → Identity K
      → Result TransportErr (List Extension)
  build_server_extensions cfg st req i = elim cfg.build_leaf_extensions [
    | none ↦ ok []
    | some build ↦ elim i.certificates [
      | [] ↦ err missing_server_leaf
      | der ∷ others ↦ map_err ea_error (prim.parse_certificate der) >>= λ leaf. build st req leaf
    ]
  ]

  -- What is made of a request before the session is used: the request, the identity and the
  -- extensions of the leaf.
  unfoldable pub prepare :
      ServerConfig K C
      → ConnectionState
      → Bytes
      → Result TransportErr (AuthenticatorRequest × Identity K × List Extension)
  unfolding receive_request resolve_identity build_server_extensions
  prepare cfg st received = receive_request received >>= λ req.
      if is_given cfg.build_leaf_extensions
        && not (request_permits (some req) cmw_attestation_extension_type)
      then err cmw_not_offered
      else (resolve_identity cfg >>= λ i.
          build_server_extensions cfg st req i >>= λ exts. ok (req, i, exts))

  -- `Server` on what it receives: the session, the bytes that it sends, and the connection.
  unfoldable pub serve :
      ServerConfig K C
      → Option Session
      → ConnectionState
      → Bytes
      → Option Session × Result TransportErr (Bytes × Conn C)
  unfolding prepare
  serve cfg session st received = elim (prepare cfg st received) [
    | err e ↦ (session, err e)
    | ok (req, i, exts) ↦
        let (session', created) =
          create_authenticator prim session st server (some req) none i exts in
        (
          session',
          map_err ea_error created >>= λ b.
              map_err frame_error
                (write_frame (record { type = frame_type_authenticator; payload = b }))
              >>= λ sent. ok (sent, record { request = req; validation_result = none }),
        )
  ]
