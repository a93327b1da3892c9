-- ===== src/Atls/Transport.antt =====
-- pkg/atls/internal_transport and the files of pkg/atls beside it: the exchange of a request for
-- an authenticator over a TLS connection, and the identity policy on what was accepted.
pub mod Frame
pub mod Identity
pub mod Client
pub mod Server
pub mod Tests
use session_bound_agent_iden.Atls.Tls.{Foreign}
use session_bound_agent_iden.Atls.Attestation.{AttErr}
use session_bound_agent_iden.Atls.Ea.Wire.{EaErr}
use session_bound_agent_iden.IdentityPolicy.Errors.{Error}
use session_bound_agent_iden.Atls.Transport.Frame.{FrameErr}

pub data TransportErr : Type 0 where
  missing_observed_identity missing_leaf missing_context handshake_incomplete : TransportErr
  expected_tls13 unexpected_frame_type trailing_request_bytes cmw_not_offered : TransportErr
  missing_identity missing_server_leaf missing_state : TransportErr
  frame_error : FrameErr → TransportErr
  ea_error : EaErr → TransportErr
  attestation_error : AttErr → TransportErr
  identity_error : Error → TransportErr
  foreign : Foreign → TransportErr
