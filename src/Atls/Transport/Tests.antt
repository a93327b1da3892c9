-- ===== src/Atls/Transport/Tests.antt =====
-- A client and a server over the toy session of the authenticators; witnesses.
use session_bound_agent_iden.Atls.Transport.Server.Requested.{request_received}
use session_bound_agent_iden.Common.{
  arith, Option, none, some, [], ◌∷◌, ◌++◌, ◌≡◌, ◌≢◌, ◌↔◌, refl, arith, ok, true,
}
use session_bound_agent_iden.GoString.{Bytes, bytes}
use session_bound_agent_iden.Atls.Ea.Wire.Numbers.{AreBytes}
use session_bound_agent_iden.Atls.Ea.Validate.Tests.{
  ea_code, prim, session, request, identity, no_verifiers, fresh, used_once, authenticator,
  accepted_once,
}
use session_bound_agent_iden.IdentityPolicy.Values.{enabled}
use session_bound_agent_iden.IdentityPolicy.Policy.Tests.{strict}
use session_bound_agent_iden.IdentityPolicy.Replay.{MemoryReplayCache, memory_cache}
use session_bound_agent_iden.IdentityPolicy.SessionBinding.{Statement, mark_session_binding_used}
use session_bound_agent_iden.IdentityPolicy.SessionBinding.Tests.{
  grant, statement, empty_cache, binding_code,
}
use session_bound_agent_iden.Atls.Transport.Frame.{Frame, read_frame, write_frame}
use session_bound_agent_iden.Atls.Transport.Frame.RoundTrip.{frame_roundtrip}
use session_bound_agent_iden.Atls.Transport.Identity.{expected_identity_binding}
use session_bound_agent_iden.Atls.Transport.Client.{
  client_request, ClientConfig, Conn, client, receive,
}
use session_bound_agent_iden.Atls.Transport.Client.Accept.{ClientAccepted, client_accepts}
use session_bound_agent_iden.Atls.Transport.Server.{receive_request, ServerConfig, serve}

abbrev frame : Frame
frame = record { type = 2; payload = 9 ∷ [] }

frame_roundtrip_example : (read_frame (2 ∷ 0 ∷ 0 ∷ 0 ∷ 1 ∷ 9 ∷ 4 ∷ []) ≡ ok (frame, 4 ∷ [])) ↔ (
    (c : Bytes) × (write_frame frame ≡ ok c)
    × (2 ∷ 0 ∷ 0 ∷ 0 ∷ 1 ∷ 9 ∷ 4 ∷ [] ≡ c ++ (4 ∷ []))
    × (frame.type ≢ 0))
frame_roundtrip_example =
    frame_roundtrip (2 ∷ 0 ∷ 0 ∷ 0 ∷ 1 ∷ 9 ∷ 4 ∷ []) (4 ∷ []) frame (ground arith)

-- The hash of the toy session in hexadecimal digits.
abbrev bound_statement : Statement
bound_statement = record statement {
  binding = record {
    leaf_public_key_sha256 = bytes "07";
    tls_exporter_sha256 = bytes "exporter";
    request_context_sha256 = bytes "07";
    attestation_binder_sha256 = [];
    nonce = bytes "n1";
    issued_at = 10;
    expires_at = 20;
  };
}

abbrev config : ClientConfig Bytes (Option MemoryReplayCache)
config = record {
  attestation_policy = no_verifiers;
  identity_policy = strict;
  observed_identity = none;
  identity_grant = some grant;
  identity_binding = some bound_statement;
  identity_replay = some (memory_cache 15);
  request = some request;
  request_builder = none;
}

abbrev peer : Bytes → Bytes
peer b = 2 ∷ 0 ∷ 0 ∷ 0 ∷ 30 ∷ authenticator

abbrev marked_cache : Option MemoryReplayCache
marked_cache = (mark_session_binding_used (some (memory_cache 15)) empty_cache bound_statement).0

abbrev connection : Conn Bytes
connection = record { request = request; validation_result = some accepted_once }

connected :
    client prim config fresh empty_cache session peer 15
    ≡ ((used_once, marked_cache), ok connection)
unfolding ea_code binding_code client read_frame write_frame receive enabled
    expected_identity_binding
connected = refl

policy_on : enabled config.identity_policy ≡ true
unfolding enabled
policy_on = refl

peer_bytes : (b : Bytes) → AreBytes (peer b)
peer_bytes b = ground arith

client_accepts_example :
    ClientAccepted prim config fresh used_once empty_cache marked_cache session peer 15 connection
client_accepts_example =
    client_accepts prim config fresh used_once empty_cache marked_cache session peer 15 connection
      peer_bytes refl policy_on connected

-- The server of that session sends the bytes that the peer above does.
abbrev server_config : ServerConfig (Unit {0}) Bytes
server_config = record { tls_certificates = []; identity = identity; build_leaf_extensions = none }

abbrev request_frame : Bytes
request_frame =
    1 ∷ 0 ∷ 0 ∷ 0 ∷ 20 ∷ 17 ∷ 0 ∷ 0 ∷ 16 ∷ 1 ∷ 42 ∷ 0 ∷ 12 ∷ 0 ∷ 13 ∷ 0 ∷ 4 ∷ 0 ∷ 2 ∷ 8 ∷ 7 ∷ 255
    ∷ 0 ∷ 0 ∷ 0 ∷ []

served :
    serve prim server_config none session request_frame
    ≡ (none, ok (peer [], record { request = request; validation_result = none }))
unfolding ea_code serve read_frame write_frame receive
served = refl

requested : client_request prim config ≡ ok (request, request_frame)
unfolding ea_code client_request write_frame
requested = refl

request_received_example : receive_request request_frame ≡ ok request
request_received_example =
    request_received prim config request request_frame (omega arith, (omega arith, tt)) requested
