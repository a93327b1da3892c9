-- ===== src/Atls/Ea/Tests.antt =====
-- Messages of pkg/atls/ea on concrete bytes; witnesses.
use session_bound_agent_iden.Common.{err, none, some, [], ◌∷◌, ◌≡◌, ◌≢◌, ◌↔◌, refl, arith, ok}
use session_bound_agent_iden.GoString.{Bytes, bytes_eq}
use session_bound_agent_iden.Atls.Ea.Wire.{
  invalid_length, handshake_type_client_certificate_request, context_reuse,
  marshal_handshake_message, unmarshal_handshake_message, parse_all,
}
use session_bound_agent_iden.Atls.Ea.Extensions.{
  get_extension, marshal_extensions, unmarshal_extensions,
}
use session_bound_agent_iden.Atls.Ea.Extensions.RoundTrip.{extensions_loop_ends}
use session_bound_agent_iden.Atls.Ea.Request.{
  AuthenticatorRequest, marshal_request, unmarshal_request,
}
use session_bound_agent_iden.Atls.Ea.Request.RoundTrip.{request_roundtrip}
use session_bound_agent_iden.Atls.Ea.Messages.{
  CertificateMessage, marshal_certificate, unmarshal_certificate,
}
use session_bound_agent_iden.Atls.Ea.Messages.RoundTrip.{certificate_roundtrip}
use session_bound_agent_iden.Atls.Ea.Session.{new_session, Session, mark_context_used}
use session_bound_agent_iden.Atls.Ea.Session.Once.{Marked, now, marked, context_once}

abbrev request : AuthenticatorRequest
request = record {
  type = handshake_type_client_certificate_request;
  context = 42 ∷ [];
  extensions = record { type = 13; payload = 0 ∷ 2 ∷ 8 ∷ 7 ∷ [] } ∷ [];
}

abbrev request_bytes : Bytes
request_bytes = 17 ∷ 0 ∷ 0 ∷ 12 ∷ 1 ∷ 42 ∷ 0 ∷ 8 ∷ 0 ∷ 13 ∷ 0 ∷ 4 ∷ 0 ∷ 2 ∷ 8 ∷ 7 ∷ []

request_written : marshal_request request ≡ ok request_bytes
unfolding marshal_request marshal_extensions marshal_handshake_message
request_written = refl

-- One byte too many is an error.
trailing_byte : unmarshal_request (17 ∷ 0 ∷ 0 ∷ 5 ∷ 1 ∷ 42 ∷ 0 ∷ 0 ∷ 9 ∷ []) ≡ err invalid_length
unfolding unmarshal_request unmarshal_handshake_message unmarshal_extensions
trailing_byte = refl

request_roundtrip_example :
    (unmarshal_request request_bytes ≡ ok (request, []))
    ↔ (marshal_request request ≡ ok request_bytes)
request_roundtrip_example = request_roundtrip request_bytes request (ground arith) (omega arith, tt)

abbrev certificate : CertificateMessage
certificate = record {
  context = 42 ∷ [];
  entries = record { cert_der = 77 ∷ 78 ∷ []; extensions = [] } ∷ [];
}

abbrev certificate_bytes : Bytes
certificate_bytes = 11 ∷ 0 ∷ 0 ∷ 12 ∷ 1 ∷ 42 ∷ 0 ∷ 0 ∷ 7 ∷ 0 ∷ 0 ∷ 2 ∷ 77 ∷ 78 ∷ 0 ∷ 0 ∷ []

certificate_written : marshal_certificate certificate ≡ ok certificate_bytes
unfolding marshal_certificate marshal_extensions marshal_handshake_message
certificate_written = refl

certificate_roundtrip_example :
    (unmarshal_certificate certificate_bytes ≡ ok (certificate, certificate_bytes)) ↔ (
      (marshal_certificate certificate ≡ ok certificate_bytes)
      × (certificate_bytes ≡ certificate_bytes))
certificate_roundtrip_example =
    certificate_roundtrip certificate_bytes certificate_bytes certificate (ground arith) (tt, tt)

extensions_loop_ends_example : parse_all get_extension 4 (0 ∷ 13 ∷ 0 ∷ 0 ∷ []) ≢ none
extensions_loop_ends_example = extensions_loop_ends 4 (0 ∷ 13 ∷ 0 ∷ 0 ∷ []) (omega arith)

abbrev one : Session
one = record { used = (42 ∷ []) ∷ [] }

abbrev two : Session
two = record { used = (43 ∷ []) ∷ (42 ∷ []) ∷ [] }

one-Marked : Marked new_session (42 ∷ []) one none
unfolding mark_context_used bytes_eq
one-Marked = refl

two-Marked : Marked one (43 ∷ []) two none
unfolding mark_context_used bytes_eq
two-Marked = refl

context_once_example : Marked two (42 ∷ []) two (some context_reuse)
context_once_example =
    context_once new_session one two (42 ∷ []) one-Marked (marked (43 ∷ []) none now two-Marked)
