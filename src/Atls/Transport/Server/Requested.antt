-- ===== src/Atls/Transport/Server/Requested.antt =====
-- What a server makes of what a client sends.
use mathlib.Core.List.{append-nil}
use session_bound_agent_iden.Common.{
  ℕ, ◌≢◌, [], ◌≡◌, refl, sym, ap, ◌∙◌, All, ok, >>=-eq-ok, map_err, map_err-eq-ok, arith,
}
use session_bound_agent_iden.GoString.{Bytes}
use session_bound_agent_iden.Atls.Ea.Extensions.RoundTrip.{HasType}
use session_bound_agent_iden.Atls.Ea.Request.{
  AuthenticatorRequest, marshal_request, unmarshal_request,
}
use session_bound_agent_iden.Atls.Ea.Request.RoundTrip.{unmarshal-marshal_request}
use session_bound_agent_iden.Atls.Ea.Signatures.{Primitives}
use session_bound_agent_iden.Atls.Transport.{frame_error, ea_error}
use session_bound_agent_iden.Atls.Transport.Frame.{
  Frame, frame_type_request, read_frame, write_frame,
}
use session_bound_agent_iden.Atls.Transport.Frame.RoundTrip.{read-write_frame}
use session_bound_agent_iden.Atls.Transport.Client.{
  ClientConfig, build_request, client_request, receive,
}
use session_bound_agent_iden.Atls.Transport.Server.{receive_request}

receive-write_frame :
    (type : ℕ) (payload b : Bytes)
    → type ≢ 0
    → write_frame (record { type = type; payload = payload }) ≡ ok b
    → receive type b ≡ ok payload
unfolding receive
receive-write_frame type payload b typed h =
    let f : Frame = record { type = type; payload = payload } in
    let read = ap read_frame (sym (append-nil b)) ∙ read-write_frame f b [] typed h in
    rw read (ground arith)

-- Whatever request a client sends, the server receives that request, where the types of its
-- extensions are uint16.
pub request_received :
    {K P C S : Type 0} (prim : Primitives K P C) (cfg : ClientConfig C S)
    (req : AuthenticatorRequest) (sent : Bytes)
    → All HasType req.extensions
    → client_request prim cfg ≡ ok (req, sent)
    → receive_request sent ≡ ok req
unfolding client_request receive_request
request_received prim cfg req sent types h =
    let (built, from_config, h1) = >>=-eq-ok (build_request prim cfg) _ h in
    let (b, marshalled, h2) = >>=-eq-ok (map_err ea_error (marshal_request built)) _ h1 in
    let (out, framed, h3) =
      >>=-eq-ok
        (map_err frame_error (write_frame (record { type = frame_type_request; payload = b }))) _
        h2 in
    let same : (built ≡ req) × (out ≡ sent) = ground arith in
    let written = ap marshal_request (sym same.0) ∙ map_err-eq-ok ea_error _ marshalled in
    let wrapped = map_err-eq-ok frame_error _ framed ∙ ap (λ (x : Bytes). ok x) same.1 in
    let parsed =
      ap unmarshal_request (sym (append-nil b))
      ∙ unmarshal-marshal_request req b [] types written in
    rw (receive-write_frame frame_type_request b sent (λ e. cc) wrapped, parsed) refl
