-- ===== src/Atls/Transport/Client/Accept.antt =====
-- What an accepted connection of a client establishes.
use session_bound_agent_iden.Common.{
  map_err, map_err-eq-ok, ℕ, none, some, [], true, ◌≡◌, ◌≢◌, inl, inr, sym, ap, ◌∙◌, Result-cases,
  ok, >>=-eq-ok, arith,
}
use mathlib.Core.Path.{subst}
use session_bound_agent_iden.GoString.{Bytes}
use session_bound_agent_iden.GoTime.{Time}
use session_bound_agent_iden.Atls.Tls.{ConnectionState}
use session_bound_agent_iden.Atls.Ea.Wire.Numbers.{AreBytes}
use session_bound_agent_iden.Atls.Ea.Request.{AuthenticatorRequest}
use session_bound_agent_iden.Atls.Ea.Signatures.{Primitives}
use session_bound_agent_iden.Atls.Ea.Transcript.{server}
use session_bound_agent_iden.Atls.Ea.Validate.{ValidationResult, Shared, validate_authenticator}
use session_bound_agent_iden.Atls.Ea.Validate.Sound.{FullyAccepted, fully_accepted}
use session_bound_agent_iden.Atls.Ea.Validate.Gaps.{chain_full}
use session_bound_agent_iden.IdentityPolicy.Values.{Binding, enabled}
use session_bound_agent_iden.Atls.Transport.{frame_error}
use session_bound_agent_iden.Atls.Transport.Frame.{frame_type_authenticator, read_frame}
use session_bound_agent_iden.Atls.Transport.Frame.RoundTrip.{read_frame-AreBytes}
use session_bound_agent_iden.Atls.Transport.Identity.{expected_identity_binding}
use session_bound_agent_iden.Atls.Transport.Client.{
  ClientConfig, Conn, receive, client_request, validate_identity_policy, accept_authenticator,
  client,
}
use session_bound_agent_iden.Atls.Transport.Client.Sound.{IdentityHolds, identity_sound}

-- The peer's answer to the request that was sent is a full authenticator, and the identity policy
-- holds of its result.
pub record ClientAccepted {K P C S : Type 0} (prim : Primitives K P C) (cfg : ClientConfig C S)
    (w w' : Shared C) (c c' : S) (st : ConnectionState) (peer : Bytes → Bytes) (now : Time)
    (conn : Conn C) : Type 0 where
  pub sent : Bytes
  pub requested : client_request prim cfg ≡ ok (conn.request, sent)
  pub auth_bytes : Bytes
  pub received : receive frame_type_authenticator (peer sent) ≡ ok auth_bytes
  pub result : ValidationResult C
  pub kept : conn.validation_result ≡ some result
  pub full :
      FullyAccepted prim w w' st server
        (some conn.request)
        none
        cfg.attestation_policy
        auth_bytes
        result
  pub identity : IdentityHolds prim cfg c c' result now

receive-AreBytes :
    (type : ℕ) (b payload : Bytes) → AreBytes b → receive type b ≡ ok payload → AreBytes payload
unfolding receive
receive-AreBytes type b payload bytes h =
    let ((f, rest), read, h1) = >>=-eq-ok (map_err frame_error (read_frame b)) _ h in
    let whole =
      read_frame-AreBytes b f rest bytes (map_err-eq-ok frame_error (read_frame b) read) in
    ground (arith, whole)

expected-chain :
    {K P C : Type 0} (prim : Primitives K P C) (v : ValidationResult C) (b : Binding)
    → expected_identity_binding prim v ≡ ok b
    → v.chain ≢ []
unfolding expected_identity_binding
expected-chain prim v b h missing = ground arith

module _ {K P C S : Type 0} (prim : Primitives K P C) (cfg : ClientConfig C S) where
  accept_sound :
      (w w' : Shared C) (c c' : S) (st : ConnectionState) (req : AuthenticatorRequest)
      (auth_bytes : Bytes) (now : Time) (conn : Conn C)
      → AreBytes auth_bytes
      → cfg.observed_identity ≡ none
      → enabled cfg.identity_policy ≡ true
      → accept_authenticator prim cfg w c st req auth_bytes now ≡ ((w', c'), ok conn)
      → (v : ValidationResult C) × (conn ≡ record { request = req; validation_result = some v })
        × FullyAccepted prim w w' st server (some req) none cfg.attestation_policy auth_bytes v
        × IdentityHolds prim cfg c c' v now
  unfolding accept_authenticator
  accept_sound w w' c c' st req b now conn bytes unobserved on h =
      elim (Result-cases
        (validate_authenticator prim w st server (some req) none cfg.attestation_policy b).1) [
          | inr (e, bad) ↦ absurd (ground arith)
          | inl (v, good) ↦ elim (Result-cases (validate_identity_policy prim cfg c st v now).1) [
            | inr (e, bad) ↦ absurd (ground arith)
            | inl (u, checked) ↦
                let validated : validate_authenticator prim w st server (some req) none
                      cfg.attestation_policy b
                    ≡ (w', ok v) =
                  ground arith in
                let met : validate_identity_policy prim cfg c st v now ≡ (c', ok u) =
                  ground arith in
                let holds = identity_sound prim cfg c c' st v now u unobserved on met in
                let full =
                  chain_full prim w w' st server (some req) none cfg.attestation_policy b v
                    validated (expected-chain prim v holds.expected holds.derived) in
                (
                  v,
                  ground arith,
                  fully_accepted prim w w' st server (some req) none cfg.attestation_policy b v
                      bytes validated full,
                  holds,
                )
          ]
        ]

  -- Where the identity policy is enabled and takes its assertion from a grant, a client accepts a
  -- connection only if the peer answers its request by a full authenticator, proven over this
  -- session and with the attestation that is asked for; the grant authorizes a statement whose
  -- binding agrees with the one derived of the result, its values meet the policy, and the replay
  -- cache, if any, took the statement's nonce.
  pub client_accepts :
      (w w' : Shared C) (c c' : S) (st : ConnectionState) (peer : Bytes → Bytes) (now : Time)
      (conn : Conn C)
      → ((b : Bytes) → AreBytes (peer b))
      → cfg.observed_identity ≡ none
      → enabled cfg.identity_policy ≡ true
      → client prim cfg w c st peer now ≡ ((w', c'), ok conn)
      → ClientAccepted prim cfg w w' c c' st peer now conn
  unfolding client
  client_accepts w w' c c' st peer now conn bytes unobserved on h =
      elim (Result-cases (client_request prim cfg)) [
        | inr (e, bad) ↦ absurd (ground arith)
        | inl ((req, sent), requested) ↦
            elim (Result-cases (receive frame_type_authenticator (peer sent))) [
              | inr (e, bad) ↦ absurd (ground arith)
              | inl (b, received) ↦
                  let (v, same, full, holds) =
                    accept_sound w w' c c' st req b now conn
                      (receive-AreBytes frame_type_authenticator (peer sent) b (bytes sent)
                        received)
                      unobserved on (rw (requested, received, client) at h) in
                  record {
                    sent = sent;
                    requested = requested ∙ ap (λ (y : Conn C). ok (y.request, sent)) (sym same);
                    auth_bytes = b;
                    received = received;
                    result = v;
                    kept = ap (λ (y : Conn C). y.validation_result) same;
                    full =
                        subst
                          (λ (y : Conn C).
                            FullyAccepted prim w w' st server (some y.request) none
                              cfg.attestation_policy b v)
                          (sym same) full;
                    identity = holds;
                  }
            ]
      ]
