-- ===== src/Atls/Ea/Request/RoundTrip.antt =====
-- An authenticator request is read back as written, and is written in one way.
use session_bound_agent_iden.Common.{
  sym, ap, ◌∙◌, ◌↔◌, ℕ, ◌≤◌, [], ◌∷◌, ◌++◌, ◌≡◌, refl, All, length, take, drop, true, false,
  Bool-cases, inl, inr, ok, >>=-eq-ok, arith, ltb,
}
use mathlib.Core.List.{append-nil}
use session_bound_agent_iden.GoString.{Bytes}
use session_bound_agent_iden.Atls.Ea.Wire.{
  HandshakeMessage, marshal_handshake_message, unmarshal_handshake_message,
}
use session_bound_agent_iden.Atls.Ea.Wire.Numbers.{
  AreBytes, AreBytes-drop, take-append, drop-append, length-append, length-take, take-drop,
}
use session_bound_agent_iden.Atls.Ea.Wire.Handshake.{
  unmarshal-marshal_handshake, marshal-unmarshal_handshake,
}
use session_bound_agent_iden.Atls.Ea.Extensions.{marshal_extensions, unmarshal_extensions}
use session_bound_agent_iden.Atls.Ea.Extensions.RoundTrip.{
  HasType, unmarshal-marshal_extensions, marshal-unmarshal_extensions,
}
use session_bound_agent_iden.Atls.Ea.Request.{
  AuthenticatorRequest, is_request_type, marshal_request, unmarshal_request, request_of_body,
}

request_of_body_lem :
    (r : AuthenticatorRequest) (vec : Bytes)
    → All HasType r.extensions
    → marshal_extensions r.extensions ≡ ok vec
    → request_of_body r.type (length r.context ∷ (r.context ++ vec)) ≡ ok r
unfolding request_of_body
request_of_body_lem r vec t h =
    let exts = unmarshal-marshal_extensions r.extensions vec [] t h in
    let enough : ltb (length (r.context ++ vec)) (length r.context) ≡ false =
      ground (arith, length-append r.context vec) in
    rw (enough, take-append r.context vec, drop-append r.context vec)
      (ground (arith, exts, append-nil vec))

-- Whatever follows it, a request that could be written is read back.
pub unmarshal-marshal_request :
    (r : AuthenticatorRequest) (b rest : Bytes)
    → All HasType r.extensions
    → marshal_request r ≡ ok b
    → unmarshal_request (b ++ rest) ≡ ok (r, rest)
unfolding marshal_request unmarshal_request
unmarshal-marshal_request r b rest t h = elim (Bool-cases (is_request_type r.type)) [
  | inr bad ↦ absurd (ground arith)
  | inl good ↦ elim (Bool-cases (ltb 255 (length r.context))) [
    | inl long ↦ absurd (ground arith)
    | inr fits ↦
        let (vec, found, written) =
          >>=-eq-ok (marshal_extensions r.extensions) _ (rw (good, fits) at h) in
        let message = unmarshal-marshal_handshake _ b rest written in
        rw (message, good, request_of_body_lem r vec t found) refl
  ]
]

request_of_body_inverse :
    (type : ℕ) (body : Bytes) (r : AuthenticatorRequest)
    → AreBytes body
    → request_of_body type body ≡ ok r
    → (vec : Bytes) × (marshal_extensions r.extensions ≡ ok vec)
      × (body ≡ length r.context ∷ (r.context ++ vec))
      × (length r.context ≤ 255)
      × (r.type ≡ type)
unfolding request_of_body
request_of_body_inverse type [] r h e = cc
request_of_body_inverse type (n ∷ body) r h e = elim (Bool-cases (ltb (length body) n)) [
  | inl short ↦ absurd (ground arith)
  | inr enough ↦
      let ((exts, leftover), found, rest) =
        >>=-eq-ok (unmarshal_extensions (drop n body)) _ (rw enough at e) in
      let (vec, written, same, after) =
        marshal-unmarshal_extensions (drop n body) exts leftover (AreBytes-drop n body h.1) found in
      let all : take n body ++ (vec ++ leftover) ≡ body = rw (← same) (take-drop n body) in
      ground (arith, written, all, append-nil vec, length-take n body)
]

marshal_request_lem :
    (r : AuthenticatorRequest) (vec : Bytes) (m : HandshakeMessage) (c : Bytes)
    → is_request_type m.type ≡ true
    → marshal_extensions r.extensions ≡ ok vec
    → m.body ≡ length r.context ∷ (r.context ++ vec)
    → length r.context ≤ 255
    → r.type ≡ m.type
    → marshal_handshake_message m ≡ ok c
    → marshal_request r ≡ ok c
unfolding marshal_request
marshal_request_lem r vec m c good exts layout short typed written =
    let fits : ltb 255 (length r.context) ≡ false = ground arith in
    rw (typed, good, fits, exts, ← layout) written

-- A request that was read is what its writer writes: no other bytes stand for it.
pub marshal-unmarshal_request :
    (b : Bytes) (r : AuthenticatorRequest) (rest : Bytes)
    → AreBytes b
    → unmarshal_request b ≡ ok (r, rest)
    → (c : Bytes) × (marshal_request r ≡ ok c) × (b ≡ c ++ rest)
unfolding marshal_request unmarshal_request
marshal-unmarshal_request b r rest h e =
    let ((m, after), found, e1) = >>=-eq-ok (unmarshal_handshake_message b) _ e in
    let (c, written, same, bytes) = marshal-unmarshal_handshake b m after h found in
    elim (Bool-cases (is_request_type m.type)) [
      | inr bad ↦ absurd (ground arith)
      | inl good ↦
          let (q, body, e2) = >>=-eq-ok (request_of_body m.type m.body) _ (rw good at e1) in
          let (vec, exts, layout, short, typed) =
            request_of_body_inverse m.type m.body q bytes body in
          let whole = marshal_request_lem q vec m c good exts layout short typed written in
          let fields : (q ≡ r) × (after ≡ rest) = ground arith in
          (c, rw (← fields.0) whole, rw (← fields.1) same)
    ]

-- Bytes are read as a request with nothing behind it exactly when they are what the request is
-- written as, where the bytes are bytes and the types of its extensions are uint16.
pub request_roundtrip :
    (b : Bytes) (r : AuthenticatorRequest)
    → AreBytes b
    → All HasType r.extensions
    → (unmarshal_request b ≡ ok (r, [])) ↔ (marshal_request r ≡ ok b)
request_roundtrip b r h t = (
  λ e.
      let (c, written, same) = marshal-unmarshal_request b r [] h e in
      written ∙ ap ok (sym (append-nil c) ∙ sym same),
  λ e. ap unmarshal_request (sym (append-nil b)) ∙ unmarshal-marshal_request r b [] t e,
)
