-- ===== src/Atls/Ea/Request.antt =====
-- pkg/atls/ea/request.go: authenticator requests, and the extensions of a request that list
-- signature schemes, certificate authorities and OID filters. Randomness and ASN.1 are parameters.
pub mod RoundTrip
pub mod Schemes
use session_bound_agent_iden.Common.{
  ℕ, zero, suc, ◌+◌, ◌*◌, ◌%◌, Option, none, some, List, [], ◌∷◌, ◌++◌, Bool, true, false, not,
  ◌||◌, ◌&&◌, if◌then◌else◌, ltb, ◌==◌, length, take, drop, is_nil, Result, ok, err, ◌>>=◌,
}
use session_bound_agent_iden.GoString.{Bytes}
use session_bound_agent_iden.Atls.Ea.Wire.{
  EaErr, truncated, invalid_length, unsupported_handshake_type, put_uint16, read_uint16,
  HandshakeMessage, marshal_handshake_message, unmarshal_handshake_message, parse_items,
  handshake_type_certificate_request, handshake_type_client_certificate_request,
}
use session_bound_agent_iden.Atls.Ea.Extensions.{
  Extension, marshal_extensions, unmarshal_extensions,
}

abbrev pub signature_algorithms_extension_type : ℕ
signature_algorithms_extension_type = 0x000d

abbrev pub certificate_authorities_extension_type : ℕ
certificate_authorities_extension_type = 0x002f

abbrev pub oid_filters_extension_type : ℕ
oid_filters_extension_type = 0x0030

abbrev pub signature_algorithms_cert_extension_type : ℕ
signature_algorithms_cert_extension_type = 0x0032

pub record AuthenticatorRequest : Type 0 where
  pub type : ℕ
  pub context : Bytes
  pub extensions : List Extension

-- `NewRandomContext`, over what `rand.Read` fills a buffer of a length with.
unfoldable pub new_random_context : (ℕ → Result EaErr Bytes) → ℕ → Result EaErr Bytes
new_random_context read n = if n == 0 || ltb 255 n then err invalid_length else read n

abbrev pub is_request_type : ℕ → Bool
is_request_type t =
    t == handshake_type_certificate_request || t == handshake_type_client_certificate_request

unfoldable pub marshal_request : AuthenticatorRequest → Result EaErr Bytes
marshal_request r =
    if not (is_request_type r.type)
    then err unsupported_handshake_type
    else if ltb 255 (length r.context)
    then err invalid_length
    else (marshal_extensions r.extensions >>= λ vec.
        marshal_handshake_message
          (record { type = r.type; body = length r.context ∷ (r.context ++ vec) }))

-- The context behind its length byte, and the extensions up to the end of the body.
pub request_of_body : ℕ → Bytes → Result EaErr AuthenticatorRequest
request_of_body type [] = err truncated
request_of_body type (n ∷ body) =
    if ltb (length body) n
    then err truncated
    else (unmarshal_extensions (drop n body) >>= λ (exts, leftover).
        if not (is_nil leftover)
        then err invalid_length
        else ok (record { type = type; context = take n body; extensions = exts }))

unfoldable pub unmarshal_request : Bytes → Result EaErr (AuthenticatorRequest × Bytes)
unfolding request_of_body
unmarshal_request b = unmarshal_handshake_message b >>= λ (m, rest).
    if not (is_request_type m.type)
    then err unsupported_handshake_type
    else (request_of_body m.type m.body >>= λ r. ok (r, rest))

-- The payload of the first extension of a type.
unfoldable pub first_payload : ℕ → List Extension → Option Bytes
first_payload type [] = none
first_payload type (e ∷ es) =
    let rest = first_payload type es in if not (e.type == type) then rest else some e.payload

pub read_schemes : Bytes → List ℕ
read_schemes (a ∷ b ∷ rest) = read_uint16 a b ∷ read_schemes rest
read_schemes b = []

pub schemes_of_payload : Bytes → Option (List ℕ)
unfolding read_schemes
schemes_of_payload (a ∷ b ∷ rest) =
    let n = read_uint16 a b in
    if ltb n 2 || not (n % 2 == 0) || not (length rest == n) then none else some (read_schemes rest)
schemes_of_payload b = none

abbrev pub option_bind {ℓ κ} : {A : Type ℓ} {B : Type κ} → Option A → (A → Option B) → Option B
option_bind none f = none
option_bind (some a) f = f a

unfoldable pub parse_signature_schemes : List Extension → ℕ → Option (List ℕ)
unfolding first_payload schemes_of_payload
parse_signature_schemes exts type = option_bind (first_payload type exts) schemes_of_payload

unfoldable pub signature_schemes : AuthenticatorRequest → Option (List ℕ)
unfolding parse_signature_schemes
signature_schemes r = parse_signature_schemes r.extensions signature_algorithms_extension_type

unfoldable pub signature_schemes_cert : AuthenticatorRequest → Option (List ℕ)
unfolding parse_signature_schemes
signature_schemes_cert r =
    parse_signature_schemes r.extensions signature_algorithms_cert_extension_type

pub put_schemes : List ℕ → Bytes
put_schemes [] = []
put_schemes (s ∷ ss) = put_uint16 s ++ put_schemes ss

unfoldable pub marshal_signature_schemes : ℕ → List ℕ → Result EaErr Extension
unfolding put_schemes
marshal_signature_schemes type schemes =
    if length schemes == 0
    then err invalid_length
    else if ltb 0x7fff (length schemes)
    then err invalid_length
    else ok
        (record { type = type; payload = put_uint16 (2 * length schemes) ++ put_schemes schemes })

unfoldable pub signature_algorithms_extension : List ℕ → Result EaErr Extension
unfolding marshal_signature_schemes
signature_algorithms_extension = marshal_signature_schemes signature_algorithms_extension_type

unfoldable pub signature_algorithms_cert_extension : List ℕ → Result EaErr Extension
unfolding marshal_signature_schemes
signature_algorithms_cert_extension =
    marshal_signature_schemes signature_algorithms_cert_extension_type

-- One round of the loop of `CertificateAuthorities`.
pub get_authority : Bytes → Result EaErr (Bytes × Bytes)
get_authority (a ∷ b ∷ rest) =
    let l = read_uint16 a b in
    if l == 0 || ltb (length rest) l then err invalid_length else ok (take l rest, drop l rest)
get_authority b = err truncated

pub ok_or_none {ℓ κ} : {E : Type ℓ} {A : Type κ} → Result E A → Option A
ok_or_none (ok a) = some a
ok_or_none (err e) = none

pub authorities_of_payload : Bytes → Option (List Bytes)
unfolding get_authority parse_items ok_or_none
authorities_of_payload (a ∷ b ∷ rest) =
    let total = read_uint16 a b in
    if ltb total 3 || not (length rest == total)
    then none
    else ok_or_none (parse_items get_authority rest)
authorities_of_payload b = none

unfoldable pub certificate_authorities : AuthenticatorRequest → Option (List Bytes)
unfolding first_payload authorities_of_payload
certificate_authorities r =
    option_bind (first_payload certificate_authorities_extension_type r.extensions)
      authorities_of_payload

pub record OidFilter (O : Type 0) : Type 0 where
  pub oid : O
  pub values : Bytes

-- The part of a filter behind its OID.
pub get_filter_values : {O : Type 0} → O → Bytes → Result EaErr (OidFilter O × Bytes)
get_filter_values oid (a ∷ b ∷ rest) =
    let l = read_uint16 a b in
    if ltb (length rest) l
    then err invalid_length
    else ok (record { oid = oid; values = take l rest }, drop l rest)
get_filter_values oid b = err truncated

-- One round of the loop of `OIDFilters`, over `asn1.Unmarshal` of an object identifier.
pub get_filter : {O : Type 0} → (Bytes → Option O) → Bytes → Result EaErr (OidFilter O × Bytes)
unfolding get_filter_values
get_filter parse_oid [] = err truncated
get_filter parse_oid (n ∷ rest) =
    if n == 0 || ltb (length rest) n then err invalid_length else elim (parse_oid (take n rest)) [
      | none ↦ err invalid_length
      | some oid ↦ get_filter_values oid (drop n rest)
    ]

pub filters_of_payload : {O : Type 0} → (Bytes → Option O) → Bytes → Option (List (OidFilter O))
unfolding get_filter parse_items ok_or_none
filters_of_payload parse_oid (a ∷ b ∷ rest) =
    let total = read_uint16 a b in
    if not (length rest == total)
    then none
    else ok_or_none (parse_items (get_filter parse_oid) rest)
filters_of_payload parse_oid b = none

unfoldable pub oid_filters :
    {O : Type 0} → (Bytes → Option O) → AuthenticatorRequest → Option (List (OidFilter O))
unfolding first_payload filters_of_payload
oid_filters parse_oid r =
    option_bind (first_payload oid_filters_extension_type r.extensions)
      (filters_of_payload parse_oid)
