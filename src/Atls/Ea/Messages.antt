-- ===== src/Atls/Ea/Messages.antt =====
-- pkg/atls/ea/certificate.go, certverify.go and finished.go: the three messages of an
-- authenticator. An `Unmarshal` also returns the bytes of the message, written again.
pub mod Entries
pub mod RoundTrip
use session_bound_agent_iden.Common.{
  ℕ, ◌+◌, List, [], ◌∷◌, ◌++◌, Bool, true, false, not, ◌||◌, ◌&&◌, if◌then◌else◌, ltb, ◌==◌, length,
  take, drop, is_nil, Result, ok, err, ◌>>=◌,
}
use session_bound_agent_iden.GoString.{Bytes, bytes}
use session_bound_agent_iden.Atls.Ea.Wire.{
  EaErr, truncated, invalid_length, put_uint16, read_uint16, put_uint24, read_uint24,
  HandshakeMessage, marshal_handshake_message, unmarshal_handshake_message, parse_items,
  handshake_type_certificate, handshake_type_certificate_verify, handshake_type_finished,
}
use session_bound_agent_iden.Atls.Ea.Extensions.{
  Extension, marshal_extensions, unmarshal_extensions,
}

pub record CertificateEntry : Type 0 where
  pub cert_der : Bytes
  pub extensions : List Extension

pub record CertificateMessage : Type 0 where
  pub context : Bytes
  pub entries : List CertificateEntry

pub marshal_entry : CertificateEntry → Result EaErr Bytes
marshal_entry e =
    if length e.cert_der == 0 || ltb 0xffffff (length e.cert_der)
    then err invalid_length
    else (marshal_extensions e.extensions >>= λ vec.
        ok (put_uint24 (length e.cert_der) ++ (e.cert_der ++ vec)))

-- The loop of `CertificateMessage.Marshal`.
pub marshal_entries : List CertificateEntry → Result EaErr Bytes
unfolding marshal_entry
marshal_entries [] = ok []
marshal_entries (e ∷ es) =
    marshal_entry e >>= λ entry. marshal_entries es >>= λ rest. ok (entry ++ rest)

unfoldable pub marshal_certificate : CertificateMessage → Result EaErr Bytes
unfolding marshal_entries
marshal_certificate m =
    if ltb 255 (length m.context)
    then err invalid_length
    else (marshal_entries m.entries >>= λ entries. marshal_handshake_message (record {
      type = handshake_type_certificate;
      body = length m.context ∷ (m.context ++ (put_uint24 (length entries) ++ entries));
    }))

-- One round of the loop of `UnmarshalCertificateMessage`.
pub get_entry : Bytes → Result EaErr (CertificateEntry × Bytes)
get_entry (a ∷ b ∷ c ∷ rest) =
    let n = read_uint24 a b c in
    if n == 0 || ltb (length rest) n
    then err invalid_length
    else (unmarshal_extensions (drop n rest) >>= λ (exts, leftover).
        ok (record { cert_der = take n rest; extensions = exts }, leftover))
get_entry b = err truncated

-- The list of entries, which must fill the rest of the body.
pub entries_of_list : Bytes → Result EaErr (List CertificateEntry)
unfolding get_entry parse_items
entries_of_list (a ∷ b ∷ c ∷ list) =
    if not (length list == read_uint24 a b c)
    then err invalid_length
    else parse_items get_entry list
entries_of_list b = err truncated

pub certificate_of_body : Bytes → Result EaErr CertificateMessage
unfolding entries_of_list
certificate_of_body [] = err truncated
certificate_of_body (n ∷ body) =
    if ltb (length body) (n + 3)
    then err truncated
    else (entries_of_list (drop n body) >>= λ entries.
        ok (record { context = take n body; entries = entries }))

-- A message of one type that fills the input.
pub only_message : ℕ → Bytes → Result EaErr HandshakeMessage
only_message type b = unmarshal_handshake_message b >>= λ (m, rest).
    if not (is_nil rest) || not (m.type == type) then err invalid_length else ok m

-- `raw, _ := MarshalHandshakeMessage(hm)`
pub raw_bytes : HandshakeMessage → Bytes
raw_bytes m = elim (marshal_handshake_message m) [ ok b ↦ b | err e ↦ [] ]

unfoldable pub unmarshal_certificate : Bytes → Result EaErr (CertificateMessage × Bytes)
unfolding only_message certificate_of_body raw_bytes
unmarshal_certificate b = only_message handshake_type_certificate b >>= λ m.
    certificate_of_body m.body >>= λ cert. ok (cert, raw_bytes m)

pub record CertificateVerifyMessage : Type 0 where
  pub algorithm : ℕ
  pub signature : Bytes

unfoldable pub marshal_certificate_verify : CertificateVerifyMessage → Result EaErr Bytes
marshal_certificate_verify m =
    if ltb 0xffff (length m.signature)
    then err invalid_length
    else marshal_handshake_message (record {
      type = handshake_type_certificate_verify;
      body = put_uint16 m.algorithm ++ (put_uint16 (length m.signature) ++ m.signature);
    })

pub certificate_verify_of_body : Bytes → Result EaErr CertificateVerifyMessage
certificate_verify_of_body (a ∷ b ∷ c ∷ d ∷ rest) =
    if not (length rest == read_uint16 c d)
    then err invalid_length
    else ok (record { algorithm = read_uint16 a b; signature = rest })
certificate_verify_of_body b = err truncated

unfoldable pub unmarshal_certificate_verify :
    Bytes → Result EaErr (CertificateVerifyMessage × Bytes)
unfolding only_message certificate_verify_of_body raw_bytes
unmarshal_certificate_verify b = only_message handshake_type_certificate_verify b >>= λ m.
    certificate_verify_of_body m.body >>= λ cv. ok (cv, raw_bytes m)

-- A `FinishedMessage` is its `VerifyData`.
unfoldable pub marshal_finished : Bytes → Result EaErr Bytes
marshal_finished verify_data =
    if length verify_data == 0
    then err invalid_length
    else marshal_handshake_message (record { type = handshake_type_finished; body = verify_data })

unfoldable pub unmarshal_finished : Bytes → Result EaErr (Bytes × Bytes)
unfolding only_message raw_bytes
unmarshal_finished b = only_message handshake_type_finished b >>= λ m.
    if length m.body == 0 then err invalid_length else ok (m.body, raw_bytes m)
