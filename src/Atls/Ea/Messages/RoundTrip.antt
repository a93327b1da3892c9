-- ===== src/Atls/Ea/Messages/RoundTrip.antt =====
-- The messages of an authenticator are read back as written, and each is written in one way.
use session_bound_agent_iden.Common.{
  ◌↔◌, ℕ, ◌+◌, ◌≤◌, ◌<◌, [], ◌∷◌, ◌++◌, ◌≡◌, refl, sym, ap, ◌∙◌, All, length, take, drop, ◌||◌,
  ◌==◌, not, is_nil, true, false, Bool-cases, inl, inr, ok, >>=-eq-ok, arith, ltb,
}
use mathlib.Core.Path.{subst}
use mathlib.Core.List.{append-nil}
use session_bound_agent_iden.GoString.{Bytes}
use session_bound_agent_iden.Atls.Ea.Wire.{
  put_uint16, put_uint24, HandshakeMessage, marshal_handshake_message, unmarshal_handshake_message,
  handshake_type_certificate, handshake_type_certificate_verify, handshake_type_finished,
}
use session_bound_agent_iden.Atls.Ea.Wire.Numbers.{
  AreBytes, AreBytes-drop, take-append, drop-append, length-append, length-take, take-drop,
  read-put_uint16, put-read_uint16,
}
use session_bound_agent_iden.Atls.Ea.Wire.Handshake.{
  unmarshal-marshal_handshake, marshal-unmarshal_handshake, marshal_handshake_fits,
}
use session_bound_agent_iden.Atls.Ea.Messages.{
  CertificateMessage, marshal_entries, marshal_certificate, certificate_of_body, entries_of_list,
  only_message, raw_bytes, unmarshal_certificate, CertificateVerifyMessage,
  marshal_certificate_verify, certificate_verify_of_body, unmarshal_certificate_verify,
  marshal_finished, unmarshal_finished,
}
use session_bound_agent_iden.Atls.Ea.Messages.Entries.{
  HasTypes, entries_of_put, entries_of_list_inverse,
}

pub raw_bytes_lem :
    (m : HandshakeMessage) (b : Bytes) → marshal_handshake_message m ≡ ok b → raw_bytes m ≡ b
unfolding raw_bytes
raw_bytes_lem m b h = rw (h, raw_bytes) refl

only_message_lem :
    (type : ℕ) (body b : Bytes)
    → marshal_handshake_message (record { type = type; body = body }) ≡ ok b
    → only_message type b ≡ ok (record { type = type; body = body })
unfolding only_message
only_message_lem type body b h =
    let message = unmarshal-marshal_handshake (record { type = type; body = body }) b [] h in
    let same : (type == type) ≡ true = ground arith in
    let front : unmarshal_handshake_message b ≡ ok (record { type = type; body = body }, []) =
      ap unmarshal_handshake_message (sym (append-nil b)) ∙ message in
    rw (front, same) refl

only_message_inverse :
    (type : ℕ) (b : Bytes) (m : HandshakeMessage)
    → AreBytes b
    → only_message type b ≡ ok m
    → (marshal_handshake_message m ≡ ok b) × (m.type ≡ type) × AreBytes m.body
unfolding only_message
only_message_inverse type b m h e =
    let ((x, rest), found, e1) = >>=-eq-ok (unmarshal_handshake_message b) _ e in
    let (c, written, same, bytes) = marshal-unmarshal_handshake b x rest h found in
    elim (Bool-cases (not (is_nil rest) || not (x.type == type))) [
      | inl other ↦ absurd (ground arith)
      | inr only ↦
          let fields : (x ≡ m) × (rest ≡ []) × (x.type ≡ type) = ground arith in
          let whole : c ≡ b = ground (arith, append-nil c) in
          (
            ap marshal_handshake_message (sym fields.0) ∙ (written ∙ ap ok whole),
            ap (λ (y : HandshakeMessage). y.type) (sym fields.0) ∙ fields.2,
            subst (λ y. AreBytes y.body) fields.0 bytes,
          )
    ]

certificate_of_body_lem :
    (m : CertificateMessage) (entries : Bytes)
    → All HasTypes m.entries
    → length entries < 16777216
    → marshal_entries m.entries ≡ ok entries
    → certificate_of_body
        (length m.context ∷ (m.context ++ (put_uint24 (length entries) ++ entries)))
      ≡ ok m
unfolding certificate_of_body
certificate_of_body_lem m entries t small h =
    let tail = put_uint24 (length entries) ++ entries in
    let enough : ltb (length (m.context ++ tail)) (length m.context + 3) ≡ false =
      ground (arith, length-append m.context tail) in
    rw
      (
        enough,
        take-append m.context tail,
        drop-append m.context tail,
        entries_of_put m.entries entries t small h,
      )
      refl

-- A certificate message that could be written is read back, with its bytes.
pub unmarshal-marshal_certificate :
    (m : CertificateMessage) (b : Bytes)
    → All HasTypes m.entries
    → marshal_certificate m ≡ ok b
    → unmarshal_certificate b ≡ ok (m, b)
unfolding marshal_certificate unmarshal_certificate
unmarshal-marshal_certificate m b t h = elim (Bool-cases (ltb 255 (length m.context))) [
  | inl long ↦ absurd (ground arith)
  | inr fits ↦
      let (entries, found, written) = >>=-eq-ok (marshal_entries m.entries) _ (rw fits at h) in
      let small : length entries < 16777216 = omega (
        arith,
        marshal_handshake_fits _ b written,
        length-append m.context (put_uint24 (length entries) ++ entries),
      ) in
      let message = only_message_lem handshake_type_certificate _ b written in
      rw (message, certificate_of_body_lem m entries t small found, raw_bytes_lem _ b written) refl
]

certificate_of_body_inverse :
    (body : Bytes) (m : CertificateMessage)
    → AreBytes body
    → certificate_of_body body ≡ ok m
    → (entries : Bytes) × (marshal_entries m.entries ≡ ok entries)
      × (length m.context ≤ 255)
      × (body ≡ length m.context ∷ (m.context ++ (put_uint24 (length entries) ++ entries)))
unfolding certificate_of_body
certificate_of_body_inverse [] m h e = cc
certificate_of_body_inverse (n ∷ body) m h e = elim (Bool-cases (ltb (length body) (n + 3))) [
  | inl short ↦ absurd (ground arith)
  | inr enough ↦
      let (es, found, same) = >>=-eq-ok (entries_of_list (drop n body)) _ (rw enough at e) in
      let (c, written, list) =
        entries_of_list_inverse (drop n body) es (AreBytes-drop n body h.1) found in
      let all : take n body ++ (put_uint24 (length c) ++ c) ≡ body =
        rw (← list) (take-drop n body) in
      let counted = length-take n body (ground arith) in
      (c, ground arith, ground arith, ground (arith, all))
]

marshal_certificate_lem :
    (m : CertificateMessage) (x : HandshakeMessage) (entries b : Bytes)
    → marshal_entries m.entries ≡ ok entries
    → length m.context ≤ 255
    → x.type ≡ handshake_type_certificate
    → x.body ≡ length m.context ∷ (m.context ++ (put_uint24 (length entries) ++ entries))
    → marshal_handshake_message x ≡ ok b
    → marshal_certificate m ≡ ok b
unfolding marshal_certificate
marshal_certificate_lem m x entries b listed short typed layout written =
    let fits : ltb 255 (length m.context) ≡ false = ground arith in
    rw (fits, listed, ← layout, ← typed) written

-- A certificate message that was read is what its writer writes: no other bytes stand for it.
pub marshal-unmarshal_certificate :
    (b : Bytes) (m : CertificateMessage) (raw : Bytes)
    → AreBytes b
    → unmarshal_certificate b ≡ ok (m, raw)
    → (marshal_certificate m ≡ ok b) × (raw ≡ b)
unfolding marshal_certificate unmarshal_certificate
marshal-unmarshal_certificate b m raw h e =
    let (x, found, e1) = >>=-eq-ok (only_message handshake_type_certificate b) _ e in
    let (written, typed, bytes) = only_message_inverse handshake_type_certificate b x h found in
    let (cert, body, e2) = >>=-eq-ok (certificate_of_body x.body) _ e1 in
    let (entries, listed, short, layout) = certificate_of_body_inverse x.body cert bytes body in
    let fields : (cert ≡ m) × (raw_bytes x ≡ raw) = ground arith in
    (
      ap marshal_certificate (sym fields.0)
          ∙ marshal_certificate_lem cert x entries b listed short typed layout written,
      sym fields.1 ∙ raw_bytes_lem x b written,
    )

certificate_verify_of_body_inverse :
    (body : Bytes) (m : CertificateVerifyMessage)
    → AreBytes body
    → certificate_verify_of_body body ≡ ok m
    → (body ≡ put_uint16 m.algorithm ++ (put_uint16 (length m.signature) ++ m.signature))
      × (length m.signature ≤ 0xffff)
unfolding certificate_verify_of_body
certificate_verify_of_body_inverse (a ∷ b ∷ c ∷ d ∷ rest) m h e =
    ground (arith, put-read_uint16 a b, put-read_uint16 c d)
certificate_verify_of_body_inverse _ m h e = absurd (ground arith)

marshal_certificate_verify_lem :
    (m : CertificateVerifyMessage) (x : HandshakeMessage) (b : Bytes)
    → length m.signature ≤ 0xffff
    → x.type ≡ handshake_type_certificate_verify
    → x.body ≡ put_uint16 m.algorithm ++ (put_uint16 (length m.signature) ++ m.signature)
    → marshal_handshake_message x ≡ ok b
    → marshal_certificate_verify m ≡ ok b
unfolding marshal_certificate_verify
marshal_certificate_verify_lem m x b small typed layout written =
    let fits : ltb 0xffff (length m.signature) ≡ false = ground arith in
    rw (fits, ← layout, ← typed) written

-- A certificate verify message that could be written is read back, with its bytes.
pub unmarshal-marshal_certificate_verify :
    (m : CertificateVerifyMessage) (b : Bytes)
    → m.algorithm < 65536
    → marshal_certificate_verify m ≡ ok b
    → unmarshal_certificate_verify b ≡ ok (m, b)
unfolding marshal_certificate_verify unmarshal_certificate_verify certificate_verify_of_body
unmarshal-marshal_certificate_verify m b t h = elim (Bool-cases (ltb 0xffff (length m.signature))) [
  | inl long ↦ absurd (ground arith)
  | inr fits ↦
      let written = rw fits at h in
      let message = only_message_lem handshake_type_certificate_verify _ b written in
      let counted : (length m.signature == length m.signature) ≡ true = ground arith in
      rw
        (
          message,
          read-put_uint16 m.algorithm t,
          read-put_uint16 (length m.signature) (ground arith),
          counted,
          raw_bytes_lem _ b written,
        )
        refl
]

-- A certificate verify message that was read is what its writer writes.
pub marshal-unmarshal_certificate_verify :
    (b : Bytes) (m : CertificateVerifyMessage) (raw : Bytes)
    → AreBytes b
    → unmarshal_certificate_verify b ≡ ok (m, raw)
    → (marshal_certificate_verify m ≡ ok b) × (raw ≡ b)
unfolding unmarshal_certificate_verify
marshal-unmarshal_certificate_verify b m raw h e =
    let (x, found, e1) = >>=-eq-ok (only_message handshake_type_certificate_verify b) _ e in
    let (written, typed, bytes) =
      only_message_inverse handshake_type_certificate_verify b x h found in
    let (cv, body, e2) = >>=-eq-ok (certificate_verify_of_body x.body) _ e1 in
    let (layout, small) = certificate_verify_of_body_inverse x.body cv bytes body in
    let fields : (cv ≡ m) × (raw_bytes x ≡ raw) = ground arith in
    (
      ap marshal_certificate_verify (sym fields.0)
          ∙ marshal_certificate_verify_lem cv x b small typed layout written,
      sym fields.1 ∙ raw_bytes_lem x b written,
    )

-- A Finished message that could be written is read back, with its bytes.
pub unmarshal-marshal_finished :
    (verify_data b : Bytes)
    → marshal_finished verify_data ≡ ok b
    → unmarshal_finished b ≡ ok (verify_data, b)
unfolding marshal_finished unmarshal_finished
unmarshal-marshal_finished v b h = elim (Bool-cases (length v == 0)) [
  | inl empty ↦ absurd (ground arith)
  | inr some_given ↦
      let written = rw some_given at h in
      rw
        (
          only_message_lem handshake_type_finished v b written,
          some_given,
          raw_bytes_lem _ b written,
        )
        refl
]

-- A Finished message that was read is what its writer writes.
pub marshal-unmarshal_finished :
    (b verify_data raw : Bytes)
    → AreBytes b
    → unmarshal_finished b ≡ ok (verify_data, raw)
    → (marshal_finished verify_data ≡ ok b) × (raw ≡ b)
unfolding marshal_finished unmarshal_finished
marshal-unmarshal_finished b v raw h e =
    let (x, found, e1) = >>=-eq-ok (only_message handshake_type_finished b) _ e in
    let (written, typed, bytes) = only_message_inverse handshake_type_finished b x h found in
    elim (Bool-cases (length x.body == 0)) [
      | inl empty ↦ absurd (ground arith)
      | inr some_given ↦
          let fields : (x.body ≡ v) × (raw_bytes x ≡ raw) = ground arith in
          (rw (← fields.0, some_given, ← typed) written, sym fields.1 ∙ raw_bytes_lem x b written)
    ]

-- Bytes are read as a certificate message exactly when they are what the message is written as,
-- and come with it then, where the bytes are bytes and the types of extensions are uint16.
pub certificate_roundtrip :
    (b raw : Bytes) (m : CertificateMessage)
    → AreBytes b
    → All HasTypes m.entries
    → (unmarshal_certificate b ≡ ok (m, raw)) ↔ ((marshal_certificate m ≡ ok b) × (raw ≡ b))
certificate_roundtrip b raw m h t = (
  marshal-unmarshal_certificate b m raw h,
  λ (written, same). unmarshal-marshal_certificate m b t written ∙ ap (λ r. ok (m, r)) (sym same),
)
