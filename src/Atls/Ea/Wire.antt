-- ===== src/Atls/Ea/Wire.antt =====
-- pkg/atls/ea/handshake.go, with the errors of the package and the shape of its parsing loops.
-- A byte string is a list of bytes, and a slice is what is left of it. `byte(v >> 8)` is written
-- `v / 256 % 256`, so that an oversized length wraps as in Go.
pub mod Numbers
pub mod Loop
pub mod Handshake
use session_bound_agent_iden.Common.{
  ℕ, zero, suc, ◌+◌, ◌*◌, ◌/◌, ◌%◌, Option, none, some, List, [], ◌∷◌, ◌++◌, Bool, true, false,
  if◌then◌else◌, ltb, length, take, drop, Result, ok, err, ◌>>=◌,
}
use session_bound_agent_iden.GoString.{Bytes}
use session_bound_agent_iden.Atls.Tls.{Foreign}
use session_bound_agent_iden.Atls.Attestation.{AttErr}

pub data EaErr : Type 0 where
  truncated invalid_length unsupported_handshake_type not_tls13 : EaErr
  unknown_cipher_suite context_reuse invalid_role unsupported_signature_scheme : EaErr
  signature_mismatch finished_mismatch context_mismatch bad_request : EaErr
  -- An error of another package.
  foreign : Foreign → EaErr
  unattested : AttErr → EaErr

abbrev pub handshake_type_certificate : ℕ
handshake_type_certificate = 11

abbrev pub handshake_type_certificate_request : ℕ
handshake_type_certificate_request = 13

abbrev pub handshake_type_certificate_verify : ℕ
handshake_type_certificate_verify = 15

abbrev pub handshake_type_client_certificate_request : ℕ
handshake_type_client_certificate_request = 17

abbrev pub handshake_type_finished : ℕ
handshake_type_finished = 20

abbrev pub put_uint16 : ℕ → Bytes
put_uint16 v = v / 256 % 256 ∷ v % 256 ∷ []

abbrev pub put_uint24 : ℕ → Bytes
put_uint24 v = v / 65536 % 256 ∷ v / 256 % 256 ∷ v % 256 ∷ []

abbrev pub read_uint16 : ℕ → ℕ → ℕ
read_uint16 a b = a * 256 + b

abbrev pub read_uint24 : ℕ → ℕ → ℕ → ℕ
read_uint24 a b c = a * 65536 + b * 256 + c

pub record HandshakeMessage : Type 0 where
  pub type : ℕ
  pub body : Bytes

unfoldable pub marshal_handshake_message : HandshakeMessage → Result EaErr Bytes
marshal_handshake_message m =
    if ltb 0xffffff (length m.body)
    then err invalid_length
    else ok (m.type ∷ (put_uint24 (length m.body) ++ m.body))

-- The message in front of a byte string, and what follows it.
unfoldable pub unmarshal_handshake_message : Bytes → Result EaErr (HandshakeMessage × Bytes)
unmarshal_handshake_message (t ∷ a ∷ b ∷ c ∷ rest) =
    let n = read_uint24 a b c in
    if ltb 0xffffff n
    then err invalid_length
    else if ltb (length rest) n
    then err truncated
    else ok (record { type = t; body = take n rest }, drop n rest)
unmarshal_handshake_message b = err truncated

-- The loops `for i < len(payload)`: each round takes one item off the front. `none` stands for no
-- fuel left, which never happens with the length of the input for fuel.
pub prepend : {A : Type 0} → A → Option (Result EaErr (List A)) → Option (Result EaErr (List A))
prepend x none = none
prepend x (some (err e)) = some (err e)
prepend x (some (ok xs)) = some (ok (x ∷ xs))

pub parse_all :
    {A : Type 0} → (Bytes → Result EaErr (A × Bytes)) → ℕ → Bytes → Option (Result EaErr (List A))
unfolding prepend
parse_all item fuel [] = some (ok [])
parse_all item zero (b ∷ bs) = none
parse_all item (suc fuel) (b ∷ bs) = elim (item (b ∷ bs)) [
  | err e ↦ some (err e)
  | ok (x, rest) ↦ prepend x (parse_all item fuel rest)
]

pub fuel_given : {A : Type 0} → Option (Result EaErr (List A)) → Result EaErr (List A)
fuel_given none = err truncated
fuel_given (some r) = r

unfoldable pub parse_items :
    {A : Type 0} → (Bytes → Result EaErr (A × Bytes)) → Bytes → Result EaErr (List A)
unfolding parse_all fuel_given
parse_items item payload = fuel_given (parse_all item (length payload) payload)
