-- ===== src/Atls/Ea/Extensions.antt =====
-- pkg/atls/ea/extensions.go and cmw_attestation.go: TLS extensions, and the one that carries
-- attestation evidence.
pub mod RoundTrip
pub mod Cmw
use session_bound_agent_iden.Common.{
  ℕ, zero, suc, ◌+◌, ◌-◌, Option, none, some, List, [], ◌∷◌, ◌++◌, Bool, true, false, not, ◌||◌,
  ◌&&◌, if◌then◌else◌, ltb, ◌==◌, length, take, drop, any, Result, ok, err, ◌>>=◌,
}
use session_bound_agent_iden.GoString.{Bytes}
use session_bound_agent_iden.Atls.Ea.Wire.{
  EaErr, truncated, invalid_length, bad_request, put_uint16, read_uint16, parse_items,
}

pub record Extension : Type 0 where
  pub type : ℕ
  pub payload : Bytes

-- The first loop of `MarshalExtensions`, from the length so far.
pub payload_length : ℕ → List Extension → Result EaErr ℕ
payload_length n [] = ok n
payload_length n (e ∷ es) =
    let rest = payload_length (n + 4 + length e.payload) es in
    if ltb 0xffff (length e.payload)
    then err invalid_length
    else if ltb 0xffff (n + 4 + length e.payload)
    then err invalid_length
    else rest

pub put_extension : Extension → Bytes
put_extension e = put_uint16 e.type ++ (put_uint16 (length e.payload) ++ e.payload)

-- The second loop.
pub put_extensions : List Extension → Bytes
unfolding put_extension
put_extensions [] = []
put_extensions (e ∷ es) = put_extension e ++ put_extensions es

unfoldable pub marshal_extensions : List Extension → Result EaErr Bytes
unfolding payload_length put_extensions
marshal_extensions es = payload_length 0 es >>= λ n. ok (put_uint16 n ++ put_extensions es)

-- One round of the loop of `UnmarshalExtensions`.
pub get_extension : Bytes → Result EaErr (Extension × Bytes)
get_extension (t ∷ u ∷ a ∷ b ∷ rest) =
    let l = read_uint16 a b in
    if ltb (length rest) l
    then err invalid_length
    else ok (record { type = read_uint16 t u; payload = take l rest }, drop l rest)
get_extension b = err truncated

unfoldable pub unmarshal_extensions : Bytes → Result EaErr (List Extension × Bytes)
unfolding get_extension parse_items
unmarshal_extensions (a ∷ b ∷ rest) =
    let total = read_uint16 a b in
    if ltb (length rest) total
    then err truncated
    else parse_items get_extension (take total rest) >>= λ es. ok (es, drop total rest)
unmarshal_extensions b = err truncated

abbrev pub cmw_attestation_extension_type : ℕ
cmw_attestation_extension_type = 0xff00

abbrev pub cmw_attestation_offer_extension : Extension
cmw_attestation_offer_extension = record { type = cmw_attestation_extension_type; payload = [] }

unfoldable pub cmw_attestation_data_extension : Bytes → Result EaErr Extension
cmw_attestation_data_extension cmw =
    if length cmw == 0 || ltb 0xffff (length cmw + 2)
    then err invalid_length
    else ok
        (record { type = cmw_attestation_extension_type; payload = put_uint16 (length cmw) ++ cmw })

-- The evidence in the payload of such an extension.
pub cmw_of_payload : Bytes → Result EaErr Bytes
cmw_of_payload (a ∷ b ∷ rest) =
    let l = read_uint16 a b in
    if l == 0 || not (l == length rest) then err invalid_length else ok rest
cmw_of_payload b = err invalid_length

-- `ExtractCMWAttestationFromExtensions`: the first such extension decides; `none` is absent.
unfoldable pub extract_cmw_attestation : List Extension → Result EaErr (Option Bytes)
unfolding cmw_of_payload
extract_cmw_attestation [] = ok none
extract_cmw_attestation (e ∷ es) =
    let rest = extract_cmw_attestation es in
    if not (e.type == cmw_attestation_extension_type)
    then rest
    else (cmw_of_payload e.payload >>= λ cmw. ok (some cmw))
