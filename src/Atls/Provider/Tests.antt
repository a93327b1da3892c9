-- ===== src/Atls/Provider/Tests.antt =====
-- A provider over a toy session whose codec writes three bytes; the witness.
use session_bound_agent_iden.Common.{
  Option, none, some, List, [], ◌∷◌, ◌≡◌, refl, Result, ok, err, arith, if◌then◌else◌,
}
use session_bound_agent_iden.GoString.{Bytes, bytes_eq}
use session_bound_agent_iden.Atls.Tls.{Foreign, Hashes}
use session_bound_agent_iden.Atls.Attestation.{
  compute_binding, Payload, SessionValues, Verifier, evidence_binding, binding_mismatch,
  marshal_payload,
}
use session_bound_agent_iden.Atls.Attestation.Tests.{session, leaf}
use session_bound_agent_iden.Atls.Ea.Extensions.{Extension, cmw_attestation_data_extension}
use session_bound_agent_iden.Atls.Ea.Request.{AuthenticatorRequest}
use session_bound_agent_iden.Atls.Provider.{
  AttestationClient, provided_payload, build_leaf_extensions,
}
use session_bound_agent_iden.Atls.Provider.Accepted.{ProvidedAccepted, provided_accepted}

-- Hashes of one byte.
abbrev hashes : Hashes
hashes = record { sum = λ h b. 7 ∷ []; sum512 = λ b. 8 ∷ b; hmac = λ h k b. b }

abbrev three : Bytes → Bytes → Bytes → Result Foreign Bytes
three (x ∷ []) (y ∷ []) (z ∷ []) = ok (x ∷ y ∷ z ∷ [])
three a b c = err []

abbrev encode : Payload → Result Foreign Bytes
encode p = three p.evidence p.binder.aik_pub_hash p.binder.binding

abbrev decode : Bytes → Option Payload
decode (x ∷ y ∷ z ∷ []) = some (
    provided_payload (record { exported_value = []; aik_pub_hash = y ∷ []; binding = z ∷ [] })
      (x ∷ []))
decode b = none

-- A service that attests report data by repeating its first byte, and a verifier that compares it.
abbrev attest : AttestationClient
attest (x ∷ report) nonce = ok (x ∷ [])
attest [] nonce = err []

abbrev verify_report : Verifier
verify_report evidence b = if bytes_eq evidence (8 ∷ []) then none else some binding_mismatch

three_read :
    (a b c raw : Bytes)
    → three a b c ≡ ok raw
    → (v : SessionValues) → v.aik_pub_hash ≡ b
    → v.binding ≡ c
    → decode raw ≡ some (provided_payload v a)
three_read a b c raw h v hb hc = ground arith

decode_reads :
    (v : SessionValues) (evidence raw : Bytes)
    → encode (provided_payload v evidence) ≡ ok raw
    → decode raw ≡ some (provided_payload v evidence)
decode_reads v evidence raw h = three_read evidence v.aik_pub_hash v.binding raw h v refl refl

attest_verifies :
    (v : SessionValues) (evidence : Bytes)
    → attest (hashes.sum512 v.binding) (7 ∷ []) ≡ ok evidence
    → verify_report evidence (evidence_binding hashes v) ≡ none
unfolding bytes_eq
attest_verifies v evidence h = ground arith

abbrev request : AuthenticatorRequest
request = record { type = 17; context = 42 ∷ []; extensions = [] }

abbrev extensions : List Extension
extensions = record { type = 0xff00; payload = 0 ∷ 3 ∷ 8 ∷ 7 ∷ 7 ∷ [] } ∷ []

built :
    build_leaf_extensions hashes encode attest (some session) (some request) (some leaf)
    ≡ ok extensions
unfolding build_leaf_extensions compute_binding marshal_payload cmw_attestation_data_extension
built = refl

provided_accepted_example :
    ProvidedAccepted hashes decode session
      (42 ∷ [])
      leaf
      (record { evidence_verifier = some verify_report; results_verifier = none })
      extensions
provided_accepted_example =
    provided_accepted hashes encode decode attest session request leaf verify_report extensions
      decode_reads attest_verifies built
