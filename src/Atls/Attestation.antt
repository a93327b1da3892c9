-- ===== src/Atls/Attestation.antt =====
-- pkg/atls/eaattestation: the attestation payload of an authenticator, and its binding to the TLS
-- session and the leaf key. JSON decoding, X.509 encoding and the two verifiers are parameters.
pub mod Accept
pub mod Codec
pub mod Tests
use session_bound_agent_iden.Common.{
  ℤ, pos, negsuc, ℕ, ◌+◌, Option, none, some, List, [], ◌∷◌, ◌++◌, Bool, true, false, not, ◌||◌,
  ◌&&◌, if◌then◌else◌, ◌==◌, is_nil, Result, ok, err, ◌>>=◌,
}
use session_bound_agent_iden.GoString.{Bytes, bytes, bytes_eq}
use session_bound_agent_iden.Atls.Tls.{
  Foreign, ConnectionState, HashAlg, sha256, Hashes, version_tls13, authenticator_hash,
}

pub data AttErr : Type 0 where
  malformed_payload missing_statement missing_binder aik_pub_hash_mismatch binding_mismatch : AttErr
  unexpected_exporter_label missing_attestation evidence_verification_missing : AttErr
  results_verification_missing not_tls13 unknown_cipher_suite nil_leaf : AttErr
  foreign : Foreign → AttErr

pub record AttestationBinder : Type 0 where
  pub exporter_label : Bytes
  pub aik_pub_hash : Bytes
  pub binding : Bytes

pub record Payload : Type 0 where
  pub version : ℤ
  pub media_type : Bytes
  pub evidence : Bytes
  pub attestation_results : Bytes
  pub binder : AttestationBinder

pub record EvidenceBinding : Type 0 where
  pub report_data : Bytes
  pub nonce : Bytes
  pub binding : Bytes
  pub exported_value : Bytes

pub record VerifiedPayload : Type 0 where
  pub payload : Payload
  pub evidence_verified : Bool
  pub results_verified : Bool
  pub binding_verified : Bool
  pub used_exporter_label : Bytes
  pub binding : EvidenceBinding

-- A verifier of evidence or of attestation results gives an error, or none.
abbrev pub Verifier : Type 0
Verifier = Bytes → EvidenceBinding → Option AttErr

pub record VerificationPolicy : Type 0 where
  pub evidence_verifier : Option Verifier
  pub results_verifier : Option Verifier

-- What is read of a leaf certificate: its key as it stands there, and as `MarshalPKIXPublicKey`
-- encodes it.
pub record Leaf : Type 0 where
  pub raw_subject_public_key_info : Bytes
  pub marshal_public_key : Result Foreign Bytes

abbrev pub is_some {ℓ} : {A : Type ℓ} → Option A → Bool
is_some none = false
is_some (some a) = true

abbrev pub requires_attestation : VerificationPolicy → Bool
requires_attestation p = is_some p.evidence_verifier || is_some p.results_verifier

-- `Payload.Validate`
pub validate_payload : Payload → Result AttErr (Unit {0})
validate_payload p =
    if is_nil p.evidence && is_nil p.attestation_results
    then err missing_statement
    else if is_nil p.binder.aik_pub_hash || is_nil p.binder.binding
    then err missing_binder
    else ok tt

unfoldable pub normalized_exporter_label : Option Payload → Bytes → Bytes
normalized_exporter_label none default_label = default_label
normalized_exporter_label (some p) default_label =
    if is_nil p.binder.exporter_label then default_label else p.binder.exporter_label

pub verify_exporter_label : Payload → Bytes → Result AttErr (Unit {0})
verify_exporter_label p expected =
    if not (is_nil p.binder.exporter_label) && not (bytes_eq p.binder.exporter_label expected)
    then err unexpected_exporter_label
    else ok tt

-- A version of 0 becomes 1.
abbrev pub default_version : ℤ → ℤ
default_version (pos n) = if n == 0 then pos 1 else pos n
default_version (negsuc n) = negsuc n

-- `MarshalPayload`, over the JSON encoder.
unfoldable pub marshal_payload : (Payload → Result Foreign Bytes) → Payload → Result AttErr Bytes
unfolding validate_payload
marshal_payload encode p = validate_payload p >>= λ _.
    elim (encode (record p { version = default_version p.version })) [
      | ok raw ↦ ok raw
      | err e ↦ err (foreign e)
    ]

-- `ParsePayload`, over the JSON decoder.
unfoldable pub parse_payload : (Bytes → Option Payload) → Bytes → Result AttErr Payload
unfolding validate_payload
parse_payload decode raw = if is_nil raw then err malformed_payload else elim (decode raw) [
  | none ↦ err malformed_payload
  | some p ↦ validate_payload p >>= λ _. ok p
]

pub lift_foreign {ℓ} : {A : Type ℓ} → Result Foreign A → Result AttErr A
lift_foreign (ok a) = ok a
lift_foreign (err e) = err (foreign e)

abbrev pub exporter_label_attestation : Bytes
exporter_label_attestation = bytes "Attestation"

pub export_attestation_value : ConnectionState → Bytes → Bytes → Result AttErr (Bytes × HashAlg)
unfolding authenticator_hash lift_foreign
export_attestation_value st label context =
    if not (st.version == version_tls13)
    then err not_tls13
    else elim (authenticator_hash st.cipher_suite) [
      | none ↦ err unknown_cipher_suite
      | some h ↦ lift_foreign (st.export_keying_material label context 32) >>= λ out. ok (out, h)
    ]

pub public_key_bytes : Option Leaf → Result AttErr Bytes
unfolding lift_foreign
public_key_bytes none = err nil_leaf
public_key_bytes (some leaf) =
    if not (is_nil leaf.raw_subject_public_key_info)
    then ok leaf.raw_subject_public_key_info
    else lift_foreign leaf.marshal_public_key

-- The values that bind the key to the session: what `ComputeBinding` returns.
pub record SessionValues : Type 0 where
  pub exported_value : Bytes
  pub aik_pub_hash : Bytes
  pub binding : Bytes

unfoldable pub compute_binding :
    Hashes → ConnectionState → Bytes → Bytes → Option Leaf → Result AttErr SessionValues
unfolding export_attestation_value public_key_bytes
compute_binding hs st label context leaf =
    export_attestation_value st label context >>= λ (exported, h).
    public_key_bytes leaf >>= λ pub_key. ok (record {
      exported_value = exported;
      aik_pub_hash = hs.sum h pub_key;
      binding = hs.sum h (pub_key ++ exported);
    })

pub verify_binder_values : SessionValues → AttestationBinder → Result AttErr (Unit {0})
verify_binder_values v b =
    if not (bytes_eq v.aik_pub_hash b.aik_pub_hash)
    then err aik_pub_hash_mismatch
    else if not (bytes_eq v.binding b.binding)
    then err binding_mismatch
    else ok tt

unfoldable pub verify_binder :
    Hashes
    → ConnectionState
    → Bytes
    → Bytes
    → Option Leaf
    → AttestationBinder
    → Result AttErr (Unit {0})
unfolding compute_binding verify_binder_values
verify_binder hs st label context leaf b =
    compute_binding hs st label context leaf >>= λ v. verify_binder_values v b

-- One of the two statements: whether it was verified. A statement without a verifier is an error.
pub verify_statement : Option Verifier → AttErr → Bytes → EvidenceBinding → Result AttErr Bool
verify_statement verifier missing statement binding =
    if is_nil statement then ok false else elim verifier [
      | none ↦ err missing
      | some verify ↦ elim (verify statement binding) [ none ↦ ok true | some e ↦ err e ]
    ]

abbrev pub evidence_binding : Hashes → SessionValues → EvidenceBinding
evidence_binding hs v = record {
  report_data = hs.sum512 v.binding;
  nonce = hs.sum sha256 v.exported_value;
  binding = v.binding;
  exported_value = v.exported_value;
}

unfoldable pub verify_payload :
    Hashes
    → ConnectionState
    → Bytes
    → Bytes
    → Option Leaf
    → Payload
    → VerificationPolicy
    → Result AttErr VerifiedPayload
unfolding validate_payload verify_exporter_label compute_binding verify_binder_values
    verify_statement
verify_payload hs st label context leaf p policy = validate_payload p >>= λ _.
    verify_exporter_label p label >>= λ _. compute_binding hs st label context leaf >>= λ v.
    verify_binder_values v p.binder >>= λ _.
    verify_statement policy.evidence_verifier evidence_verification_missing p.evidence
      (evidence_binding hs v)
    >>= λ evidence.
        verify_statement policy.results_verifier results_verification_missing p.attestation_results
          (evidence_binding hs v)
        >>= λ results. ok (record {
          payload = p;
          evidence_verified = evidence;
          results_verified = results;
          binding_verified = true;
          used_exporter_label = label;
          binding = evidence_binding hs v;
        })
