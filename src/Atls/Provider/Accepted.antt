-- ===== src/Atls/Provider/Accepted.antt =====
-- What a provider attests is what the peer verifies.
use session_bound_agent_iden.Common.{
  map_err, map_err-eq-ok, Option, none, some, List, [], ◌∷◌, ◌≡◌, inr, refl, ap, ◌∙◌, Result, ok,
  >>=-eq-ok, arith,
}
use session_bound_agent_iden.GoString.{Bytes}
use session_bound_agent_iden.Atls.Tls.{ConnectionState, Foreign, Hashes, sha256}
use session_bound_agent_iden.Atls.Attestation.{
  Payload, Leaf, SessionValues, Verifier, VerificationPolicy, compute_binding, marshal_payload,
  parse_payload, evidence_binding, exporter_label_attestation,
}
use session_bound_agent_iden.Atls.Attestation.Accept.{PayloadAccepted, compute_binding_iff}
use session_bound_agent_iden.Atls.Attestation.Codec.{marshal_payload_sound, parse-marshal_payload}
use session_bound_agent_iden.Atls.Ea.Extensions.{
  Extension, cmw_attestation_data_extension, extract_cmw_attestation,
}
use session_bound_agent_iden.Atls.Ea.Extensions.Cmw.{extract-cmw_data, cmw_data-ne-nil}
use session_bound_agent_iden.Atls.Ea.Request.{AuthenticatorRequest}
use session_bound_agent_iden.Atls.Transport.{attestation_error, ea_error, foreign}
use session_bound_agent_iden.Atls.Provider.{
  AttestationClient, provided_payload, build_leaf_extensions,
}

-- The extensions carry one attestation, which parses and which the peer's policy accepts.
pub record ProvidedAccepted (hs : Hashes) (decode : Bytes → Option Payload) (st : ConnectionState)
    (context : Bytes) (leaf : Leaf) (policy : VerificationPolicy) (exts : List Extension)
    : Type 0 where
  pub raw : Bytes
  pub extracted : extract_cmw_attestation exts ≡ ok (some raw)
  pub payload : Payload
  pub parsed : parse_payload decode raw ≡ ok payload
  pub accepted : PayloadAccepted hs st exporter_label_attestation context (some leaf) payload policy

module _ (hs : Hashes) (encode : Payload → Result Foreign Bytes) (decode : Bytes → Option Payload)
    (get_attestation : AttestationClient) (st : ConnectionState) (req : AuthenticatorRequest)
    (leaf : Leaf) (verify : Verifier) where
  -- Where the decoder reads what the encoder writes of a provider's payload, and the peer's
  -- verifier accepts what the attestation service gives for the report data and the nonce of a
  -- session, the extensions that a provider returns carry an attestation that parses and is
  -- accepted for the session, the request's context and the leaf.
  pub provided_accepted :
      (exts : List Extension)
      → ((v : SessionValues) (evidence raw : Bytes)
          → encode (provided_payload v evidence) ≡ ok raw
          → decode raw ≡ some (provided_payload v evidence))
      → ((v : SessionValues) (evidence : Bytes)
          → get_attestation (hs.sum512 v.binding) (hs.sum sha256 v.exported_value) ≡ ok evidence
          → verify evidence (evidence_binding hs v) ≡ none)
      → build_leaf_extensions hs encode get_attestation (some st) (some req) (some leaf) ≡ ok exts
      → ProvidedAccepted hs decode st req.context leaf
          (record { evidence_verifier = some verify; results_verifier = none })
          exts
  unfolding build_leaf_extensions
  provided_accepted exts codec honest h =
      let m = compute_binding hs st exporter_label_attestation req.context (some leaf) in
      let (v, computed, h1) = >>=-eq-ok (map_err attestation_error m) _ h in
      let (evidence, given, h2) =
        >>=-eq-ok
          (map_err foreign (get_attestation (hs.sum512 v.binding) (hs.sum sha256 v.exported_value)))
          _ h1 in
      let p = provided_payload v evidence in
      let (raw, marshalled, h3) =
        >>=-eq-ok (map_err attestation_error (marshal_payload encode p)) _ h2 in
      let (ext, made, h4) =
        >>=-eq-ok (map_err ea_error (cmw_attestation_data_extension raw)) _ h3 in
      let (encoded, complete) =
        marshal_payload_sound encode p raw (λ e. cc)
          (map_err-eq-ok attestation_error _ marshalled) in
      let written = map_err-eq-ok ea_error (cmw_attestation_data_extension raw) made in
      let same : exts ≡ ext ∷ [] = ground arith in
      record {
        raw = raw;
        extracted = ap extract_cmw_attestation same ∙ extract-cmw_data raw ext written;
        payload = p;
        parsed =
            parse-marshal_payload encode p decode raw (codec v evidence raw encoded)
              (cmw_data-ne-nil raw ext written) complete;
        accepted = record {
          complete = complete;
          label_matches = inr refl;
          session_values = v;
          bound_to =
              (compute_binding_iff hs st exporter_label_attestation req.context (some leaf) v).0
                (map_err-eq-ok attestation_error m computed);
          key_hash_matches = refl;
          binding_matches = refl;
          evidence = record {
            verified = λ n. (verify, refl, honest v evidence (map_err-eq-ok foreign _ given));
          };
          results = record { verified = λ n. absurd (n refl) };
        };
      }
