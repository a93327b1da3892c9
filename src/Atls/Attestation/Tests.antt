-- ===== src/Atls/Attestation/Tests.antt =====
-- An attestation payload over a toy session; the witness.
use session_bound_agent_iden.Common.{
  pos, true, false, if◌then◌else◌, none, some, [], ◌∷◌, ◌≡◌, refl, ◌↔◌, ok,
}
use session_bound_agent_iden.GoString.{bytes, bytes_eq}
use session_bound_agent_iden.Atls.Tls.{ConnectionState, Hashes, version_tls13}
use session_bound_agent_iden.Atls.Attestation.{
  binding_mismatch, Payload, VerificationPolicy, VerifiedPayload, Leaf, verify_payload,
}
use session_bound_agent_iden.Atls.Attestation.Accept.{PayloadAccepted, verify_payload_iff}

-- Hashes that keep their input.
abbrev hashes : Hashes
hashes = record { sum = λ h b. b; sum512 = λ b. 8 ∷ b; hmac = λ h k b. b }

abbrev pub session : ConnectionState
session = record {
  version = version_tls13;
  cipher_suite = 0x1301;
  export_keying_material = λ label context n. ok (3 ∷ context);
}

abbrev pub leaf : Leaf
leaf = record { raw_subject_public_key_info = 6 ∷ []; marshal_public_key = ok [] }

abbrev payload : Payload
payload = record {
  version = pos 1;
  media_type = [];
  evidence = 1 ∷ [];
  attestation_results = [];
  binder = record { exporter_label = []; aik_pub_hash = 6 ∷ []; binding = 6 ∷ 3 ∷ 42 ∷ [] };
}

-- Evidence is accepted for the report data of the session only.
abbrev policy : VerificationPolicy
policy = record {
  evidence_verifier =
      some (λ e b.
        if bytes_eq b.report_data (8 ∷ 6 ∷ 3 ∷ 42 ∷ []) then none else some binding_mismatch);
  results_verifier = none;
}

verified :
    (v : VerifiedPayload) × (verify_payload hashes session
        (bytes "l")
        (42 ∷ [])
        (some leaf)
        payload
        policy
      ≡ ok v)
unfolding verify_payload bytes_eq
verified = (
  record {
    payload = payload;
    evidence_verified = true;
    results_verified = false;
    binding_verified = true;
    used_exporter_label = bytes "l";
    binding = record {
      report_data = 8 ∷ 6 ∷ 3 ∷ 42 ∷ [];
      nonce = 3 ∷ 42 ∷ [];
      binding = 6 ∷ 3 ∷ 42 ∷ [];
      exported_value = 3 ∷ 42 ∷ [];
    };
  },
  refl,
)

payload_accepted : PayloadAccepted hashes session (bytes "l") (42 ∷ []) (some leaf) payload policy
payload_accepted =
    (verify_payload_iff hashes session (bytes "l") (42 ∷ []) (some leaf) payload policy).0 verified

verify_payload_iff_example :
    ((v : VerifiedPayload) × (verify_payload hashes session
          (bytes "l")
          (42 ∷ [])
          (some leaf)
          payload
          policy
        ≡ ok v))
    ↔ PayloadAccepted hashes session (bytes "l") (42 ∷ []) (some leaf) payload policy
verify_payload_iff_example =
    verify_payload_iff hashes session (bytes "l") (42 ∷ []) (some leaf) payload policy
