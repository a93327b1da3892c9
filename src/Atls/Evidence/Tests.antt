-- ===== src/Atls/Evidence/Tests.antt =====
-- Platform evidence over toy decoders; the witness.
use session_bound_agent_iden.Common.{none, some, [], ◌∷◌, ◌≡◌, refl, ok, err}
use session_bound_agent_iden.GoString.{bytes, bytes_eq}
use session_bound_agent_iden.Atls.Attestation.{EvidenceBinding, foreign}
use session_bound_agent_iden.Atls.Evidence.{Decoders, verify_evidence, verify_evidence_binding, tdx}
use session_bound_agent_iden.Atls.Evidence.Bound.{EvidenceBound, verify_evidence_sound}

abbrev binding : EvidenceBinding
binding = record { report_data = 8 ∷ []; nonce = 1 ∷ []; binding = 2 ∷ []; exported_value = 3 ∷ [] }

-- Evidence is a nonce of one byte; a quote repeats it.
abbrev decoders : Decoders (Unit {0})
decoders = record {
  eat = λ e. ok (record { nonce = e; platform_type = bytes "SNP-vTPM"; raw_report = 5 ∷ [] });
  tpm = λ r. some (record {
    sev_snp = some (record { report_data = some (9 ∷ 8 ∷ 4 ∷ []) });
    ak_pub = 4 ∷ [];
    quotes = [] ∷ (1 ∷ []) ∷ [];
  });
  snp = λ r. none;
  quote = λ q. some q;
  sha3 = λ b. 9 ∷ b;
  read_file = λ path. ok path;
  from_cose = λ raw. none;
  from_cbor = λ raw. some tt;
  appraise = λ p r m. none;
}

accepted : verify_evidence decoders (bytes "policy") (1 ∷ []) binding ≡ none
unfolding verify_evidence bytes_eq
accepted = refl

short_report :
    verify_evidence_binding decoders tdx (5 ∷ []) binding
    ≡ err (foreign (bytes "atls: TDX report too small to extract report data"))
unfolding verify_evidence_binding
short_report = refl

verify_evidence_sound_example : EvidenceBound decoders (bytes "policy") (1 ∷ []) binding
verify_evidence_sound_example =
    verify_evidence_sound decoders (bytes "policy") (1 ∷ []) binding accepted
