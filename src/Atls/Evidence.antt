-- ===== src/Atls/Evidence.antt =====
-- pkg/atls/evidence_verifier.go: the verifier of platform evidence. The decoders of EAT claims,
-- of SNP and TPM attestations, of quotes and of CoRIM, the file system, SHA3-512 and the
-- platforms' own verifiers are parameters. An error is its text, without what it wraps.
pub mod Report
pub mod Bound
pub mod Tests
use session_bound_agent_iden.Common.{
  String, ℕ, Option, none, some, List, [], ◌∷◌, ◌++◌, Bool, true, false, not, if◌then◌else◌, ltb,
  length, take, drop, any, is_nil, Result, ok, err, ◌>>=◌,
}
use session_bound_agent_iden.GoString.{Bytes, bytes, bytes_eq}
use session_bound_agent_iden.Atls.Tls.{Foreign}
use session_bound_agent_iden.Atls.Attestation.{AttErr, foreign, EvidenceBinding, Verifier}

-- `attestation.PlatformType`
pub data PlatformType : Type 0 where
  snp vtpm snp_vtpm azure tdx no_cc : PlatformType

-- The claims of an EAT that are read.
pub record Claims : Type 0 where
  pub nonce : Bytes
  pub platform_type : Bytes
  pub raw_report : Bytes

-- An SNP attestation: the report data of its report, if it has one.
pub record SnpAttestation : Type 0 where
  pub report_data : Option Bytes

pub record TpmAttestation : Type 0 where
  pub sev_snp : Option SnpAttestation
  pub ak_pub : Bytes
  pub quotes : List Bytes

-- The verifiers of the packages vtpm, azure and tdx.
pub data PlatformVerifier : Type 0 where
  vtpm_verifier azure_verifier tdx_verifier : PlatformVerifier

-- What other packages decode and verify. A quote gives its extra data; a CoRIM of type `M` is read
-- from COSE (signed) or from CBOR (unsigned); `appraise` is `VerifyWithCoRIM` of a verifier.
pub record Decoders (M : Type 0) : Type 0 where
  pub eat : Bytes → Result Foreign Claims
  pub tpm : Bytes → Option TpmAttestation
  pub snp : Bytes → Option SnpAttestation
  pub quote : Bytes → Option Bytes
  pub sha3 : Bytes → Bytes
  pub read_file : Bytes → Result Foreign Bytes
  pub from_cose : Bytes → Option M
  pub from_cbor : Bytes → Option M
  pub appraise : PlatformVerifier → Bytes → M → Option Foreign

abbrev pub fail : {A : Type 0} → String → Result AttErr A
fail text = err (foreign (bytes text))

unfoldable pub platform_type_from_claims : Bytes → PlatformType
platform_type_from_claims name =
    if bytes_eq name (bytes "SNP")
    then snp
    else if bytes_eq name (bytes "TDX")
    then tdx
    else if bytes_eq name (bytes "vTPM")
    then vtpm
    else if bytes_eq name (bytes "SNP-vTPM")
    then snp_vtpm
    else if bytes_eq name (bytes "Azure")
    then azure
    else no_cc

abbrev pub tdx_report_data_start : ℕ
tdx_report_data_start = 0x208

abbrev pub tdx_report_data_end : ℕ
tdx_report_data_end = 0x248

-- `report[tdxReportDataStart:tdxReportDataEnd]`
unfoldable pub tdx_report_data : Bytes → Bytes
tdx_report_data report = take 0x40 (drop tdx_report_data_start report)

unfoldable pub verify_tdx_report_data : Bytes → Bytes → Result AttErr (Unit {0})
verify_tdx_report_data report expected =
    if ltb (length report) tdx_report_data_end
    then fail "atls: TDX report too small to extract report data"
    else if not (bytes_eq (tdx_report_data report) expected)
    then fail "atls: TDX report data does not match TLS exporter binding"
    else ok tt

unfoldable pub compare_snp_report_data : Option SnpAttestation → Bytes → Result AttErr (Unit {0})
compare_snp_report_data none expected = fail "atls: SNP attestation is missing report data"
compare_snp_report_data (some a) expected = elim a.report_data [
  | none ↦ fail "atls: SNP attestation is missing report data"
  | some d ↦
      if not (bytes_eq d expected)
      then fail "atls: SNP report data does not match TLS exporter binding"
      else ok tt
]

-- `platformVerifier`
unfoldable pub platform_verifier : PlatformType → Result AttErr PlatformVerifier
platform_verifier snp = ok vtpm_verifier
platform_verifier snp_vtpm = ok vtpm_verifier
platform_verifier vtpm = ok vtpm_verifier
platform_verifier azure = ok azure_verifier
platform_verifier tdx = ok tdx_verifier
platform_verifier no_cc = fail "atls: unsupported platform type"

module _ {M : Type 0} (dec : Decoders M) where
  unfoldable pub snp_report_from_attestation : Bytes → Option SnpAttestation
  snp_report_from_attestation report = elim (dec.tpm report) [ none ↦ none | some t ↦ t.sev_snp ]

  -- The SNP report of a TPM attestation, else an SNP attestation itself.
  unfoldable pub snp_attestation : Bytes → Option SnpAttestation
  unfolding snp_report_from_attestation
  snp_attestation report = elim (snp_report_from_attestation report) [
    | some a ↦ some a
    | none ↦ dec.snp report
  ]

  unfoldable pub verify_snp_report_data : Bytes → Bytes → Result AttErr (Unit {0})
  unfolding snp_attestation compare_snp_report_data
  verify_snp_report_data report expected = elim (snp_attestation report) [
    | none ↦ fail "atls: failed to parse SNP attestation report"
    | some a ↦ compare_snp_report_data (some a) expected
  ]

  unfoldable pub verify_snp_vtpm_report_data : Bytes → Bytes → Result AttErr (Unit {0})
  unfolding compare_snp_report_data
  verify_snp_vtpm_report_data report expected = elim (dec.tpm report) [
    | none ↦ fail "atls: failed to parse SNP-vTPM attestation report"
    | some t ↦ elim t.sev_snp [
      | none ↦ fail "atls: SNP-vTPM attestation is missing embedded SNP report"
      | some a ↦ compare_snp_report_data (some a) (dec.sha3 (expected ++ t.ak_pub))
    ]
  ]

  -- Whether a quote decodes and has the nonce.
  unfoldable pub has_nonce : Bytes → Bytes → Bool
  has_nonce expected quote = elim (dec.quote quote) [ none ↦ false | some d ↦ bytes_eq d expected ]

  unfoldable pub verify_vtpm_nonce : Bytes → Bytes → Result AttErr (Unit {0})
  unfolding has_nonce
  verify_vtpm_nonce report expected = elim (dec.tpm report) [
    | none ↦ fail "atls: failed to parse vTPM attestation report"
    | some t ↦
        if any (λ q. has_nonce expected q) t.quotes
        then ok tt
        else fail "atls: vTPM quote nonce does not match TLS exporter binding"
  ]

  unfoldable pub verify_evidence_binding :
      PlatformType → Bytes → EvidenceBinding → Result AttErr (Unit {0})
  unfolding verify_tdx_report_data verify_snp_report_data verify_snp_vtpm_report_data
      verify_vtpm_nonce
  verify_evidence_binding tdx report b = verify_tdx_report_data report b.report_data
  verify_evidence_binding snp report b = verify_snp_report_data report b.report_data
  verify_evidence_binding azure report b = verify_snp_report_data report b.report_data
  verify_evidence_binding snp_vtpm report b =
      verify_vtpm_nonce report b.nonce >>= λ _. verify_snp_vtpm_report_data report b.report_data
  verify_evidence_binding vtpm report b = verify_vtpm_nonce report b.nonce
  verify_evidence_binding no_cc report b =
      fail "atls: unsupported platform type for binding verification"

  -- A file that is not a signed CoRIM is read as an unsigned one.
  unfoldable pub load_corim : Bytes → Result AttErr M
  load_corim path = elim (dec.read_file path) [
    | err e ↦ fail "atls: failed to read CoRIM file"
    | ok raw ↦ elim (dec.from_cose raw) [
      | some manifest ↦ ok manifest
      | none ↦ elim (dec.from_cbor raw) [
        | some manifest ↦ ok manifest
        | none ↦ fail "atls: failed to parse CoRIM"
      ]
    ]
  ]

  unfoldable pub verify_with_corim : PlatformVerifier → Bytes → M → Result AttErr (Unit {0})
  verify_with_corim verifier report manifest = elim (dec.appraise verifier report manifest) [
    | some e ↦ err (foreign e)
    | none ↦ ok tt
  ]

  -- The manifest is loaded before the verifier is chosen.
  unfoldable pub appraise_report : Bytes → PlatformType → Bytes → Result AttErr (Unit {0})
  unfolding load_corim platform_verifier verify_with_corim
  appraise_report policy_path platform report = load_corim policy_path >>= λ manifest.
      platform_verifier platform >>= λ verifier. verify_with_corim verifier report manifest

  unfoldable pub check_evidence : Bytes → Bytes → EvidenceBinding → Result AttErr (Unit {0})
  unfolding platform_type_from_claims verify_evidence_binding appraise_report
  check_evidence policy_path evidence b =
      if is_nil policy_path
      then fail "atls: attestation policy path is not set"
      else elim (dec.eat evidence) [
        | err e ↦ fail "atls: failed to decode EAT evidence"
        | ok claims ↦
            if not (bytes_eq claims.nonce b.nonce)
            then fail "atls: evidence nonce does not match TLS exporter binding"
            else (verify_evidence_binding (platform_type_from_claims claims.platform_type)
                  claims.raw_report b
                >>= λ _.
                    appraise_report policy_path (platform_type_from_claims claims.platform_type)
                      claims.raw_report)
      ]

  -- `policyEvidenceVerifier.VerifyEvidence`
  unfoldable pub verify_evidence : Bytes → Verifier
  unfolding check_evidence
  verify_evidence policy_path evidence b = elim (check_evidence policy_path evidence b) [
    | ok u ↦ none
    | err e ↦ some e
  ]
