-- ===== src/Atls/Evidence/Bound.antt =====
-- What accepted platform evidence is bound to.
use mathlib.Core.Path.{subst}
use session_bound_agent_iden.Common.{
  sym, if◌then◌else◌, none, some, [], ◌≡◌, ◌≢◌, ◌⊎◌, inl, inr, refl, Bool-cases, Option-cases,
  Result-cases, ok, >>=-eq-ok, guard_passed, arith, is_nil,
}
use session_bound_agent_iden.GoString.{Bytes, bytes, bytes_eq}
use session_bound_agent_iden.GoString.Laws.{bytes_eq_iff}
use session_bound_agent_iden.Atls.Attestation.{EvidenceBinding}
use session_bound_agent_iden.Atls.Evidence.{
  PlatformType, snp, vtpm, snp_vtpm, azure, tdx, no_cc, PlatformVerifier, vtpm_verifier,
  azure_verifier, tdx_verifier, Claims, Decoders, platform_type_from_claims,
  verify_evidence_binding, load_corim, platform_verifier, verify_with_corim, appraise_report,
  check_evidence, verify_evidence,
}
use session_bound_agent_iden.Atls.Evidence.Report.{ReportBound, binding_sound}

-- The platforms' names in evidence.
pub data Named : PlatformType → Bytes → Type 0 where
  name_snp : Named snp (bytes "SNP")
  name_tdx : Named tdx (bytes "TDX")
  name_vtpm : Named vtpm (bytes "vTPM")
  name_snp_vtpm : Named snp_vtpm (bytes "SNP-vTPM")
  name_azure : Named azure (bytes "Azure")

-- Who verifies the reports of a platform.
pub data VerifiedBy : PlatformType → PlatformVerifier → Type 0 where
  snp_by_vtpm : VerifiedBy snp vtpm_verifier
  snp_vtpm_by_vtpm : VerifiedBy snp_vtpm vtpm_verifier
  vtpm_by_vtpm : VerifiedBy vtpm vtpm_verifier
  azure_by_azure : VerifiedBy azure azure_verifier
  tdx_by_tdx : VerifiedBy tdx tdx_verifier

-- One test of a name, with what holds of the rest.
name_test :
    (p rest : PlatformType) (text name : Bytes)
    → Named p text
    → (rest ≡ no_cc) ⊎ Named rest name
    → ((if bytes_eq name text then p else rest) ≡ no_cc)
      ⊎ Named (if bytes_eq name text then p else rest) name
name_test p rest text name named others = elim (Bool-cases (bytes_eq name text)) [
  | inl hit ↦ rw hit (inr (subst (λ n. Named p n) (sym ((bytes_eq_iff name text).0 hit)) named))
  | inr miss ↦ rw miss others
]

Named-or_none :
    (name : Bytes)
    → (platform_type_from_claims name ≡ no_cc) ⊎ Named (platform_type_from_claims name) name
unfolding platform_type_from_claims
Named-or_none name = name_test snp _ _ name name_snp (
    name_test tdx _ _ name name_tdx (
      name_test vtpm _ _ name name_vtpm (
        name_test snp_vtpm _ _ name name_snp_vtpm
          (name_test azure no_cc _ name name_azure (inl refl)))))

verified_by :
    (platform : PlatformType) (v : PlatformVerifier)
    → platform_verifier platform ≡ ok v
    → VerifiedBy platform v
unfolding platform_verifier
verified_by snp vtpm_verifier h = snp_by_vtpm
verified_by snp_vtpm vtpm_verifier h = snp_vtpm_by_vtpm
verified_by vtpm vtpm_verifier h = vtpm_by_vtpm
verified_by azure azure_verifier h = azure_by_azure
verified_by tdx tdx_verifier h = tdx_by_tdx
verified_by _ _ h = absurd (ground arith)

module _ {M : Type 0} (dec : Decoders M) where
  -- The manifest of a CoRIM file: signed, or else unsigned.
  pub record Loaded (policy_path : Bytes) (manifest : M) : Type 0 where
    pub raw : Bytes
    pub file : dec.read_file policy_path ≡ ok raw
    pub decoded :
        (dec.from_cose raw ≡ some manifest)
        ⊎ ((dec.from_cose raw ≡ none) × (dec.from_cbor raw ≡ some manifest))

  pub record EvidenceBound (policy_path evidence : Bytes) (b : EvidenceBinding) : Type 0 where
    pub path_given : policy_path ≢ []
    pub claims : Claims
    pub decoded : dec.eat evidence ≡ ok claims
    pub nonce_matches : claims.nonce ≡ b.nonce
    pub platform : PlatformType
    pub named : Named platform claims.platform_type
    pub bound : ReportBound dec platform claims.raw_report b
    pub manifest : M
    pub loaded : Loaded policy_path manifest
    pub verifier : PlatformVerifier
    pub verified_by : VerifiedBy platform verifier
    pub appraised : dec.appraise verifier claims.raw_report manifest ≡ none

  load_sound :
      (path : Bytes) (manifest : M) → load_corim dec path ≡ ok manifest → Loaded path manifest
  unfolding load_corim
  load_sound path manifest h = elim (Result-cases (dec.read_file path)) [
    | inr (e, failed) ↦ absurd (ground arith)
    | inl (raw, file) ↦ elim (Option-cases (dec.from_cose raw)) [
      | inl unsigned ↦ elim (Option-cases (dec.from_cbor raw)) [
        | inl neither ↦ absurd (ground arith)
        | inr (m, read) ↦ record { raw = raw; file = file; decoded = inr (unsigned, ground arith) }
      ]
      | inr (m, read) ↦ record { raw = raw; file = file; decoded = inl (ground arith) }
    ]
  ]

  appraised_sound :
      (v : PlatformVerifier) (report : Bytes) (manifest : M) (u : Unit {0})
      → verify_with_corim dec v report manifest ≡ ok u
      → dec.appraise v report manifest ≡ none
  unfolding verify_with_corim
  appraised_sound v report manifest u h = elim (Option-cases (dec.appraise v report manifest)) [
    | inl clean ↦ clean
    | inr (e, refused) ↦ absurd (ground arith)
  ]

  bound-Named :
      (name report : Bytes) (b : EvidenceBinding)
      → ReportBound dec (platform_type_from_claims name) report b
      → Named (platform_type_from_claims name) name
  bound-Named name report b h = elim (Named-or_none name) [
    | inr named ↦ named
    | inl unknown ↦ absurd (subst (λ p. ReportBound dec p report b) unknown h)
  ]

  check_sound :
      (policy_path evidence : Bytes) (b : EvidenceBinding) (u : Unit {0})
      → check_evidence dec policy_path evidence b ≡ ok u
      → EvidenceBound policy_path evidence b
  unfolding check_evidence appraise_report
  check_sound policy_path evidence b u h = elim (Bool-cases (is_nil policy_path)) [
    | inl missing ↦ absurd (ground arith)
    | inr given ↦ elim (Result-cases (dec.eat evidence)) [
      | inr (e, failed) ↦ absurd (ground arith)
      | inl (claims, decoded) ↦
          let (fresh, h1) =
            guard_passed (bytes_eq claims.nonce b.nonce) _ _
              (rw (given, decoded, check_evidence) at h) in
          let platform = platform_type_from_claims claims.platform_type in
          let (x, checked, h2) =
            >>=-eq-ok (verify_evidence_binding dec platform claims.raw_report b) _ h1 in
          let (m, loaded, h3) = >>=-eq-ok (load_corim dec policy_path) _ h2 in
          let (v, chosen, h4) = >>=-eq-ok (platform_verifier platform) _ h3 in
          let bound = binding_sound dec platform claims.raw_report b x checked in
          record {
            path_given = λ e. ground arith;
            claims = claims;
            decoded = decoded;
            nonce_matches = (bytes_eq_iff claims.nonce b.nonce).0 fresh;
            platform = platform;
            named = bound-Named claims.platform_type claims.raw_report b bound;
            bound = bound;
            manifest = m;
            loaded = load_sound policy_path m loaded;
            verifier = v;
            verified_by = verified_by platform v chosen;
            appraised = appraised_sound v claims.raw_report m u h4;
          }
    ]
  ]

  -- Accepted evidence decodes to claims that repeat the session's nonce and name a platform; the
  -- report is bound to the session as that platform binds reports (the report data of a TDX or an
  -- SNP report, the nonce of a TPM quote, or both with the report data hashed with the quotes'
  -- key), and that platform's verifier accepts the report for the manifest in the policy's file.
  pub verify_evidence_sound :
      (policy_path evidence : Bytes) (b : EvidenceBinding)
      → verify_evidence dec policy_path evidence b ≡ none
      → EvidenceBound policy_path evidence b
  unfolding verify_evidence
  verify_evidence_sound policy_path evidence b h =
      elim (Result-cases (check_evidence dec policy_path evidence b)) [
        | inl (u, accepted) ↦ check_sound policy_path evidence b u accepted
        | inr (e, refused) ↦ absurd (ground arith)
      ]
