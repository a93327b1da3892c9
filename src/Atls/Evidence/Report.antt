-- ===== src/Atls/Evidence/Report.antt =====
-- How a platform's report is bound to a session.
use mathlib.Core.Path.{subst}
use session_bound_agent_iden.Common.{
  ℕ, ◌+◌, ◌≤◌, none, some, List, [], ◌∷◌, ◌++◌, true, any, ◌≡◌, inl, inr, sym, ap, ◌∙◌, Bool-cases,
  Option-cases, Any, ok, arith, length, take, drop, >>=-eq-ok,
}
use session_bound_agent_iden.GoString.{Bytes}
use session_bound_agent_iden.GoString.Laws.{bytes_eq_iff}
use session_bound_agent_iden.Atls.Attestation.{EvidenceBinding}
use session_bound_agent_iden.Atls.Ea.Wire.Numbers.{take-drop, length-take, length-drop}
use session_bound_agent_iden.Atls.Evidence.{
  PlatformType, snp, vtpm, snp_vtpm, azure, tdx, no_cc, SnpAttestation, TpmAttestation, Decoders,
  tdx_report_data, tdx_report_data_start, tdx_report_data_end, verify_tdx_report_data,
  compare_snp_report_data, snp_report_from_attestation, snp_attestation, verify_snp_report_data,
  verify_snp_vtpm_report_data, has_nonce, verify_vtpm_nonce, verify_evidence_binding,
}

-- The 64 bytes behind the first 520 of a TDX report are the report data.
pub record HasTdxData (report expected : Bytes) : Type 0 where
  pub before : Bytes
  pub behind : Bytes
  pub layout : report ≡ before ++ (expected ++ behind)
  pub offset : length before ≡ 520
  pub size : length expected ≡ 64

-- A slice of a list, and what stands around it.
slice :
    (n m : ℕ) (r : Bytes)
    → n + m ≤ length r
    → (r ≡ take n r ++ (take m (drop n r) ++ drop m (drop n r)))
      × (length (take n r) ≡ n)
      × (length (take m (drop n r)) ≡ m)
slice n m r h = (
  sym (ap (λ x. take n r ++ x) (take-drop m (drop n r)) ∙ take-drop n r),
  length-take n r (omega arith),
  length-take m (drop n r) (omega (arith, length-drop n r)),
)

module _ {M : Type 0} (dec : Decoders M) where
  -- One quote of a TPM attestation decodes to the nonce.
  pub record HasQuote (report nonce : Bytes) : Type 0 where
    pub tpm : TpmAttestation
    pub parsed : dec.tpm report ≡ some tpm
    pub quoted : Any (λ q. dec.quote q ≡ some nonce) tpm.quotes

  -- The SNP attestation in a report: that of a TPM attestation, or else the report itself.
  pub data SnpIn (report : Bytes) (a : SnpAttestation) : Type 0 where
    in_tpm : (t : TpmAttestation) → dec.tpm report ≡ some t → t.sev_snp ≡ some a → SnpIn report a
    alone :
        ((t : TpmAttestation) → dec.tpm report ≡ some t → t.sev_snp ≡ none)
        → dec.snp report ≡ some a
        → SnpIn report a

  pub record HasSnpData (report expected : Bytes) : Type 0 where
    pub attestation : SnpAttestation
    pub found : SnpIn report attestation
    pub data_matches : attestation.report_data ≡ some expected

  -- The data are hashed with the key that signs the quotes.
  pub record HasVtpmData (report expected : Bytes) : Type 0 where
    pub tpm : TpmAttestation
    pub parsed : dec.tpm report ≡ some tpm
    pub attestation : SnpAttestation
    pub embedded : tpm.sev_snp ≡ some attestation
    pub data_matches : attestation.report_data ≡ some (dec.sha3 (expected ++ tpm.ak_pub))

  -- What binds a platform's report to a session.
  abbrev pub ReportBound : PlatformType → Bytes → EvidenceBinding → Type 0
  ReportBound tdx report b = HasTdxData report b.report_data
  ReportBound snp report b = HasSnpData report b.report_data
  ReportBound azure report b = HasSnpData report b.report_data
  ReportBound snp_vtpm report b = HasQuote report b.nonce × HasVtpmData report b.report_data
  ReportBound vtpm report b = HasQuote report b.nonce
  ReportBound no_cc report b = ⊥

  tdx_slice :
      (report : Bytes)
      → tdx_report_data_end ≤ length report
      → HasTdxData report (tdx_report_data report)
  unfolding tdx_report_data
  tdx_slice report h =
      let (layout, offset, size) = slice tdx_report_data_start 64 report (omega arith) in
      record {
        before = take tdx_report_data_start report;
        behind = drop 64 (drop tdx_report_data_start report);
        layout = layout;
        offset = offset;
        size = size;
      }

  tdx_sound :
      (report expected : Bytes) (u : Unit {0})
      → verify_tdx_report_data report expected ≡ ok u
      → HasTdxData report expected
  unfolding verify_tdx_report_data
  tdx_sound report expected u h =
      let iff = bytes_eq_iff (tdx_report_data report) expected in
      let same : tdx_report_data report ≡ expected = ground arith in
      let long : tdx_report_data_end ≤ length report = ground arith in
      subst (λ d. HasTdxData report d) same (tdx_slice report long)

  compare_sound :
      (a : SnpAttestation) (expected : Bytes) (u : Unit {0})
      → compare_snp_report_data (some a) expected ≡ ok u
      → a.report_data ≡ some expected
  unfolding compare_snp_report_data
  compare_sound a expected u h = elim (Option-cases a.report_data) [
    | inl missing ↦ absurd (ground arith)
    | inr (d, there) ↦ let same = bytes_eq_iff d expected in ground arith
  ]

  snp_found :
      (report : Bytes) (a : SnpAttestation) → snp_attestation dec report ≡ some a → SnpIn report a
  unfolding snp_attestation snp_report_from_attestation
  snp_found report a h = elim (Option-cases (dec.tpm report)) [
    | inl missing ↦ alone (λ t parsed. absurd (ground arith)) (ground arith)
    | inr (t, parsed) ↦ elim (Option-cases t.sev_snp) [
      | inl missing ↦
          alone
            (λ x other.
              let same : t ≡ x = ground arith in
              subst (λ (y : TpmAttestation). y.sev_snp ≡ none) same missing)
            (ground arith)
      | inr (x, there) ↦ in_tpm t parsed (ground arith)
    ]
  ]

  snp_sound :
      (report expected : Bytes) (u : Unit {0})
      → verify_snp_report_data dec report expected ≡ ok u
      → HasSnpData report expected
  unfolding verify_snp_report_data
  snp_sound report expected u h = elim (Option-cases (snp_attestation dec report)) [
    | inl missing ↦ absurd (ground arith)
    | inr (a, parsed) ↦ record {
      attestation = a;
      found = snp_found report a parsed;
      data_matches = compare_sound a expected u (rw (parsed, verify_snp_report_data) at h);
    }
  ]

  snp_vtpm_sound :
      (report expected : Bytes) (u : Unit {0})
      → verify_snp_vtpm_report_data dec report expected ≡ ok u
      → HasVtpmData report expected
  unfolding verify_snp_vtpm_report_data
  snp_vtpm_sound report expected u h = elim (Option-cases (dec.tpm report)) [
    | inl missing ↦ absurd (ground arith)
    | inr (t, parsed) ↦ elim (Option-cases t.sev_snp) [
      | inl missing ↦ absurd (ground arith)
      | inr (a, embedded) ↦ record {
        tpm = t;
        parsed = parsed;
        attestation = a;
        embedded = embedded;
        data_matches =
            compare_sound a (dec.sha3 (expected ++ t.ak_pub)) u
              (rw (parsed, embedded, verify_snp_vtpm_report_data) at h);
      }
    ]
  ]

  quote_found :
      (nonce : Bytes) (quotes : List Bytes)
      → any (λ q. has_nonce dec nonce q) quotes ≡ true
      → Any (λ q. dec.quote q ≡ some nonce) quotes
  unfolding has_nonce
  quote_found nonce [] h = cc
  quote_found nonce (q ∷ quotes) h = elim (Bool-cases (has_nonce dec nonce q)) [
    | inr other ↦ inr (quote_found nonce quotes (ground arith))
    | inl hit ↦ elim (Option-cases (dec.quote q)) [
      | inl missing ↦ absurd (ground arith)
      | inr (d, there) ↦ let same = bytes_eq_iff d nonce in inl (ground arith)
    ]
  ]

  quote_sound :
      (report nonce : Bytes) (u : Unit {0})
      → verify_vtpm_nonce dec report nonce ≡ ok u
      → HasQuote report nonce
  unfolding verify_vtpm_nonce
  quote_sound report nonce u h = elim (Option-cases (dec.tpm report)) [
    | inl missing ↦ absurd (ground arith)
    | inr (t, parsed) ↦ record {
      tpm = t;
      parsed = parsed;
      quoted = quote_found nonce t.quotes (ground arith);
    }
  ]

  pub binding_sound :
      (platform : PlatformType) (report : Bytes) (b : EvidenceBinding) (u : Unit {0})
      → verify_evidence_binding dec platform report b ≡ ok u
      → ReportBound platform report b
  unfolding verify_evidence_binding
  binding_sound tdx report b u h = tdx_sound report b.report_data u h
  binding_sound snp report b u h = snp_sound report b.report_data u h
  binding_sound azure report b u h = snp_sound report b.report_data u h
  binding_sound vtpm report b u h = quote_sound report b.nonce u h
  binding_sound snp_vtpm report b u h =
      let (x, quoted, rest) = >>=-eq-ok (verify_vtpm_nonce dec report b.nonce) _ h in
      (quote_sound report b.nonce x quoted, snp_vtpm_sound report b.report_data u rest)
  binding_sound no_cc report b u h = cc
