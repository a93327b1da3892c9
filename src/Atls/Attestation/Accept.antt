-- ===== src/Atls/Attestation/Accept.antt =====
-- When an attestation payload is accepted.
use session_bound_agent_iden.Common.{
  ◌++◌, Option, none, some, [], ◌∷◌, Bool, true, ◌≡◌, ◌≢◌, ◌⊎◌, ◌↔◌, inl, inr, refl, ◌∙◌, ok,
  >>=-eq-ok, Bool-cases, Option-cases, arith, is_nil, not,
}
use session_bound_agent_iden.GoString.{Bytes}
use session_bound_agent_iden.GoString.Laws.{bytes_eq_iff}
use session_bound_agent_iden.Atls.Tls.{
  ConnectionState, Hashes, HashAlg, version_tls13, authenticator_hash,
}
use session_bound_agent_iden.Atls.Attestation.{
  AttErr, evidence_verification_missing, results_verification_missing, Payload, AttestationBinder,
  EvidenceBinding, VerifiedPayload, Verifier, VerificationPolicy, Leaf, SessionValues,
  validate_payload, verify_exporter_label, compute_binding, verify_binder_values, verify_statement,
  verify_payload, evidence_binding, export_attestation_value, public_key_bytes, lift_foreign,
}

-- The payload carries a statement and a binder.
pub record IsComplete (p : Payload) : Type 0 where
  pub statement_there : (p.evidence ≢ []) ⊎ (p.attestation_results ≢ [])
  pub key_hash_there : p.binder.aik_pub_hash ≢ []
  pub binding_there : p.binder.binding ≢ []

-- The values of the session and the leaf key: the exporter's output under the label and the
-- context, the hash of the key, and the hash of both.
pub record BoundTo (hs : Hashes) (st : ConnectionState) (label context : Bytes) (leaf : Option Leaf)
    (v : SessionValues) : Type 0 where
  pub tls13 : st.version ≡ version_tls13
  pub hash : HashAlg
  pub suite : authenticator_hash st.cipher_suite ≡ some hash
  pub key : Bytes
  pub leaf_key : public_key_bytes leaf ≡ ok key
  pub exported : st.export_keying_material label context 32 ≡ ok v.exported_value
  pub key_hash : v.aik_pub_hash ≡ hs.sum hash key
  pub bound : v.binding ≡ hs.sum hash (key ++ v.exported_value)

-- The statement is absent, or its verifier is there and accepts it for the binding.
pub record StatementAccepted (verifier : Option Verifier) (statement : Bytes) (b : EvidenceBinding)
    : Type 0 where
  pub verified : statement ≢ [] → (v : Verifier) × (verifier ≡ some v) × (v statement b ≡ none)

pub record PayloadAccepted (hs : Hashes) (st : ConnectionState) (label context : Bytes)
    (leaf : Option Leaf) (p : Payload) (policy : VerificationPolicy) : Type 0 where
  pub complete : IsComplete p
  pub label_matches : (p.binder.exporter_label ≡ []) ⊎ (p.binder.exporter_label ≡ label)
  pub session_values : SessionValues
  pub bound_to : BoundTo hs st label context leaf session_values
  pub key_hash_matches : session_values.aik_pub_hash ≡ p.binder.aik_pub_hash
  pub binding_matches : session_values.binding ≡ p.binder.binding
  pub evidence :
      StatementAccepted policy.evidence_verifier p.evidence (evidence_binding hs session_values)
  pub results :
      StatementAccepted policy.results_verifier p.attestation_results
        (evidence_binding hs session_values)

statement_of_payload :
    (p : Payload) → validate_payload p ≡ ok tt → (p.evidence ≢ []) ⊎ (p.attestation_results ≢ [])
unfolding validate_payload
statement_of_payload p h = elim (Bool-cases (is_nil p.evidence)) [
  | inr some_given ↦ inl (λ e. ground arith)
  | inl missing ↦ inr (λ e. ground arith)
]

pub validate_payload_iff : (p : Payload) → (validate_payload p ≡ ok tt) ↔ IsComplete p
unfolding validate_payload
validate_payload_iff p = (
  λ h. record {
    statement_there = statement_of_payload p h;
    key_hash_there = λ e. ground arith;
    binding_there = λ e. ground arith;
  },
  λ c. ground arith,
)

exporter_label_iff :
    (p : Payload) (label : Bytes)
    → (verify_exporter_label p label ≡ ok tt)
      ↔ ((p.binder.exporter_label ≡ []) ⊎ (p.binder.exporter_label ≡ label))
unfolding verify_exporter_label
exporter_label_iff p label =
    let same = bytes_eq_iff p.binder.exporter_label label in (λ h. ground arith, λ c. ground arith)

verify_binder_values_iff :
    (v : SessionValues) (b : AttestationBinder)
    → (verify_binder_values v b ≡ ok tt)
      ↔ ((v.aik_pub_hash ≡ b.aik_pub_hash) × (v.binding ≡ b.binding))
unfolding verify_binder_values
verify_binder_values_iff v b =
    let key = bytes_eq_iff v.aik_pub_hash b.aik_pub_hash in
    let bound = bytes_eq_iff v.binding b.binding in (λ h. ground arith, λ c. ground arith)

-- What `export_attestation_value` gives on success.
record Exported (st : ConnectionState) (label context : Bytes) (out : Bytes) (h : HashAlg)
    : Type 0 where
  tls13 : st.version ≡ version_tls13
  suite : authenticator_hash st.cipher_suite ≡ some h
  exported : st.export_keying_material label context 32 ≡ ok out

export_value_iff :
    (st : ConnectionState) (label context out : Bytes) (h : HashAlg)
    → (export_attestation_value st label context ≡ ok (out, h)) ↔ Exported st label context out h
unfolding export_attestation_value lift_foreign
export_value_iff st label context out h = (
  λ e. elim (Option-cases (authenticator_hash st.cipher_suite)) [
    | inl unknown ↦ absurd (ground arith)
    | inr (k, suite) ↦ ground arith
  ],
  λ x. rw (x.tls13, x.suite, x.exported) refl,
)

module _ (hs : Hashes) (st : ConnectionState) (label context : Bytes) (leaf : Option Leaf) where
  pub compute_binding_iff :
      (v : SessionValues)
      → (compute_binding hs st label context leaf ≡ ok v) ↔ BoundTo hs st label context leaf v
  unfolding compute_binding
  compute_binding_iff v = (
    λ e.
        let ((out, h), found, e1) = >>=-eq-ok (export_attestation_value st label context) _ e in
        let (key, leaf_key, e2) = >>=-eq-ok (public_key_bytes leaf) _ e1 in
        let x = (export_value_iff st label context out h).0 found in
        record {
          tls13 = x.tls13;
          hash = h;
          suite = x.suite;
          key = key;
          leaf_key = leaf_key;
          exported = x.exported ∙ ground arith;
          key_hash = ground arith;
          bound = ground arith;
        },
    λ b.
        rw
          (
            (export_value_iff st label context v.exported_value b.hash).1
                (record { tls13 = b.tls13; suite = b.suite; exported = b.exported }),
            b.leaf_key,
          )
          (ground (arith, b.key_hash, b.bound)),
  )

statement_sound :
    (verifier : Option Verifier) (missing : AttErr) (statement : Bytes) (b : EvidenceBinding)
    (r : Bool)
    → verify_statement verifier missing statement b ≡ ok r
    → StatementAccepted verifier statement b
unfolding verify_statement
statement_sound verifier missing [] b r h = record { verified = λ n. absurd (n refl) }
statement_sound none missing (x ∷ s) b r h = cc
statement_sound (some v) missing (x ∷ s) b r h = elim (Option-cases (v (x ∷ s) b)) [
  | inl accepted ↦ record { verified = λ n. (v, refl, accepted) }
  | inr (e, refused) ↦ absurd (ground arith)
]

statement_complete :
    (verifier : Option Verifier) (missing : AttErr) (statement : Bytes) (b : EvidenceBinding)
    → StatementAccepted verifier statement b
    → verify_statement verifier missing statement b ≡ ok (not (is_nil statement))
unfolding verify_statement
statement_complete verifier missing [] b a = refl
statement_complete verifier missing (x ∷ s) b a =
    let (v, given, accepted) = a.verified (λ e. cc) in rw (given, accepted) refl

module _ (hs : Hashes) (st : ConnectionState) (label context : Bytes) (leaf : Option Leaf)
    (p : Payload) (policy : VerificationPolicy) where
  pub payload_sound :
      (v : VerifiedPayload)
      → verify_payload hs st label context leaf p policy ≡ ok v
      → PayloadAccepted hs st label context leaf p policy
  unfolding verify_payload
  payload_sound v h =
      let (u, complete, h1) = >>=-eq-ok (validate_payload p) _ h in
      let (w, labelled, h2) = >>=-eq-ok (verify_exporter_label p label) _ h1 in
      let (values, computed, h3) = >>=-eq-ok (compute_binding hs st label context leaf) _ h2 in
      let (z, matched, h4) = >>=-eq-ok (verify_binder_values values p.binder) _ h3 in
      let (x, evidence, h5) =
        >>=-eq-ok
          (verify_statement policy.evidence_verifier evidence_verification_missing p.evidence
            (evidence_binding hs values))
          _ h4 in
      let (y, results, h6) =
        >>=-eq-ok
          (verify_statement policy.results_verifier results_verification_missing
            p.attestation_results (evidence_binding hs values))
          _ h5 in
      let (key, bound) = (verify_binder_values_iff values p.binder).0 matched in
      record {
        complete = (validate_payload_iff p).0 complete;
        label_matches = (exporter_label_iff p label).0 labelled;
        session_values = values;
        bound_to = (compute_binding_iff hs st label context leaf values).0 computed;
        key_hash_matches = key;
        binding_matches = bound;
        evidence = statement_sound policy.evidence_verifier _ p.evidence _ x evidence;
        results = statement_sound policy.results_verifier _ p.attestation_results _ y results;
      }

  -- What an accepted payload gives.
  abbrev pub verified_as : SessionValues → VerifiedPayload
  verified_as values = record {
    payload = p;
    evidence_verified = not (is_nil p.evidence);
    results_verified = not (is_nil p.attestation_results);
    binding_verified = true;
    used_exporter_label = label;
    binding = evidence_binding hs values;
  }

  pub payload_complete :
      (a : PayloadAccepted hs st label context leaf p policy)
      → verify_payload hs st label context leaf p policy ≡ ok (verified_as a.session_values)
  unfolding verify_payload
  payload_complete a =
      rw
        (
          (validate_payload_iff p).1 a.complete,
          (exporter_label_iff p label).1 a.label_matches,
          (compute_binding_iff hs st label context leaf a.session_values).1 a.bound_to,
          (verify_binder_values_iff a.session_values p.binder).1
              (a.key_hash_matches, a.binding_matches),
          statement_complete policy.evidence_verifier evidence_verification_missing p.evidence
              (evidence_binding hs a.session_values) a.evidence,
          statement_complete policy.results_verifier results_verification_missing
              p.attestation_results (evidence_binding hs a.session_values) a.results,
        )
        refl

  -- A payload is accepted exactly when it is complete, its exporter label is none or the expected
  -- one, its binder has the hash of the leaf key and the hash of that key with the session's
  -- exporter value, and each statement in it has a verifier that accepts it for that binding.
  pub verify_payload_iff :
      ((v : VerifiedPayload) × (verify_payload hs st label context leaf p policy ≡ ok v))
      ↔ PayloadAccepted hs st label context leaf p policy
  verify_payload_iff =
      (λ (v, h). payload_sound v h, λ a. (verified_as a.session_values, payload_complete a))
