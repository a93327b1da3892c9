-- ===== src/Atls/Ea/Flight/Sound.antt =====
-- What the checks on the messages of a full authenticator establish.
use session_bound_agent_iden.Common.{
  ℕ, Option, none, some, List, [], ◌∷◌, ◌++◌, true, false, is_nil, ◌≡◌, inl, inr, refl, sym, ap,
  ◌∙◌, All, Bool-cases, Option-cases, Result-cases, ok, ◌>>=◌, >>=-eq-ok, arith,
}
use mathlib.Core.Path.{subst}
use mathlib.Core.List.{append-nil}
use session_bound_agent_iden.GoString.{Bytes}
use session_bound_agent_iden.GoString.Laws.{bytes_eq_iff}
use session_bound_agent_iden.Atls.Ea.Wire.{
  EaErr, HandshakeMessage, unmarshal_handshake_message, handshake_type_certificate_verify,
  handshake_type_finished,
}
use session_bound_agent_iden.Atls.Ea.Wire.Numbers.{AreBytes, AreBytes-parts}
use session_bound_agent_iden.Atls.Ea.Wire.Handshake.{marshal-unmarshal_handshake}
use session_bound_agent_iden.Atls.Ea.Request.{AuthenticatorRequest}
use session_bound_agent_iden.Atls.Ea.Messages.{
  CertificateEntry, raw_bytes, marshal_certificate, unmarshal_certificate,
  marshal_certificate_verify, unmarshal_certificate_verify, marshal_finished, unmarshal_finished,
}
use session_bound_agent_iden.Atls.Ea.Messages.RoundTrip.{
  raw_bytes_lem, marshal-unmarshal_certificate, marshal-unmarshal_certificate_verify,
  marshal-unmarshal_finished,
}
use session_bound_agent_iden.Atls.Ea.Policy.{
  SpontaneousAuthenticatorPolicy, validate_entry_extensions, validate_cmw_placement, permits,
}
use session_bound_agent_iden.Atls.Ea.Policy.Permits.{entry_extensions_iff}
use session_bound_agent_iden.Atls.Ea.Signatures.{Primitives, verify_cert_verify}
use session_bound_agent_iden.Atls.Ea.Transcript.{AuthenticatorKeys, hash_concat, finished_mac}
use session_bound_agent_iden.Atls.Ea.Create.{RequestPart, fail_with}
use session_bound_agent_iden.Atls.Ea.Flight.{
  Flight, Accepted, next_message, split_flight, validate_entries, context_differs, leaf_evidence,
  scheme_offered, parse_chain, verify_proofs, check_chain, check_entries, check_flight,
}

-- The bytes of an authenticator are the three messages of a flight, each as its writer writes it.
pub record IsLaidOut (auth_bytes : Bytes) (f : Flight) : Type 0 where
  pub finished_bytes : Bytes
  pub whole : auth_bytes ≡ f.cert_bytes ++ (f.verify_bytes ++ finished_bytes)
  pub certificate : marshal_certificate f.cert ≡ ok f.cert_bytes
  pub certificate_verify : marshal_certificate_verify f.verify ≡ ok f.verify_bytes
  pub finished : marshal_finished f.verify_data ≡ ok finished_bytes

-- A message that was read stands in front of the rest, as its raw bytes.
pub message_front :
    (b : Bytes) (m : HandshakeMessage) (rest : Bytes)
    → AreBytes b
    → unmarshal_handshake_message b ≡ ok (m, rest)
    → (b ≡ raw_bytes m ++ rest) × AreBytes (raw_bytes m) × AreBytes rest
message_front b m rest h e =
    let (c, written, same, bytes) = marshal-unmarshal_handshake b m rest h e in
    let raw = raw_bytes_lem m c written in
    let whole : b ≡ raw_bytes m ++ rest = rw raw same in
    let (front, back) = AreBytes-parts (raw_bytes m) rest (subst AreBytes whole h) in
    (whole, front, back)

next_message_sound :
    (type : ℕ) (e : EaErr) (b : Bytes) (m : HandshakeMessage) (rest : Bytes)
    → next_message type e b ≡ ok (m, rest)
    → unmarshal_handshake_message b ≡ ok (m, rest)
unfolding next_message
next_message_sound type e b m rest n = elim (Result-cases (unmarshal_handshake_message b)) [
  | inr (x, bad) ↦ absurd (ground arith)
  | inl ((k, after), found) ↦ found ∙ ground arith
]

is_nil_lem : (b : Bytes) → is_nil b ≡ true → b ≡ []
is_nil_lem [] h = refl
is_nil_lem (x ∷ b) h = cc

pub split_flight_sound :
    (first : HandshakeMessage) (rest : Bytes) (f : Flight)
    → AreBytes (raw_bytes first)
    → AreBytes rest
    → split_flight first rest ≡ ok f
    → IsLaidOut (raw_bytes first ++ rest) f
unfolding split_flight
split_flight_sound first rest f hf hr h =
    let ((cv, rest1), second, h1) =
      >>=-eq-ok (next_message handshake_type_certificate_verify _ rest) _ h in
    let (whole1, bytes1, after1) =
      message_front rest cv rest1 hr (next_message_sound _ _ rest cv rest1 second) in
    let ((fin, rest2), third, h2) = >>=-eq-ok (next_message handshake_type_finished _ rest1) _ h1 in
    let (whole2, bytes2, after2) =
      message_front rest1 fin rest2 after1 (next_message_sound _ _ rest1 fin rest2 third) in
    elim (Bool-cases (is_nil rest2)) [
      | inr more ↦ absurd (ground arith)
      | inl ended ↦
          let h3 = rw (ended, ◌>>=◌) at h2 in
          let ((cert, raw0), certificate, h4) =
            >>=-eq-ok (unmarshal_certificate (raw_bytes first)) _ h3 in
          let ((verify, raw1), certificate_verify, h5) =
            >>=-eq-ok (unmarshal_certificate_verify (raw_bytes cv)) _ h4 in
          let ((verify_data, raw2), finished, h6) =
            >>=-eq-ok (unmarshal_finished (raw_bytes fin)) _ h5 in
          let (cert_written, _) =
            marshal-unmarshal_certificate (raw_bytes first) cert raw0 hf certificate in
          let (cv_written, _) =
            marshal-unmarshal_certificate_verify (raw_bytes cv) verify raw1 bytes1
              certificate_verify in
          let (fin_written, _) =
            marshal-unmarshal_finished (raw_bytes fin) verify_data raw2 bytes2 finished in
          let g : Flight = record {
            cert = cert;
            cert_bytes = raw_bytes first;
            verify = verify;
            verify_bytes = raw_bytes cv;
            verify_data = verify_data;
          } in
          let same : g ≡ f = ground arith in
          subst (IsLaidOut (raw_bytes first ++ rest)) same (record {
            finished_bytes = raw_bytes fin;
            whole =
                ground (arith, whole1, whole2, is_nil_lem rest2 ended, append-nil (raw_bytes fin));
            certificate = cert_written;
            certificate_verify = cv_written;
            finished = fin_written;
          })
    ]

-- Evidence stands in the first entry only, and every extension is permitted.
pub record AreEntriesAllowed (req : Option AuthenticatorRequest)
    (policy : Option SpontaneousAuthenticatorPolicy) (entries : List CertificateEntry)
    : Type 0 where
  pub placement : validate_cmw_placement entries ≡ none
  pub permitted : All (λ e. All (λ x. permits req policy x.type ≡ true) e.extensions) entries

-- What is known of an accepted full authenticator: its context is that of the request, its
-- entries are allowed, its chain parses, its scheme was offered, the leaf signed the transcript up
-- to the certificate, and the Finished message is the MAC of the transcript.
pub record IsProven {K P C : Type 0} (prim : Primitives K P C) (keys : AuthenticatorKeys)
    (req : Option AuthenticatorRequest) (policy : Option SpontaneousAuthenticatorPolicy)
    (part : RequestPart) (f : Flight) (a : Accepted C) : Type 0 where
  pub context_matches : context_differs req f.cert.context ≡ false
  pub context_kept : a.context ≡ f.cert.context
  pub first : CertificateEntry
  pub others : List CertificateEntry
  pub entries : f.cert.entries ≡ first ∷ others
  pub allowed : AreEntriesAllowed req policy (first ∷ others)
  pub evidence : leaf_evidence first req policy ≡ ok a.evidence
  pub chain : parse_chain prim (first ∷ others) ≡ ok (a.leaf ∷ a.intermediates)
  pub scheme : scheme_offered req part.offered f.verify.algorithm ≡ true
  pub signature :
      verify_cert_verify prim
        (prim.public_key a.leaf)
        f.verify.algorithm
        (hash_concat prim.hashes keys.hash (keys.context ∷ part.request_bytes ∷ f.cert_bytes ∷ []))
        f.verify.signature
      ≡ none
  pub finished :
      f.verify_data
      ≡ finished_mac prim.hashes keys
          (keys.context ∷ part.request_bytes ∷ f.cert_bytes ∷ f.verify_bytes ∷ [])

pub fail_with_ok : (o : Option EaErr) (u : Unit {0}) → fail_with o ≡ ok u → o ≡ none
fail_with_ok none u h = refl
fail_with_ok (some e) u h = cc

entries_sound :
    (es : List CertificateEntry) (req : Option AuthenticatorRequest)
    (policy : Option SpontaneousAuthenticatorPolicy)
    → validate_entries es req policy ≡ none
    → All (λ e. All (λ x. permits req policy x.type ≡ true) e.extensions) es
unfolding validate_entries
entries_sound [] req policy h = tt
entries_sound (e ∷ es) req policy h =
    elim (Option-cases (validate_entry_extensions e.extensions req policy)) [
      | inr (x, bad) ↦ absurd (ground arith)
      | inl good ↦ (
        (entry_extensions_iff e.extensions req policy).0 good,
        entries_sound es req policy (rw (good, validate_entries) at h),
      )
    ]

module _ {K P C : Type 0} (prim : Primitives K P C) (keys : AuthenticatorKeys)
    (req : Option AuthenticatorRequest) (policy : Option SpontaneousAuthenticatorPolicy)
    (part : RequestPart) where
  proofs_sound :
      (f : Flight) (leaf : C)
      → verify_proofs prim keys part.request_bytes f leaf ≡ none
      → (verify_cert_verify prim
            (prim.public_key leaf)
            f.verify.algorithm
            (hash_concat prim.hashes keys.hash
              (keys.context ∷ part.request_bytes ∷ f.cert_bytes ∷ []))
            f.verify.signature
          ≡ none)
        × (f.verify_data
            ≡ finished_mac prim.hashes keys
                (keys.context ∷ part.request_bytes ∷ f.cert_bytes ∷ f.verify_bytes ∷ []))
  unfolding verify_proofs
  proofs_sound f leaf h =
      let mac =
        finished_mac prim.hashes keys
          (keys.context ∷ part.request_bytes ∷ f.cert_bytes ∷ f.verify_bytes ∷ []) in
      let same = bytes_eq_iff mac f.verify_data in (ground arith, sym (same.0 (ground arith)))

  chain_sound :
      (f : Flight) (evidence : Option Bytes) (chain : List C) (a : Accepted C)
      → check_chain prim keys req part f evidence chain ≡ ok a
      → (chain ≡ a.leaf ∷ a.intermediates)
        × (a.evidence ≡ evidence)
        × (a.context ≡ f.cert.context)
        × (scheme_offered req part.offered f.verify.algorithm ≡ true)
        × (verify_proofs prim keys part.request_bytes f a.leaf ≡ none)
  unfolding check_chain
  chain_sound f evidence [] a h = cc
  chain_sound f evidence (leaf ∷ others) a h =
      elim (Bool-cases (scheme_offered req part.offered f.verify.algorithm)) [
        | inr bad ↦ absurd (ground arith)
        | inl good ↦
            let (u, proofs, same) =
              >>=-eq-ok (fail_with (verify_proofs prim keys part.request_bytes f leaf)) _
                (rw (good, check_chain) at h) in
            let clean = fail_with_ok _ u proofs in ground arith
      ]

  entries-IsProven :
      (f : Flight) (entries : List CertificateEntry)
      → f.cert.entries ≡ entries
      → (a : Accepted C) → context_differs req f.cert.context ≡ false
      → check_entries prim keys req policy part f entries ≡ ok a
      → IsProven prim keys req policy part f a
  unfolding check_entries
  entries-IsProven f [] same a agrees h = cc
  entries-IsProven f (first ∷ others) same a agrees h =
      let (u, placed, h1) = >>=-eq-ok (fail_with (validate_cmw_placement (first ∷ others))) _ h in
      let (v, permitted, h2) =
        >>=-eq-ok (fail_with (validate_entries (first ∷ others) req policy)) _ h1 in
      let (evidence, found, h3) = >>=-eq-ok (leaf_evidence first req policy) _ h2 in
      let (chain, parsed, h4) = >>=-eq-ok (parse_chain prim (first ∷ others)) _ h3 in
      let (split, kept, context, scheme, proofs) = chain_sound f evidence chain a h4 in
      let (signature, finished) = proofs_sound f a.leaf proofs in
      record {
        context_matches = agrees;
        context_kept = context;
        first = first;
        others = others;
        entries = same;
        allowed = record {
          placement = fail_with_ok _ u placed;
          permitted = entries_sound (first ∷ others) req policy (fail_with_ok _ v permitted);
        };
        evidence = found ∙ ap ok (sym kept);
        chain = parsed ∙ ap ok split;
        scheme = scheme;
        signature = signature;
        finished = finished;
      }

  pub flight_sound :
      (f : Flight) (a : Accepted C)
      → check_flight prim keys req policy part f ≡ ok a
      → IsProven prim keys req policy part f a
  unfolding check_flight
  flight_sound f a h = elim (Bool-cases (context_differs req f.cert.context)) [
    | inl differs ↦ absurd (ground arith)
    | inr agrees ↦ entries-IsProven f f.cert.entries refl a agrees (rw agrees at h)
  ]
