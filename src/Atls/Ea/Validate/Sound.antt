-- ===== src/Atls/Ea/Validate/Sound.antt =====
-- What an accepted full authenticator establishes.
use session_bound_agent_iden.Common.{
  Option, none, some, ◌∷◌, true, false, ◌==◌, ◌≡◌, ◌≢◌, inl, inr, sym, ap, ◌∙◌, Bool-cases,
  Option-cases, Result-cases, Result, ok, ◌>>=◌, >>=-eq-ok, guard_passed, arith,
}
use mathlib.Core.Path.{subst}
use session_bound_agent_iden.GoString.{Bytes}
use session_bound_agent_iden.Atls.Tls.{ConnectionState, version_tls13}
use session_bound_agent_iden.Atls.Attestation.{
  Payload, VerificationPolicy, VerifiedPayload, requires_attestation, parse_payload, verify_payload,
  exporter_label_attestation,
}
use session_bound_agent_iden.Atls.Attestation.Accept.{PayloadAccepted, payload_sound}
use session_bound_agent_iden.Atls.Ea.Wire.{
  EaErr, not_tls13, unmarshal_handshake_message, handshake_type_certificate,
  handshake_type_finished,
}
use session_bound_agent_iden.Atls.Ea.Wire.Numbers.{AreBytes}
use session_bound_agent_iden.Atls.Ea.Request.{AuthenticatorRequest}
use session_bound_agent_iden.Atls.Ea.Policy.{SpontaneousAuthenticatorPolicy}
use session_bound_agent_iden.Atls.Ea.Session.{mark_context_used}
use session_bound_agent_iden.Atls.Ea.Signatures.{Primitives}
use session_bound_agent_iden.Atls.Ea.Transcript.{Role, AuthenticatorKeys, export_keys}
use session_bound_agent_iden.Atls.Ea.Create.{RequestPart, fail_with}
use session_bound_agent_iden.Atls.Ea.Flight.{
  Flight, Accepted, split_flight, check_empty, check_flight, check_authenticator,
}
use session_bound_agent_iden.Atls.Ea.Flight.Sound.{
  IsLaidOut, IsProven, message_front, split_flight_sound, flight_sound, fail_with_ok,
}
use session_bound_agent_iden.Atls.Ea.Validate.{
  ValidationResult, Shared, validate_part, check_attestation, verify_chain, accepted_result,
  finish_full, finish_empty, check_all, validate_authenticator,
}

-- Evidence is there where the policy requires it, and what is there parses and is accepted.
pub record AttestationHolds {K P C : Type 0} (prim : Primitives K P C) (st : ConnectionState)
    (att : VerificationPolicy) (a : Accepted C) : Type 0 where
  pub required : requires_attestation att ≡ true → a.evidence ≢ none
  pub verified :
      (e : Bytes)
      → a.evidence ≡ some e
      → (p : Payload) × (parse_payload prim.decode_payload e ≡ ok p)
        × PayloadAccepted prim.hashes st exporter_label_attestation a.context
            (some (prim.leaf a.leaf))
            p
            att

-- An authenticator that is accepted under the state `w` and leaves the state `w'`.
pub record FullyAccepted {K P C : Type 0} (prim : Primitives K P C) (w w' : Shared C)
    (st : ConnectionState) (role : Role) (req : Option AuthenticatorRequest)
    (policy : Option SpontaneousAuthenticatorPolicy) (att : VerificationPolicy) (auth_bytes : Bytes)
    (v : ValidationResult C) : Type 0 where
  pub tls13 : st.version ≡ version_tls13
  pub keys : AuthenticatorKeys
  pub exported : export_keys st role ≡ ok keys
  pub part : RequestPart
  pub requested : validate_part prim req ≡ ok part
  pub flight : Flight
  pub laid_out : IsLaidOut auth_bytes flight
  pub accepted : Accepted C
  pub proven : IsProven prim keys req policy part flight accepted
  pub chain_verified : verify_chain prim w.options accepted ≡ (w'.options, none)
  pub context_fresh : mark_context_used w.session accepted.context ≡ (w'.session, none)
  pub attested : AttestationHolds prim st att accepted
  pub chain : v.chain ≡ accepted.leaf ∷ accepted.intermediates
  pub context : v.context ≡ accepted.context

module _ {K P C : Type 0} (prim : Primitives K P C) where
  authenticator_sound :
      (keys : AuthenticatorKeys) (req : Option AuthenticatorRequest)
      (policy : Option SpontaneousAuthenticatorPolicy) (part : RequestPart) (b : Bytes)
      (a : Accepted C)
      → AreBytes b
      → check_authenticator prim keys req policy part b ≡ ok (some a)
      → (f : Flight) × IsLaidOut b f × IsProven prim keys req policy part f a
  unfolding check_authenticator
  authenticator_sound keys req policy part b a h e =
      let ((first, rest), found, h1) = >>=-eq-ok (unmarshal_handshake_message b) _ e in
      let (whole, front, back) = message_front b first rest h found in
      elim (Bool-cases (first.type == handshake_type_finished)) [
        | inl finished ↦
            let (u, checked, h2) =
              >>=-eq-ok (check_empty prim keys req part first rest) _ (rw finished at h1) in
            absurd (ground arith)
        | inr full ↦ elim (Bool-cases (first.type == handshake_type_certificate)) [
          | inr other ↦ absurd (ground arith)
          | inl certificate ↦
              let (f, split, h2) =
                >>=-eq-ok (split_flight first rest) _ (rw (full, certificate) at h1) in
              let (x, checked, h3) = >>=-eq-ok (check_flight prim keys req policy part f) _ h2 in
              let same : x ≡ a = ground arith in
              (
                f,
                subst (λ y. IsLaidOut y f) (sym whole)
                    (split_flight_sound first rest f front back split),
                subst (λ y. IsProven prim keys req policy part f y) same
                    (flight_sound prim keys req policy part f x checked),
              )
        ]
      ]

  attestation_sound :
      (st : ConnectionState) (att : VerificationPolicy) (a : Accepted C)
      (o : Option VerifiedPayload)
      → check_attestation prim st att a ≡ ok o
      → AttestationHolds prim st att a
  unfolding check_attestation
  attestation_sound st att a o h = elim (Option-cases a.evidence) [
    | inl missing ↦ record {
      required = λ r n. ground arith;
      verified = λ e there. absurd (ground arith);
    }
    | inr (e, there) ↦
        let h1 = rw (there, check_attestation) at h in
        let m = parse_payload prim.decode_payload e >>= λ p.
        verify_payload prim.hashes st exporter_label_attestation a.context (some (prim.leaf a.leaf))
          p att in
        elim (Result-cases m) [
          | inr (x, bad) ↦ absurd (ground arith)
          | inl (v, good) ↦
              let (p, parsed, verified) = >>=-eq-ok (parse_payload prim.decode_payload e) _ good in
              let holds =
                payload_sound prim.hashes st exporter_label_attestation a.context
                  (some (prim.leaf a.leaf)) p att v verified in
              record {
                required = λ r n. ground arith;
                verified = λ d there'. (
                  p,
                  subst (λ y. parse_payload prim.decode_payload y ≡ ok p) (ground arith) parsed,
                  holds,
                );
              }
        ]
  ]

  check_all_parts :
      (st : ConnectionState) (role : Role) (req : Option AuthenticatorRequest)
      (policy : Option SpontaneousAuthenticatorPolicy) (b context : Bytes) (a : Accepted C)
      → check_all prim st role req policy b ≡ ok (context, some a)
      → (keys : AuthenticatorKeys) × (part : RequestPart) × (st.version ≡ version_tls13)
        × (export_keys st role ≡ ok keys)
        × (validate_part prim req ≡ ok part)
        × (check_authenticator prim keys req policy part b ≡ ok (some a))
  unfolding check_all
  check_all_parts st role req policy b context a h =
      let (tls13, rest) = guard_passed (st.version == version_tls13) not_tls13 _ h in
      let (keys, exported, h1) = >>=-eq-ok (export_keys st role) _ rest in
      let (part, requested, h2) = >>=-eq-ok (validate_part prim req) _ h1 in
      let (x, checked, h3) = >>=-eq-ok (check_authenticator prim keys req policy part b) _ h2 in
      (keys, part, ground arith, exported, requested, checked ∙ ground arith)

  finish_sound :
      (w w' : Shared C) (st : ConnectionState) (att : VerificationPolicy) (a : Accepted C)
      (v : ValidationResult C)
      → finish_full prim w st att a ≡ (w', ok v)
      → (verify_chain prim w.options a ≡ (w'.options, none))
        × (mark_context_used w.session a.context ≡ (w'.session, none))
        × AttestationHolds prim st att a
        × (v.chain ≡ a.leaf ∷ a.intermediates)
        × (v.context ≡ a.context)
  unfolding finish_full accepted_result
  finish_sound w w' st att a v h = elim (Option-cases (verify_chain prim w.options a).1) [
    | inr (e, bad) ↦ absurd (ground arith)
    | inl good ↦
        let h1 = rw (good, finish_full) at h in
        let (u, unused, h2) =
          >>=-eq-ok (fail_with (mark_context_used w.session a.context).1) _
            (ap (λ (y : Shared C × Result EaErr (ValidationResult C)). y.1) h1) in
        let (o, attested, h3) = >>=-eq-ok (check_attestation prim st att a) _ h2 in
        let fresh = fail_with_ok _ u unused in
        (
          ground arith,
          ground arith,
          attestation_sound st att a o attested,
          ground arith,
          ground arith,
        )
  ]

  -- Where bytes are accepted and not as an empty authenticator, the session is TLS 1.3 and they
  -- are three messages as their writers write them, proven as `IsProven` says by the keys of the
  -- session and the request; the chain verifies with the caller's pool, the context was fresh in
  -- the session, and the attestation holds. The result has the chain and the context of these.
  pub fully_accepted :
      (w w' : Shared C) (st : ConnectionState) (role : Role) (req : Option AuthenticatorRequest)
      (policy : Option SpontaneousAuthenticatorPolicy) (att : VerificationPolicy)
      (auth_bytes : Bytes) (v : ValidationResult C)
      → AreBytes auth_bytes
      → validate_authenticator prim w st role req policy att auth_bytes ≡ (w', ok v)
      → v.empty ≡ false
      → FullyAccepted prim w w' st role req policy att auth_bytes v
  unfolding validate_authenticator finish_empty
  fully_accepted w w' st role req policy att b v bytes h full =
      elim (Result-cases (check_all prim st role req policy b)) [
        | inr (e, bad) ↦ absurd (ground arith)
        | inl ((context, none), empty) ↦ absurd (ground arith)
        | inl ((context, some a), checked) ↦
            let (chain, fresh, attested, kept, same) =
              finish_sound w w' st att a v (rw (checked, validate_authenticator) at h) in
            let (keys, part, tls13, exported, requested, found) =
              check_all_parts st role req policy b context a checked in
            let (f, laid_out, proven) = authenticator_sound keys req policy part b a bytes found in
            record {
              tls13 = tls13;
              keys = keys;
              exported = exported;
              part = part;
              requested = requested;
              flight = f;
              laid_out = laid_out;
              accepted = a;
              proven = proven;
              chain_verified = chain;
              context_fresh = fresh;
              attested = attested;
              chain = kept;
              context = same;
            }
      ]
