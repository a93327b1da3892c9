-- ===== src/Atls/Attestation/Codec.antt =====
-- A payload that was encoded is parsed again.
use session_bound_agent_iden.Common.{
  refl, pos, negsuc, ℤ, Option, some, [], ◌≡◌, ◌≢◌, Result, Result-cases, ok, inl, inr, >>=-eq-ok,
  arith,
}
use session_bound_agent_iden.GoString.{Bytes}
use session_bound_agent_iden.Atls.Tls.{Foreign}
use session_bound_agent_iden.Atls.Attestation.{
  default_version, Payload, validate_payload, marshal_payload, parse_payload,
}
use session_bound_agent_iden.Atls.Attestation.Accept.{IsComplete, validate_payload_iff}

default_version_given : (n : ℤ) → n ≢ pos 0 → default_version n ≡ n
default_version_given (pos n) given = ground arith
default_version_given (negsuc n) given = refl

module _ (encode : Payload → Result Foreign Bytes) (p : Payload) where
  pub marshal_payload_sound :
      (raw : Bytes)
      → p.version ≢ pos 0
      → marshal_payload encode p ≡ ok raw
      → (encode p ≡ ok raw) × IsComplete p
  unfolding marshal_payload
  marshal_payload_sound raw given h =
      let (u, valid, h1) = >>=-eq-ok (validate_payload p) _ h in
      let h2 = rw (default_version_given p.version given) at h1 in
      elim (Result-cases (encode p)) [
        | inl (b, written) ↦
            let h3 = rw written at h2 in (ground arith, (validate_payload_iff p).0 valid)
        | inr (e, failed) ↦ let h3 = rw failed at h2 in absurd (ground arith)
      ]

  pub parse-marshal_payload :
      (decode : Bytes → Option Payload) (raw : Bytes)
      → decode raw ≡ some p
      → raw ≢ []
      → IsComplete p
      → parse_payload decode raw ≡ ok p
  unfolding parse_payload
  parse-marshal_payload decode raw read given c =
      rw (read, (validate_payload_iff p).1 c) (ground arith)
