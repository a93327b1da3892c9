-- ===== src/Atls/Transport/Identity.antt =====
-- The binding that the identity policy expects of an accepted session: `ExpectedIdentityBinding` of
-- pkg/atls/internal_transport/conn.go, and pkg/atls/identity_binding.go.
use session_bound_agent_iden.Common.{
  map_err, ℕ, ◌+◌, ◌/◌, ◌%◌, ◌==◌, Option, none, some, [], ◌∷◌, Bool, not, if◌then◌else◌, ltb,
  is_nil, Result, ok, err, ◌>>=◌,
}
use session_bound_agent_iden.GoString.{Bytes}
use session_bound_agent_iden.Atls.Tls.{ConnectionState, sha256, Hashes, version_tls13}
use session_bound_agent_iden.Atls.Attestation.{
  VerifiedPayload, public_key_bytes, export_attestation_value, exporter_label_attestation,
}
use session_bound_agent_iden.Atls.Ea.Signatures.{Primitives}
use session_bound_agent_iden.Atls.Ea.Validate.{ValidationResult}
use session_bound_agent_iden.IdentityPolicy.Values.{Binding}
use session_bound_agent_iden.Atls.Transport.{
  TransportErr, missing_leaf, missing_context, handshake_incomplete, expected_tls13,
  attestation_error,
}

abbrev pub hex_digit : ℕ → ℕ
hex_digit n = if ltb n 10 then 48 + n else 87 + n

-- `hex.EncodeToString`
pub hex : Bytes → Bytes
hex [] = []
hex (x ∷ xs) = hex_digit (x / 16) ∷ hex_digit (x % 16) ∷ hex xs

-- The hash of a value as the identity policy writes it.
pub hex_hash : Hashes → Bytes → Bytes
unfolding hex
hex_hash hs b = hex (hs.sum sha256 b)

-- What a verified attestation adds to the binding.
pub attested_binding : Hashes → Option VerifiedPayload → Binding → Binding
unfolding hex_hash
attested_binding hs none b = b
attested_binding hs (some v) b = if not v.binding_verified then b else record b {
  tls_exporter_sha256 =
      if is_nil v.binding.exported_value
      then b.tls_exporter_sha256
      else hex_hash hs v.binding.exported_value;
  attestation_binder_sha256 = hex_hash hs v.payload.binder.binding;
}

module _ {K P C : Type 0} (prim : Primitives K P C) where
  unfoldable pub expected_identity_binding : ValidationResult C → Result TransportErr Binding
  unfolding hex_hash attested_binding
  expected_identity_binding v = elim v.chain [
    | [] ↦ err missing_leaf
    | leaf ∷ others ↦
        if is_nil v.context
        then err missing_context
        else (map_err attestation_error (public_key_bytes (some (prim.leaf leaf))) >>= λ pub_key.
            ok (
              attested_binding prim.hashes v.attestation (record {
                leaf_public_key_sha256 = hex_hash prim.hashes pub_key;
                tls_exporter_sha256 = [];
                request_context_sha256 = hex_hash prim.hashes v.context;
                attestation_binder_sha256 = [];
                nonce = [];
                issued_at = 0;
                expires_at = 0;
              })))
  ]

  -- `IdentityBindingFromConnectionState`; the flag is `HandshakeComplete`.
  unfoldable pub identity_binding_from_state :
      Bool → ConnectionState → ValidationResult C → Result TransportErr Binding
  unfolding expected_identity_binding
  identity_binding_from_state complete st v =
      if not complete
      then err handshake_incomplete
      else if not (st.version == version_tls13)
      then err expected_tls13
      else (expected_identity_binding v >>= λ b.
          map_err attestation_error
            (export_attestation_value st exporter_label_attestation v.context)
          >>= λ (exported, h).
              ok (record b { tls_exporter_sha256 = hex_hash prim.hashes exported }))
