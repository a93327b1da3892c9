-- ===== src/Atls/Provider.antt =====
-- pkg/atls/provider.go: the attestation that a server puts beside its leaf certificate. The client
-- of the attestation service and the JSON encoder are parameters.
pub mod Accepted
pub mod Tests
use session_bound_agent_iden.Common.{
  pos, Option, map_err, some, ℕ, List, [], ◌∷◌, Result, ok, err, ◌>>=◌,
}
use session_bound_agent_iden.GoString.{Bytes, bytes}
use session_bound_agent_iden.Atls.Tls.{ConnectionState, Foreign, Hashes, sha256}
use session_bound_agent_iden.Atls.Attestation.{
  Payload, AttestationBinder, Leaf, SessionValues, compute_binding, marshal_payload,
  exporter_label_attestation,
}
use session_bound_agent_iden.Atls.Ea.Extensions.{Extension, cmw_attestation_data_extension}
use session_bound_agent_iden.Atls.Ea.Request.{AuthenticatorRequest}
use session_bound_agent_iden.Atls.Transport.{
  missing_state, attestation_error, ea_error, TransportErr, foreign,
}

-- `GetAttestation` of the platform's report data and nonce.
abbrev pub AttestationClient : Type 0
AttestationClient = Bytes → Bytes → Result Foreign Bytes

abbrev pub provided_payload : SessionValues → Bytes → Payload
provided_payload v evidence = record {
  version = pos 1;
  media_type = bytes "application/eat+cwt";
  evidence = evidence;
  attestation_results = [];
  binder = record {
    exporter_label = exporter_label_attestation;
    aik_pub_hash = v.aik_pub_hash;
    binding = v.binding;
  };
}

-- `provider.BuildLeafExtensions`, whose arguments may be nil.
unfoldable pub build_leaf_extensions :
    Hashes
    → (Payload → Result Foreign Bytes)
    → AttestationClient
    → Option ConnectionState
    → Option AuthenticatorRequest
    → Option Leaf
    → Result TransportErr (List Extension)
build_leaf_extensions hs encode get_attestation (some st) (some req) (some leaf) =
    map_err attestation_error
      (compute_binding hs st exporter_label_attestation req.context (some leaf))
    >>= λ v.
        map_err foreign (get_attestation (hs.sum512 v.binding) (hs.sum sha256 v.exported_value))
        >>= λ evidence.
            map_err attestation_error (marshal_payload encode (provided_payload v evidence))
            >>= λ raw.
                map_err ea_error (cmw_attestation_data_extension raw) >>= λ ext. ok (ext ∷ [])
build_leaf_extensions hs encode get_attestation st req leaf = err missing_state
