-- ===== src/Atls/Ea/Transcript.antt =====
-- pkg/atls/ea/exporters.go and util.go: the keys that an authenticator takes from the TLS session,
-- and the hash and the MAC over its transcript.
use session_bound_agent_iden.Common.{
  none, some, List, [], ◌∷◌, ◌++◌, not, if◌then◌else◌, ◌==◌, Result, ok, err, ◌>>=◌,
}
use session_bound_agent_iden.GoString.{Bytes, bytes}
use session_bound_agent_iden.Atls.Tls.{
  ConnectionState, HashAlg, hash_size, Hashes, version_tls13, authenticator_hash,
}
use session_bound_agent_iden.Atls.Ea.Wire.{EaErr, not_tls13, unknown_cipher_suite, foreign}

pub data Role : Type 0 where
  client server : Role

abbrev pub handshake_context_label : Role → Bytes
handshake_context_label client = bytes "EXPORTER-client authenticator handshake context"
handshake_context_label server = bytes "EXPORTER-server authenticator handshake context"

abbrev pub finished_key_label : Role → Bytes
finished_key_label client = bytes "EXPORTER-client authenticator finished key"
finished_key_label server = bytes "EXPORTER-server authenticator finished key"

-- `ExportHandshakeContext` and `ExportFinishedKey`, which differ in the label.
unfoldable pub export_key : ConnectionState → Bytes → Result EaErr (Bytes × HashAlg)
unfolding authenticator_hash
export_key st label =
    if not (st.version == version_tls13)
    then err not_tls13
    else elim (authenticator_hash st.cipher_suite) [
      | none ↦ err unknown_cipher_suite
      | some h ↦ elim (st.export_keying_material label [] (hash_size h)) [
        | ok out ↦ ok (out, h)
        | err e ↦ err (foreign e)
      ]
    ]

-- The keys of one side of one session.
pub record AuthenticatorKeys : Type 0 where
  pub context : Bytes
  pub hash : HashAlg
  pub finished_key : Bytes

unfoldable pub export_keys : ConnectionState → Role → Result EaErr AuthenticatorKeys
unfolding export_key
export_keys st role = export_key st (handshake_context_label role) >>= λ (context, h).
    export_key st (finished_key_label role) >>= λ (key, _).
    ok (record { context = context; hash = h; finished_key = key })

-- The chunks of a hash, the empty ones skipped.
pub concat_chunks : List Bytes → Bytes
concat_chunks [] = []
concat_chunks (c ∷ cs) = c ++ concat_chunks cs

unfoldable pub hash_concat : Hashes → HashAlg → List Bytes → Bytes
unfolding concat_chunks
hash_concat hs h chunks = hs.sum h (concat_chunks chunks)

unfoldable pub finished_mac : Hashes → AuthenticatorKeys → List Bytes → Bytes
unfolding hash_concat
finished_mac hs keys chunks = hs.hmac keys.hash keys.finished_key (hash_concat hs keys.hash chunks)
