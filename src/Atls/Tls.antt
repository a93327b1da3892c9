-- ===== src/Atls/Tls.antt =====
-- What pkg/atls uses of an accepted TLS connection and of hash functions, which are parameters.
-- An exporter takes `nil` and an empty context alike, as in TLS 1.3.
use session_bound_agent_iden.Common.{ℕ, Option, none, some, if◌then◌else◌, ◌==◌, ◌||◌, Result}
use session_bound_agent_iden.GoString.{Bytes}

-- An error of another package, by its text.
abbrev pub Foreign : Type 0
Foreign = Bytes

pub record ConnectionState : Type 0 where
  pub version : ℕ
  pub cipher_suite : ℕ
  pub export_keying_material : Bytes → Bytes → ℕ → Result Foreign Bytes

pub data HashAlg : Type 0 where
  sha256 sha384 : HashAlg

abbrev pub hash_size : HashAlg → ℕ
hash_size sha256 = 32
hash_size sha384 = 48

pub record Hashes : Type 0 where
  pub sum : HashAlg → Bytes → Bytes
  pub sum512 : Bytes → Bytes
  pub hmac : HashAlg → Bytes → Bytes → Bytes

abbrev pub version_tls13 : ℕ
version_tls13 = 0x0304

-- `AuthenticatorHashTLS13`; the suites are TLS_AES_128_GCM_SHA256, TLS_CHACHA20_POLY1305_SHA256
-- and TLS_AES_256_GCM_SHA384.
unfoldable pub authenticator_hash : ℕ → Option HashAlg
authenticator_hash suite =
    if suite == 0x1301 || suite == 0x1303
    then some sha256
    else if suite == 0x1302
    then some sha384
    else none
