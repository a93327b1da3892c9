-- ===== src/Atls/Ea/Signatures.antt =====
-- pkg/atls/ea/sigscheme.go, and signCertVerify and verifyCertVerify of certverify.go. Keys,
-- certificates and the signature algorithms themselves are parameters.
pub mod Choice
use session_bound_agent_iden.Common.{
  ℕ, ◌+◌, Option, none, some, List, [], ◌∷◌, ◌++◌, Bool, true, false, not, ◌||◌, ◌&&◌,
  if◌then◌else◌, ◌==◌, is_nil, Result, ok, err, ◌>>=◌,
}
use session_bound_agent_iden.GoString.{Bytes, bytes}
use session_bound_agent_iden.Atls.Tls.{HashAlg, sha256, Hashes}
use session_bound_agent_iden.Atls.Attestation.{Leaf, Payload}
use session_bound_agent_iden.Atls.Ea.Wire.{EaErr, unsupported_signature_scheme, signature_mismatch}

pub data SigAlg : Type 0 where
  ecdsa rsa_pss ed25519 : SigAlg

-- The dynamic type of a key; the Boolean says whether the curve is P-256.
pub data KeyKind : Type 0 where
  ecdsa_key : Bool → KeyKind
  rsa_key ed25519_key other_key : KeyKind

-- What the package calls of crypto/*, x509 and encoding/json, over types of private keys, public
-- keys and certificates. A signature is made of the bytes that the algorithm takes.
pub record Primitives (K P C : Type 0) : Type 0 where
  pub hashes : Hashes
  pub private_kind : K → KeyKind
  pub public_kind : P → KeyKind
  pub sign : SigAlg → K → Bytes → Result EaErr Bytes
  pub verify : SigAlg → P → Bytes → Bytes → Bool
  pub random : ℕ → Result EaErr Bytes
  pub parse_certificate : Bytes → Result EaErr C
  pub public_key : C → P
  pub leaf : C → Leaf
  pub decode_payload : Bytes → Option Payload

abbrev pub scheme_ecdsa_p256 : ℕ
scheme_ecdsa_p256 = 0x0403

abbrev pub scheme_pss : ℕ
scheme_pss = 0x0804

abbrev pub scheme_ed25519 : ℕ
scheme_ed25519 = 0x0807

-- The algorithm of a scheme; its hash is SHA-256, or none for Ed25519.
unfoldable pub signature_scheme_info : ℕ → Option SigAlg
signature_scheme_info s =
    if s == scheme_ecdsa_p256
    then some ecdsa
    else if s == scheme_pss
    then some rsa_pss
    else if s == scheme_ed25519
    then some ed25519
    else none

-- Whether a key of a kind may be chosen for an algorithm.
pub is_compatible : Option SigAlg → KeyKind → Bool
is_compatible (some ecdsa) (ecdsa_key p256) = p256
is_compatible (some rsa_pss) rsa_key = true
is_compatible (some ed25519) ed25519_key = true
is_compatible alg kind = false

pub first_compatible : KeyKind → List ℕ → Result EaErr ℕ
unfolding is_compatible signature_scheme_info
first_compatible kind [] = err unsupported_signature_scheme
first_compatible kind (s ∷ ss) =
    let rest = first_compatible kind ss in
    if is_compatible (signature_scheme_info s) kind then ok s else rest

-- The scheme of a key where none is offered.
pub default_scheme : KeyKind → Result EaErr ℕ
default_scheme (ecdsa_key true) = ok scheme_ecdsa_p256
default_scheme rsa_key = ok scheme_pss
default_scheme ed25519_key = ok scheme_ed25519
default_scheme kind = err unsupported_signature_scheme

unfoldable pub choose_signature_scheme : KeyKind → List ℕ → Result EaErr ℕ
unfolding first_compatible default_scheme
choose_signature_scheme kind offered =
    if is_nil offered then default_scheme kind else first_compatible kind offered

abbrev spaces_8 : Bytes
spaces_8 = 32 ∷ 32 ∷ 32 ∷ 32 ∷ 32 ∷ 32 ∷ 32 ∷ 32 ∷ []

abbrev spaces_64 : Bytes
spaces_64 =
    spaces_8
    ++ (spaces_8 ++ (spaces_8 ++ (spaces_8 ++ (spaces_8 ++ (spaces_8 ++ (spaces_8 ++ spaces_8))))))

pub build_cert_verify_input : Bytes → Bytes
build_cert_verify_input transcript_hash =
    spaces_64 ++ (bytes "Exported Authenticator" ++ (0 ∷ transcript_hash))

-- What is signed: the message for Ed25519, its hash for the others.
pub signed_bytes : Hashes → SigAlg → Bytes → Bytes
signed_bytes hs ed25519 msg = msg
signed_bytes hs alg msg = hs.sum sha256 msg

-- The type switch on a key; the curve is not looked at here.
pub is_key_of : SigAlg → KeyKind → Bool
is_key_of ecdsa (ecdsa_key p256) = true
is_key_of rsa_pss rsa_key = true
is_key_of ed25519 ed25519_key = true
is_key_of alg kind = false

module _ {K P C : Type 0} (prim : Primitives K P C) where
  unfoldable pub sign_cert_verify : K → ℕ → Bytes → Result EaErr Bytes
  unfolding signature_scheme_info is_key_of signed_bytes build_cert_verify_input
  sign_cert_verify key scheme transcript_hash = elim (signature_scheme_info scheme) [
    | none ↦ err unsupported_signature_scheme
    | some alg ↦
        if not (is_key_of alg (prim.private_kind key))
        then err unsupported_signature_scheme
        else prim.sign alg key
            (signed_bytes prim.hashes alg (build_cert_verify_input transcript_hash))
  ]

  unfoldable pub verify_cert_verify : P → ℕ → Bytes → Bytes → Option EaErr
  unfolding signature_scheme_info is_key_of signed_bytes build_cert_verify_input
  verify_cert_verify key scheme transcript_hash signature = elim (signature_scheme_info scheme) [
    | none ↦ some unsupported_signature_scheme
    | some alg ↦
        if not (is_key_of alg (prim.public_kind key))
        then some unsupported_signature_scheme
        else if not (
            prim.verify alg key
              (signed_bytes prim.hashes alg (build_cert_verify_input transcript_hash)) signature)
        then some signature_mismatch
        else none
  ]
