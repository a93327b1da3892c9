-- ===== src/Atls/Ea/Request/Schemes.antt =====
-- Lists of signature schemes and of certificate authorities in the extensions of a request.
use session_bound_agent_iden.Common.{
  ℕ, ◌*◌, ◌%◌, ◌≤◌, ◌<◌, some, List, [], ◌∷◌, ◌++◌, ◌≡◌, refl, All, length, not, ◌||◌, true, false,
  Bool-cases, inl, inr, ok, arith, ltb, ◌==◌,
}
use session_bound_agent_iden.GoString.{Bytes}
use session_bound_agent_iden.Atls.Ea.Wire.{put_uint16, read_uint16}
use session_bound_agent_iden.Atls.Ea.Wire.Numbers.{
  AreBytes, AreBytes-drop, take-append, drop-append, length-append, length-take, length-drop,
  take-drop, read-put_uint16, put-read_uint16,
}
use session_bound_agent_iden.Atls.Ea.Wire.Loop.{Shortens, Reads, Rewrites}
use session_bound_agent_iden.Atls.Ea.Extensions.{Extension}
use session_bound_agent_iden.Atls.Ea.Request.{
  read_schemes, put_schemes, schemes_of_payload, marshal_signature_schemes, parse_signature_schemes,
  first_payload, get_authority,
}

read-put_schemes : (ss : List ℕ) → All (λ s. s < 65536) ss → read_schemes (put_schemes ss) ≡ ss
unfolding read_schemes put_schemes
read-put_schemes [] h = refl
read-put_schemes (s ∷ ss) h = ground (arith, read-put_uint16 s, read-put_schemes ss)

length-put_schemes : (ss : List ℕ) → length (put_schemes ss) ≡ 2 * length ss
unfolding put_schemes
length-put_schemes [] = refl
length-put_schemes (s ∷ ss) = omega (arith, length-put_schemes ss)

schemes_of_put :
    (ss : List ℕ)
    → All (λ s. s < 65536) ss
    → 0 < length ss
    → length ss ≤ 0x7fff
    → schemes_of_payload (put_uint16 (2 * length ss) ++ put_schemes ss) ≡ some ss
unfolding schemes_of_payload
schemes_of_put ss small some_given few =
    let n = 2 * length ss in
    let counted : (ltb n 2 || not (n % 2 == 0) || not (length (put_schemes ss) == n)) ≡ false =
      ground (arith, length-put_schemes ss) in
    rw (read-put_uint16 (2 * length ss) (omega arith), counted, read-put_schemes ss small) refl

marshal_schemes_parts :
    (type : ℕ) (schemes : List ℕ) (e : Extension)
    → marshal_signature_schemes type schemes ≡ ok e
    → (0 < length schemes)
      × (length schemes ≤ 0x7fff)
      × (e.type ≡ type)
      × (e.payload ≡ put_uint16 (2 * length schemes) ++ put_schemes schemes)
unfolding marshal_signature_schemes
marshal_schemes_parts type schemes e h = elim (Bool-cases (length schemes == 0)) [
  | inl none_given ↦ absurd (ground arith)
  | inr some_given ↦ elim (Bool-cases (ltb 0x7fff (length schemes))) [
    | inl long ↦ absurd (ground arith)
    | inr few ↦ (ground arith, ground arith, ground arith, ground arith)
  ]
]

-- The schemes of a written extension are read back from a list of extensions that it heads.
pub parse-marshal_schemes :
    (type : ℕ) (schemes : List ℕ) (e : Extension) (es : List Extension)
    → All (λ s. s < 65536) schemes
    → marshal_signature_schemes type schemes ≡ ok e
    → parse_signature_schemes (e ∷ es) type ≡ some schemes
unfolding parse_signature_schemes first_payload
parse-marshal_schemes type schemes e es small h =
    let (some_given, few, typed, written) = marshal_schemes_parts type schemes e h in
    let same : (e.type == type) ≡ true = ground arith in
    rw (same, written) (schemes_of_put schemes small some_given few)

put-read_schemes :
    (b : Bytes)
    → AreBytes b
    → length b % 2 ≡ 0
    → (put_schemes (read_schemes b) ≡ b) × (2 * length (read_schemes b) ≡ length b)
unfolding read_schemes put_schemes
put-read_schemes [] h even = (refl, refl)
put-read_schemes (x ∷ []) h even = absurd (omega arith)
put-read_schemes (x ∷ y ∷ b) h even = ground (arith, put-read_uint16 x y, put-read_schemes b)

put_authority : Bytes → Bytes
put_authority name = put_uint16 (length name) ++ name

IsAuthority : Bytes → Type 0
IsAuthority name = (0 < length name) × (length name < 65536)

get_authority-Shortens : Shortens get_authority
unfolding get_authority
get_authority-Shortens (a ∷ b ∷ rest) x r h = ground (arith, length-drop (read_uint16 a b) rest)
get_authority-Shortens _ x r h = ground arith

get_authority-Reads : (name : Bytes) → IsAuthority name → Reads get_authority put_authority name
unfolding get_authority put_authority IsAuthority
get_authority-Reads name h rest = ground (
  arith,
  length-append name rest,
  take-append name rest,
  drop-append name rest,
  read-put_uint16 (length name),
)

get_authority-Rewrites : Rewrites get_authority put_authority IsAuthority
unfolding get_authority put_authority IsAuthority
get_authority-Rewrites (a ∷ b ∷ rest) x r h e = ground (
  arith,
  take-drop (read_uint16 a b) rest,
  length-take (read_uint16 a b) rest,
  put-read_uint16 a b,
  AreBytes-drop (read_uint16 a b) rest,
)
get_authority-Rewrites _ x r h e = ground arith
