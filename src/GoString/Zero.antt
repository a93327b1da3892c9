-- ===== src/GoString/Zero.antt =====
-- A string whose runes are not control characters holds no NUL byte, so that NUL separates fields.
use session_bound_agent_iden.Common.{
  ℕ, zero, suc, ◌-◌, ◌≡◌, refl, ◌≢◌, ◌⊎◌, inl, inr, Bool, true, false, [], ◌∷◌, ◌++◌, arith, All,
  any, take, or_parts,
}
use session_bound_agent_iden.GoString.{
  Bytes, Rune, decode_rune, runes_from, is_control, decode_two, decode_three, decode_four,
}

-- No byte is 0.
abbrev pub NoZero : Bytes → Type 0
NoZero s = All (λ b. b ≢ 0) s

decode_two_covers : (b : ℕ) (rest : Bytes) → NoZero (take ((decode_two b rest).width - 1) rest)
unfolding decode_two
decode_two_covers b [] = tt
decode_two_covers b (c ∷ rest) = ground arith

decode_three_covers : (b : ℕ) (rest : Bytes) → NoZero (take ((decode_three b rest).width - 1) rest)
unfolding decode_three
decode_three_covers b [] = tt
decode_three_covers b (c ∷ []) = ground arith
decode_three_covers b (c ∷ d ∷ rest) = ground arith

decode_four_covers : (b : ℕ) (rest : Bytes) → NoZero (take ((decode_four b rest).width - 1) rest)
unfolding decode_four
decode_four_covers b [] = tt
decode_four_covers b (c ∷ []) = ground arith
decode_four_covers b (c ∷ d ∷ []) = ground arith
decode_four_covers b (c ∷ d ∷ e ∷ rest) = ground arith

-- The bytes that a rune covers after its first.
abbrev Covers : Rune → Bytes → Type 0
Covers r rest = NoZero (take (r.width - 1) rest)

decode_rune-cases :
    (b : ℕ) (rest : Bytes)
    → ((decode_rune b rest).width ≡ 1)
      ⊎ (decode_rune b rest ≡ decode_two b rest)
      ⊎ (decode_rune b rest ≡ decode_three b rest)
      ⊎ (decode_rune b rest ≡ decode_four b rest)
unfolding decode_rune
decode_rune-cases b rest = ground arith

-- The bytes that a rune covers after its first are not 0.
decode_rune-Covers : (b : ℕ) (rest : Bytes) → Covers (decode_rune b rest) rest
decode_rune-Covers b rest = elim (decode_rune-cases b rest) [
  | inl one ↦ rw one tt
  | inr (inl e) ↦ rw e (decode_two_covers b rest)
  | inr (inr (inl e)) ↦ rw e (decode_three_covers b rest)
  | inr (inr (inr e)) ↦ rw e (decode_four_covers b rest)
]

decode_zero : (rest : Bytes) → decode_rune 0 rest ≡ record { point = 0; width = 1 }
unfolding decode_rune
decode_zero rest = refl

nul_is_control : is_control 0 ≡ true
unfolding is_control
nul_is_control = refl

pub runes_from-NoZero :
    (p : Rune → Bool) (skip : ℕ) (s : Bytes)
    → ((r : Rune) → is_control r.point ≡ true → p r ≡ true)
    → NoZero (take skip s)
    → any p (runes_from skip s) ≡ false
    → NoZero s
unfolding runes_from
runes_from-NoZero p skip [] c h a = tt
runes_from-NoZero p (suc skip) (b ∷ s) c (n, h) a = (n, runes_from-NoZero p skip s c h a)
runes_from-NoZero p zero (b ∷ s) c h a =
    let (here, later) = or_parts (p (decode_rune b s)) _ a in
    (
      λ e.
          let nul : decode_rune b s ≡ record { point = 0; width = 1 } = rw e (decode_zero s) in
          let found = c (decode_rune b s) (rw nul nul_is_control) in cc (found, here),
      runes_from-NoZero p ((decode_rune b s).width - 1) s c (decode_rune-Covers b s) later,
    )

-- Where a NUL follows two strings that hold none, they are equal, and so is what follows.
pub split_at_zero :
    (xs ys us vs : Bytes)
    → NoZero xs
    → NoZero ys
    → xs ++ (0 ∷ us) ≡ ys ++ (0 ∷ vs)
    → (xs ≡ ys) × (us ≡ vs)
split_at_zero [] [] us vs h k e = ground arith
split_at_zero [] (y ∷ ys) us vs h (n, k) e = absurd (ground arith)
split_at_zero (x ∷ xs) [] us vs (n, h) k e = absurd (ground arith)
split_at_zero (x ∷ xs) (y ∷ ys) us vs (n, h) (m, k) e =
    let (same, rest) = split_at_zero xs ys us vs h k (ground arith) in ground arith
