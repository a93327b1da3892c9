-- ===== src/Atls/Ea/Wire/Numbers.antt =====
-- Bytes, numbers of two and three bytes, and slices of a byte string.
use session_bound_agent_iden.Common.{
  ℕ, zero, suc, ◌+◌, ◌-◌, ◌≤◌, ◌<◌, ◌/◌, ◌%◌, List, [], ◌∷◌, ◌++◌, ◌≡◌, refl, ap, All, length, take,
  drop, arith,
}
use session_bound_agent_iden.GoString.{Bytes}
use session_bound_agent_iden.Atls.Ea.Wire.{put_uint16, put_uint24, read_uint16, read_uint24}

-- Every member is a byte.
abbrev pub AreBytes : Bytes → Type 0
AreBytes b = All (λ x. x < 256) b

pub length-append {ℓ} : {A : Type ℓ} (xs ys : List A) → length (xs ++ ys) ≡ length xs + length ys
length-append [] ys = omega arith
length-append (x ∷ xs) ys = omega (arith, length-append xs ys)

pub take-append {ℓ} : {A : Type ℓ} (xs ys : List A) → take (length xs) (xs ++ ys) ≡ xs
take-append [] ys = refl
take-append (x ∷ xs) ys = ap (λ r. x ∷ r) (take-append xs ys)

pub drop-append {ℓ} : {A : Type ℓ} (xs ys : List A) → drop (length xs) (xs ++ ys) ≡ ys
drop-append [] ys = refl
drop-append (x ∷ xs) ys = drop-append xs ys

pub take-drop {ℓ} : {A : Type ℓ} (n : ℕ) (xs : List A) → take n xs ++ drop n xs ≡ xs
take-drop zero xs = refl
take-drop (suc n) [] = refl
take-drop (suc n) (x ∷ xs) = ap (λ r. x ∷ r) (take-drop n xs)

pub length-take {ℓ} : {A : Type ℓ} (n : ℕ) (xs : List A) → n ≤ length xs → length (take n xs) ≡ n
length-take zero xs h = refl
length-take (suc n) [] h = absurd (omega arith)
length-take (suc n) (x ∷ xs) h = omega (arith, length-take n xs)

pub length-drop {ℓ} : {A : Type ℓ} (n : ℕ) (xs : List A) → length (drop n xs) ≡ length xs - n
length-drop zero xs = omega arith
length-drop (suc n) [] = omega arith
length-drop (suc n) (x ∷ xs) = omega (arith, length-drop n xs)

pub AreBytes-take : (n : ℕ) (b : Bytes) → AreBytes b → AreBytes (take n b)
AreBytes-take zero b h = tt
AreBytes-take (suc n) [] h = tt
AreBytes-take (suc n) (x ∷ b) h = (h.0, AreBytes-take n b h.1)

pub AreBytes-drop : (n : ℕ) (b : Bytes) → AreBytes b → AreBytes (drop n b)
AreBytes-drop zero b h = h
AreBytes-drop (suc n) [] h = tt
AreBytes-drop (suc n) (x ∷ b) h = AreBytes-drop n b h.1

pub AreBytes-append : (b c : Bytes) → AreBytes b → AreBytes c → AreBytes (b ++ c)
AreBytes-append [] c h k = k
AreBytes-append (x ∷ b) c h k = (h.0, AreBytes-append b c h.1 k)

pub put-read_uint16 : (a b : ℕ) → a < 256 → b < 256 → put_uint16 (read_uint16 a b) ≡ a ∷ b ∷ []
put-read_uint16 a b ha hb = ground arith

pub put-read_uint24 :
    (a b c : ℕ) → a < 256 → b < 256 → c < 256 → put_uint24 (read_uint24 a b c) ≡ a ∷ b ∷ c ∷ []
put-read_uint24 a b c ha hb hc = ground arith

pub read-put_uint16 : (v : ℕ) → v < 65536 → read_uint16 (v / 256 % 256) (v % 256) ≡ v
read-put_uint16 v h = omega arith

pub read-put_uint24 :
    (v : ℕ) → v < 16777216 → read_uint24 (v / 65536 % 256) (v / 256 % 256) (v % 256) ≡ v
read-put_uint24 v h = omega arith

pub AreBytes-parts : (b c : Bytes) → AreBytes (b ++ c) → AreBytes b × AreBytes c
AreBytes-parts [] c h = (tt, h)
AreBytes-parts (x ∷ b) c h = let (l, r) = AreBytes-parts b c h.1 in ((h.0, l), r)
