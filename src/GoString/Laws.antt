-- ===== src/GoString/Laws.antt =====
-- Equality of strings is decided by the byte comparison, and facts about blank strings.
use session_bound_agent_iden.Common.{◌≡◌, refl, ◌↔◌, true, false, [], ◌∷◌, arith}
use session_bound_agent_iden.GoString.{Bytes, bytes, bytes_eq, is_blank, trim_space, valid_string}

pub bytes_eq_refl : (s : Bytes) → bytes_eq s s ≡ true
unfolding bytes_eq
bytes_eq_refl [] = refl
bytes_eq_refl (x ∷ s) = ground (arith, bytes_eq_refl s)

eq_of_bytes_eq : (s t : Bytes) → bytes_eq s t ≡ true → s ≡ t
unfolding bytes_eq
eq_of_bytes_eq [] [] h = refl
eq_of_bytes_eq [] (y ∷ t) h = cc
eq_of_bytes_eq (x ∷ s) [] h = cc
eq_of_bytes_eq (x ∷ s) (y ∷ t) h = ground (arith, eq_of_bytes_eq s t)

pub bytes_eq_iff : (s t : Bytes) → (bytes_eq s t ≡ true) ↔ (s ≡ t)
bytes_eq_iff s t = (eq_of_bytes_eq s t, λ p. rw p (bytes_eq_refl t))

pub is_blank-nil : is_blank [] ≡ true
unfolding is_blank
is_blank-nil = refl

trim_test : trim_space (bytes "  a b\t ") ≡ bytes "a b"
unfolding trim_space
trim_test = refl

nbsp_test : is_blank (0xC2 ∷ 0xA0 ∷ 0xE2 ∷ 0x80 ∷ 0xA8 ∷ []) ≡ true
unfolding is_blank
nbsp_test = refl

utf8_test : (valid_string (0xE2 ∷ 0x82 ∷ 0xAC ∷ []) ≡ true) × (valid_string (0xC2 ∷ []) ≡ false)
unfolding valid_string
utf8_test = (refl, refl)
