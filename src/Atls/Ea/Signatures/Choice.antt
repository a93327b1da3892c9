-- ===== src/Atls/Ea/Signatures/Choice.antt =====
-- The scheme that is chosen for a key.
use session_bound_agent_iden.Common.{
  ℕ, List, [], ◌∷◌, true, ◌≡◌, ◌⊎◌, inl, inr, refl, Any, arith, Bool-cases, ok,
}
use session_bound_agent_iden.Atls.Ea.Signatures.{
  KeyKind, signature_scheme_info, is_compatible, first_compatible, default_scheme,
  choose_signature_scheme,
}

first_compatible_sound :
    (kind : KeyKind) (offered : List ℕ) (s : ℕ)
    → first_compatible kind offered ≡ ok s
    → Any (λ o. o ≡ s) offered × (is_compatible (signature_scheme_info s) kind ≡ true)
unfolding first_compatible
first_compatible_sound kind [] s h = absurd (ground arith)
first_compatible_sound kind (o ∷ os) s h =
    elim (Bool-cases (is_compatible (signature_scheme_info o) kind)) [
      | inl good ↦ (inl (ground arith), ground arith)
      | inr bad ↦
          let (there, fits) = first_compatible_sound kind os s (rw (bad, first_compatible) at h) in
          (inr there, fits)
    ]

default_scheme_sound :
    (kind : KeyKind) (s : ℕ)
    → default_scheme kind ≡ ok s
    → is_compatible (signature_scheme_info s) kind ≡ true
unfolding default_scheme is_compatible signature_scheme_info
default_scheme_sound kind s h = ground arith

-- A chosen scheme fits the kind of the key, and is one of those offered, if any are.
pub choose_sound :
    (kind : KeyKind) (offered : List ℕ) (s : ℕ)
    → choose_signature_scheme kind offered ≡ ok s
    → (is_compatible (signature_scheme_info s) kind ≡ true)
      × ((offered ≡ []) ⊎ Any (λ o. o ≡ s) offered)
unfolding choose_signature_scheme
choose_sound kind [] s h = (default_scheme_sound kind s h, inl refl)
choose_sound kind (o ∷ os) s h =
    let (there, fits) = first_compatible_sound kind (o ∷ os) s h in (fits, inr there)
