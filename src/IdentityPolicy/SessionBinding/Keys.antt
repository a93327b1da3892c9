-- ===== src/IdentityPolicy/SessionBinding/Keys.antt =====
-- Which keys a grant lets sign a session-binding statement.
use session_bound_agent_iden.Common.{
  ◌≡◌, ◌↔◌, ◌⊎◌, inl, inr, true, false, not, List, [], ◌∷◌, arith, any, Any,
}
use session_bound_agent_iden.GoString.{Bytes, bytes_eq, is_blank}
use session_bound_agent_iden.GoString.Laws.{bytes_eq_iff}
use session_bound_agent_iden.IdentityPolicy.SessionBinding.{
  VerifiedGrant, has_binding_key, allows_binding_key,
}

any-key_iff :
    (key : Bytes) (keys : List Bytes)
    → (any (λ allowed. bytes_eq key allowed) keys ≡ true) ↔ Any (λ allowed. key ≡ allowed) keys
any-key_iff key [] = (λ h. cc, λ h. absurd h)
any-key_iff key (k ∷ keys) =
    let (sound, complete) = any-key_iff key keys in
    (
      λ h. ground (arith, bytes_eq_iff key k, sound),
      λ h. ground (arith, bytes_eq_iff key k, complete),
    )

-- The key is not empty, and is the grant's confirmation key, its Agent's public key or one of its
-- endpoint keys.
pub record IsGrantKey (g : VerifiedGrant) (key : Bytes) : Type 0 where
  pub key_some : is_blank key ≡ false
  pub listed :
      (key ≡ g.confirmation_key)
      ⊎ (key ≡ g.values.agent_public_key)
      ⊎ Any (λ allowed. key ≡ allowed) g.authorized_endpoint_keys

-- A key may sign a statement exactly if it is not empty and is the grant's confirmation key, its
-- Agent's public key or one of its authorized endpoint keys.
pub allows_binding_key_iff :
    (g : VerifiedGrant) (key : Bytes) → (allows_binding_key g key ≡ true) ↔ IsGrantKey g key
unfolding allows_binding_key
allows_binding_key_iff g key = (
  λ h. record {
    key_some = ground arith;
    listed = ground (
      arith,
      bytes_eq_iff key g.confirmation_key,
      bytes_eq_iff key g.values.agent_public_key,
      (any-key_iff key g.authorized_endpoint_keys).0,
    );
  },
  λ k. ground (
    arith,
    k.key_some,
    k.listed,
    bytes_eq_iff key g.confirmation_key,
    bytes_eq_iff key g.values.agent_public_key,
    (any-key_iff key g.authorized_endpoint_keys).1,
  ),
)

any_nonblank :
    (key : Bytes) (keys : List Bytes)
    → is_blank key ≡ false
    → Any (λ allowed. key ≡ allowed) keys
    → any (λ k. not (is_blank k)) keys ≡ true
any_nonblank key [] n h = absurd h
any_nonblank key (k ∷ keys) n (inl e) = rw (← e, n)
any_nonblank key (k ∷ keys) n (inr h) = ground (arith, any_nonblank key keys n h)

-- A grant with an allowed key has a binding key, so the separate test of `hasBindingKey` rejects
-- nothing that the signer's test accepts.
pub has_binding_key_of_allowed :
    (g : VerifiedGrant) (key : Bytes) → IsGrantKey g key → has_binding_key g ≡ true
unfolding has_binding_key
has_binding_key_of_allowed g key k = elim k.listed [
  | inl e ↦ rw (← e, k.key_some)
  | inr (inl e) ↦ let n = k.key_some in ground arith
  | inr (inr h) ↦ ground (arith, any_nonblank key g.authorized_endpoint_keys k.key_some h)
]
