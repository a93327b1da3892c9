-- ===== src/Agtp/GatewayRoute/ReplayKey.antt =====
-- The replay key of a route assertion: what it tells apart, and what it does not.
use session_bound_agent_iden.Common.{◌≡◌, ◌∷◌, ◌++◌}
use mathlib.Core.List.{append_assoc}
use session_bound_agent_iden.GoString.{Bytes}
use session_bound_agent_iden.GoString.Zero.{NoZero, split_at_zero}
use session_bound_agent_iden.Agtp.RouteTypes.{Assertion}
use session_bound_agent_iden.Agtp.GatewayRoute.{replay_key}

-- The fields that the key joins before the nonce hold no NUL byte.
pub record IsSeparable (a : Assertion) : Type 0 where
  pub issuer : NoZero a.issuer
  pub audience : NoZero a.audience
  pub tenant : NoZero a.tenant
  pub authority_scope : NoZero a.authority_scope
  pub route_id : NoZero a.route_id
  pub grant_hash : NoZero a.grant_hash

-- Two assertions agree in the fields of the key.
pub record SameRoute (a b : Assertion) : Type 0 where
  pub issuer : a.issuer ≡ b.issuer
  pub audience : a.audience ≡ b.audience
  pub tenant : a.tenant ≡ b.tenant
  pub authority_scope : a.authority_scope ≡ b.authority_scope
  pub route_id : a.route_id ≡ b.route_id
  pub grant_hash : a.grant_hash ≡ b.grant_hash
  pub nonce : a.nonce ≡ b.nonce

-- Where no field before the nonce holds a NUL byte, assertions with one replay key agree in its
-- seven fields.
pub replay_key_separates :
    (a b : Assertion) → IsSeparable a → IsSeparable b → replay_key a ≡ replay_key b → SameRoute a b
unfolding replay_key
replay_key_separates a b h k e =
    let (issuer, e1) = split_at_zero a.issuer b.issuer _ _ h.issuer k.issuer e in
    let (audience, e2) = split_at_zero a.audience b.audience _ _ h.audience k.audience e1 in
    let (tenant, e3) = split_at_zero a.tenant b.tenant _ _ h.tenant k.tenant e2 in
    let (scope, e4) =
      split_at_zero a.authority_scope b.authority_scope _ _ h.authority_scope k.authority_scope
        e3 in
    let (route, e5) = split_at_zero a.route_id b.route_id _ _ h.route_id k.route_id e4 in
    let (grant, nonce) = split_at_zero a.grant_hash b.grant_hash _ _ h.grant_hash k.grant_hash e5 in
    record {
      issuer = issuer;
      audience = audience;
      tenant = tenant;
      authority_scope = scope;
      route_id = route;
      grant_hash = grant;
      nonce = nonce;
    }

-- The key does not tell a tenant `x NUL y` with the scope `z` from the tenant `x` with the scope
-- `y NUL z`.
pub replay_key_ambiguous :
    (a : Assertion) (x y z : Bytes)
    → replay_key (record a { tenant = x ++ (0 ∷ y); authority_scope = z })
      ≡ replay_key (record a { tenant = x; authority_scope = y ++ (0 ∷ z) })
unfolding replay_key
replay_key_ambiguous a x y z = simp append_assoc
