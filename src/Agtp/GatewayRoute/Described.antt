-- ===== src/Agtp/GatewayRoute/Described.antt =====
-- What the fields of a route assertion have to be, field by field.
use session_bound_agent_iden.Common.{
  ◌≡◌, refl, ◌≢◌, ◌↔◌, ◌⊎◌, true, false, not, if◌then◌else◌, is_nil, [], ◌∷◌, All,
}
use session_bound_agent_iden.GoString.{Bytes, is_blank}
use session_bound_agent_iden.Agtp.RouteTypes.{Assertion, HolderOfKeyProof, ExpectedRoute}
use session_bound_agent_iden.Agtp.GatewayRoute.{
  has_markup, core_fields, expected_fields, holder_fields,
}
use session_bound_agent_iden.Agtp.GatewayRoute.Fields.{IsClean, Matches, ProofMatches}

-- The local policy does not fix the value, or fixes a clean one that was observed.
abbrev pub Agrees : Bytes → Bytes → Type 0
Agrees want got = (is_blank want ≡ true) ⊎ ((has_markup want ≡ false) × (got ≡ want))

-- The assertion does not name the value, or the proof names the same clean one.
abbrev pub SameNamed : Bytes → Bytes → Type 0
SameNamed want got = (is_blank want ≡ true) ⊎ ((has_markup got ≡ false) × (got ≡ want))

-- The fields that every assertion has.
pub record CoreFields (a : Assertion) : Type 0 where
  pub assertion_type : IsClean a.assertion_type
  pub issuer : IsClean a.issuer
  pub audience : IsClean a.audience
  pub id : IsClean a.id
  pub nonce : IsClean a.nonce
  pub grant_hash : IsClean a.grant_hash
  pub gateway_session_binding_sha256 : IsClean a.gateway_session_binding_sha256
  pub route_id : IsClean a.route_id
  pub next_hop : IsClean a.next_hop
  pub policy_id : IsClean a.policy_id
  pub target_agent : IsClean a.target_agent
  pub upstream_authn : IsClean a.upstream_authn
  pub upstream_peer : IsClean a.upstream_peer
  pub request_context_sha256 : IsClean a.request_context_sha256

-- What a local route policy fixes.
pub record RouteFields (a : Assertion) (e : ExpectedRoute) : Type 0 where
  pub issuer : Agrees e.issuer a.issuer
  pub audience : Agrees e.audience a.audience
  pub tenant : Agrees e.tenant a.tenant
  pub authority_scope : Agrees e.authority_scope a.authority_scope
  pub route_id : Agrees e.route_id a.route_id
  pub policy_id : Agrees e.policy_id a.policy_id
  pub target_agent : Agrees e.target_agent a.target_agent
  pub target_workload : Agrees e.target_workload a.target_workload
  pub target_agent_key_thumbprint :
      Agrees e.target_agent_key_thumbprint a.target_agent_key_thumbprint
  pub request_context_sha256 : Agrees e.request_context_sha256 a.request_context_sha256
  pub task_id : Agrees e.task_id a.task_id
  pub context_id : Agrees e.context_id a.context_id
  pub audit_hash : Agrees e.audit_hash a.audit_hash

-- What the final Agent's proof repeats. Its key is the one that the local policy pins, if it pins
-- one, and else the assertion's.
pub record HolderFields (a : Assertion) (p : HolderOfKeyProof) (e : ExpectedRoute) : Type 0 where
  pub agent : SameNamed a.target_agent p.agent_id
  pub workload : SameNamed a.target_workload p.workload_id
  pub pinned_key :
      e.target_agent_key_thumbprint ≢ [] → SameNamed e.target_agent_key_thumbprint p.key_thumbprint
  pub asserted_key :
      e.target_agent_key_thumbprint ≡ [] → SameNamed a.target_agent_key_thumbprint p.key_thumbprint
  pub grant_hash : SameNamed a.grant_hash p.grant_hash
  pub route_id : SameNamed a.route_id p.route_id
  pub task_id : SameNamed a.task_id p.task_id
  pub context_id : SameNamed a.context_id p.context_id
  pub nonce : SameNamed a.nonce p.nonce

pub core_fields_iff : (a : Assertion) → All (λ f. IsClean f.value) (core_fields a) ↔ CoreFields a
core_fields_iff a = (
  λ h. record {
    assertion_type = h.0;
    issuer = h.1.0;
    audience = h.1.1.0;
    id = h.1.1.1.0;
    nonce = h.1.1.1.1.0;
    grant_hash = h.1.1.1.1.1.0;
    gateway_session_binding_sha256 = h.1.1.1.1.1.1.0;
    route_id = h.1.1.1.1.1.1.1.0;
    next_hop = h.1.1.1.1.1.1.1.1.0;
    policy_id = h.1.1.1.1.1.1.1.1.1.0;
    target_agent = h.1.1.1.1.1.1.1.1.1.1.0;
    upstream_authn = h.1.1.1.1.1.1.1.1.1.1.1.0;
    upstream_peer = h.1.1.1.1.1.1.1.1.1.1.1.1.0;
    request_context_sha256 = h.1.1.1.1.1.1.1.1.1.1.1.1.1.0;
  },
  λ c. (
    c.assertion_type,
    (
      c.issuer,
      (
        c.audience,
        (
          c.id,
          (
            c.nonce,
            (
              c.grant_hash,
              (
                c.gateway_session_binding_sha256,
                (
                  c.route_id,
                  (
                    c.next_hop,
                    (
                      c.policy_id,
                      (
                        c.target_agent,
                        (c.upstream_authn, (c.upstream_peer, (c.request_context_sha256, tt))),
                      ),
                    ),
                  ),
                ),
              ),
            ),
          ),
        ),
      ),
    ),
  ),
)

pub route_fields_iff :
    (a : Assertion) (e : ExpectedRoute) → All Matches (expected_fields a e) ↔ RouteFields a e
route_fields_iff a e = (
  λ h. record {
    issuer = h.0;
    audience = h.1.0;
    tenant = h.1.1.0;
    authority_scope = h.1.1.1.0;
    route_id = h.1.1.1.1.0;
    policy_id = h.1.1.1.1.1.0;
    target_agent = h.1.1.1.1.1.1.0;
    target_workload = h.1.1.1.1.1.1.1.0;
    target_agent_key_thumbprint = h.1.1.1.1.1.1.1.1.0;
    request_context_sha256 = h.1.1.1.1.1.1.1.1.1.0;
    task_id = h.1.1.1.1.1.1.1.1.1.1.0;
    context_id = h.1.1.1.1.1.1.1.1.1.1.1.0;
    audit_hash = h.1.1.1.1.1.1.1.1.1.1.1.1.0;
  },
  λ c. (
    c.issuer,
    (
      c.audience,
      (
        c.tenant,
        (
          c.authority_scope,
          (
            c.route_id,
            (
              c.policy_id,
              (
                c.target_agent,
                (
                  c.target_workload,
                  (
                    c.target_agent_key_thumbprint,
                    (c.request_context_sha256, (c.task_id, (c.context_id, (c.audit_hash, tt)))),
                  ),
                ),
              ),
            ),
          ),
        ),
      ),
    ),
  ),
)

pinned_or_asserted :
    (pinned asserted got : Bytes)
    → SameNamed (if not (is_nil pinned) then pinned else asserted) got
      ↔ ((pinned ≢ [] → SameNamed pinned got) × (pinned ≡ [] → SameNamed asserted got))
pinned_or_asserted [] asserted got = (λ h. (λ n. absurd (n refl), λ e. h), λ h. h.1 refl)
pinned_or_asserted (x ∷ pinned) asserted got = (λ h. (λ n. h, λ e. cc), λ h. h.0 (λ e. cc))

pub holder_rows_iff :
    (a : Assertion) (p : HolderOfKeyProof) (e : ExpectedRoute)
    → All ProofMatches (holder_fields a p e) ↔ HolderFields a p e
holder_rows_iff a p e =
    let key =
      pinned_or_asserted e.target_agent_key_thumbprint a.target_agent_key_thumbprint
        p.key_thumbprint in
    (
      λ h. record {
        agent = h.0;
        workload = h.1.0;
        pinned_key = (key.0 h.1.1.0).0;
        asserted_key = (key.0 h.1.1.0).1;
        grant_hash = h.1.1.1.0;
        route_id = h.1.1.1.1.0;
        task_id = h.1.1.1.1.1.0;
        context_id = h.1.1.1.1.1.1.0;
        nonce = h.1.1.1.1.1.1.1.0;
      },
      λ c. (
        c.agent,
        (
          c.workload,
          (
            key.1 (c.pinned_key, c.asserted_key),
            (c.grant_hash, (c.route_id, (c.task_id, (c.context_id, (c.nonce, tt))))),
          ),
        ),
      ),
    )
