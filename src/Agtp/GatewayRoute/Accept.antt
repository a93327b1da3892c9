-- ===== src/Agtp/GatewayRoute/Accept.antt =====
-- When a gateway route assertion is accepted.
use session_bound_agent_iden.Agtp.GatewayRoute.Described.{
  CoreFields, RouteFields, HolderFields, core_fields_iff, route_fields_iff, holder_rows_iff,
}
use session_bound_agent_iden.Common.{
  pos, ◌≡◌, refl, ◌≢◌, ◌↔◌, ◌≤◌, Bool, true, false, Option, none, some, List, [], ◌∷◌, arith,
  append-eq-nil, is_nil, append_nil_nil, if◌then◌else◌,
}
use session_bound_agent_iden.GoString.{Bytes, is_blank}
use session_bound_agent_iden.GoString.Laws.{bytes_eq_iff, is_blank-nil}
use session_bound_agent_iden.GoTime.{Time}
use session_bound_agent_iden.Agtp.RouteTypes.{
  FieldError, Assertion, HolderOfKeyProof, ExpectedRoute,
}
use session_bound_agent_iden.Agtp.GatewayRoute.{
  assertion_type, core_fields, expected_fields, holder_fields, observed_errors, type_errors,
  version_errors, issued_errors, expiry_errors, compare_fields, holder_field_errors,
  holder_issued_errors, proof_hash_errors, validate_core, compare_expected, validate_holder_proof,
  route_errors,
}
use session_bound_agent_iden.Agtp.GatewayRoute.Fields.{
  IsRoutePolicy, observed_errors_iff, compare_fields_iff, holder_fields_iff, issued_errors_iff,
  expiry_errors_iff, missing_route_errors_iff,
}

-- The assertion's own form and lifetime.
pub record CoreAccepted (a : Assertion) (now : Time) : Type 0 where
  pub fields : CoreFields a
  pub type_known : a.assertion_type ≡ assertion_type
  pub version_known : a.version ≡ pos 1
  pub issued : (a.issued_at ≢ 0) × (a.issued_at ≤ now)
  pub live : (a.expires_at ≢ 0) × (now ≤ a.expires_at)

-- The final Agent's proof is there, names what the assertion names, and is live.
pub record ProofAccepted (a : Assertion) (p : HolderOfKeyProof) (e : ExpectedRoute) (now : Time)
    : Type 0 where
  pub fields : HolderFields a p e
  pub not_future : p.issued_at ≤ now
  pub live : (p.expires_at ≢ 0) × (now ≤ p.expires_at)
  pub hash_there : is_blank a.agent_hok_proof_sha256 ≡ false

pub record RouteAccepted (a : Assertion) (p : Option HolderOfKeyProof) (e : ExpectedRoute)
    (now : Time) : Type 0 where
  pub core : CoreAccepted a now
  pub route : RouteFields a e
  pub policy : IsRoutePolicy e
  pub proof :
      e.require_holder_proof ≡ true
      → (q : HolderOfKeyProof) × (p ≡ some q) × ProofAccepted a q e now

is_nil-is_blank : (s : Bytes) → is_blank s ≡ false → is_nil s ≡ false
is_nil-is_blank [] n = cc (is_blank-nil)
is_nil-is_blank (b ∷ s) n = refl

type_errors_iff :
    (a : Assertion)
    → is_blank a.assertion_type ≡ false
    → (type_errors a ≡ []) ↔ (a.assertion_type ≡ assertion_type)
unfolding type_errors
type_errors_iff a n = (
  λ h.
      ground
        (arith, is_nil-is_blank a.assertion_type n, bytes_eq_iff a.assertion_type assertion_type),
  λ h.
      ground
        (arith, is_nil-is_blank a.assertion_type n, bytes_eq_iff a.assertion_type assertion_type),
)

version_errors_iff : (a : Assertion) → (version_errors a ≡ []) ↔ (a.version ≡ pos 1)
unfolding version_errors
version_errors_iff a = (λ h. ground arith, λ h. ground arith)

module _ (a : Assertion) (now : Time) where
  validate_core_iff : (validate_core a now ≡ []) ↔ CoreAccepted a now
  unfolding validate_core
  validate_core_iff = (
    λ h.
        let (one, h2) = append-eq-nil (observed_errors (core_fields a)) _ h in
        let (two, h3) = append-eq-nil (type_errors a) _ h2 in
        let (three, h4) = append-eq-nil (version_errors a) _ h3 in
        let (four, five) = append-eq-nil (issued_errors a.issued_at now) _ h4 in
        let fields = (core_fields_iff a).0 ((observed_errors_iff (core_fields a)).0 one) in
        record {
          fields = fields;
          type_known = (type_errors_iff a fields.assertion_type.0).0 two;
          version_known = (version_errors_iff a).0 three;
          issued = (issued_errors_iff a.issued_at now).0 four;
          live = (expiry_errors_iff a.expires_at now).0 five;
        },
    λ c.
        append_nil_nil _ _
          ((observed_errors_iff (core_fields a)).1 ((core_fields_iff a).1 c.fields))
          (append_nil_nil _ _ ((type_errors_iff a c.fields.assertion_type.0).1 c.type_known) (
            append_nil_nil _ _ ((version_errors_iff a).1 c.version_known) (
              append_nil_nil _ _ ((issued_errors_iff a.issued_at now).1 c.issued)
                ((expiry_errors_iff a.expires_at now).1 c.live)))),
  )

holder_issued_iff :
    (p : HolderOfKeyProof) (now : Time) → (holder_issued_errors p now ≡ []) ↔ (p.issued_at ≤ now)
unfolding holder_issued_errors
holder_issued_iff p now = (λ h. ground arith, λ h. ground arith)

proof_hash_iff :
    (a : Assertion) → (proof_hash_errors a ≡ []) ↔ (is_blank a.agent_hok_proof_sha256 ≡ false)
unfolding proof_hash_errors
proof_hash_iff a = (λ h. ground arith, λ h. ground arith)

if_nil : (b : Bool) (xs : List FieldError) → (b ≡ true → xs ≡ []) → (if b then xs else []) ≡ []
if_nil true xs h = h refl
if_nil false xs h = refl

module _ (a : Assertion) (e : ExpectedRoute) (now : Time) where
  holder_proof_iff :
      (p : HolderOfKeyProof)
      → (validate_holder_proof a (some p) e now ≡ []) ↔ ProofAccepted a p e now
  unfolding validate_holder_proof
  holder_proof_iff p = (
    λ h.
        let (one, h2) = append-eq-nil (holder_field_errors (holder_fields a p e)) _ h in
        let (two, h3) = append-eq-nil (holder_issued_errors p now) _ h2 in
        let (three, four) = append-eq-nil (expiry_errors p.expires_at now) _ h3 in
        record {
          fields = (holder_rows_iff a p e).0 ((holder_fields_iff (holder_fields a p e)).0 one);
          not_future = (holder_issued_iff p now).0 two;
          live = (expiry_errors_iff p.expires_at now).0 three;
          hash_there = (proof_hash_iff a).0 four;
        },
    λ c.
        append_nil_nil _ _
          ((holder_fields_iff (holder_fields a p e)).1 ((holder_rows_iff a p e).1 c.fields))
          (append_nil_nil _ _ ((holder_issued_iff p now).1 c.not_future) (
            append_nil_nil _ _ ((expiry_errors_iff p.expires_at now).1 c.live)
              ((proof_hash_iff a).1 c.hash_there))),
  )

  required_proof_sound :
      (p : Option HolderOfKeyProof)
      → validate_holder_proof a p e now ≡ []
      → (q : HolderOfKeyProof) × (p ≡ some q) × ProofAccepted a q e now
  unfolding validate_holder_proof
  required_proof_sound none h = absurd (ground arith)
  required_proof_sound (some q) h = (q, refl, (holder_proof_iff q).0 h)

  required_proof_complete :
      (p : Option HolderOfKeyProof)
      → (q : HolderOfKeyProof) × (p ≡ some q) × ProofAccepted a q e now
      → validate_holder_proof a p e now ≡ []
  required_proof_complete p (q, same, c) = rw same ((holder_proof_iff q).1 c)

  proof_block_iff :
      (p : Option HolderOfKeyProof)
      → ((if e.require_holder_proof then validate_holder_proof a p e now else []) ≡ []) ↔ (
          e.require_holder_proof ≡ true
          → (q : HolderOfKeyProof) × (p ≡ some q) × ProofAccepted a q e now)
  proof_block_iff p = (
    λ h r. required_proof_sound p (ground arith),
    λ h. if_nil e.require_holder_proof _ (λ r. required_proof_complete p (h r)),
  )

  pub route_errors_iff :
      (p : Option HolderOfKeyProof) → (route_errors a p e now ≡ []) ↔ RouteAccepted a p e now
  unfolding route_errors compare_expected
  route_errors_iff p = (
    λ h.
        let (core, h2) = append-eq-nil (validate_core a now) _ h in
        let (compared, proof) = append-eq-nil (compare_expected a e) _ h2 in
        let (route, policy) = append-eq-nil (compare_fields (expected_fields a e)) _ compared in
        record {
          core = (validate_core_iff a now).0 core;
          route = (route_fields_iff a e).0 ((compare_fields_iff (expected_fields a e)).0 route);
          policy = (missing_route_errors_iff e).0 policy;
          proof = (proof_block_iff p).0 proof;
        },
    λ r. append_nil_nil _ _ ((validate_core_iff a now).1 r.core) (
        append_nil_nil _ _
          (append_nil_nil _ _
            ((compare_fields_iff (expected_fields a e)).1 ((route_fields_iff a e).1 r.route))
            ((missing_route_errors_iff e).1 r.policy))
          ((proof_block_iff p).1 r.proof)),
  )
