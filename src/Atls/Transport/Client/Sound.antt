-- ===== src/Atls/Transport/Client/Sound.antt =====
-- What an accepted connection establishes where the identity policy is enabled and takes its
-- assertion from a grant.
use session_bound_agent_iden.IdentityPolicy.Errors.{Error}
use session_bound_agent_iden.Common.{
  map_err, map_err-eq-ok, Option, none, some, true, ◌≡◌, inl, inr, refl, sym, ap, ◌∙◌, Option-cases,
  Result-cases, ok, >>=-eq-ok, arith,
}
use mathlib.Core.Path.{subst}
use session_bound_agent_iden.GoTime.{Time}
use session_bound_agent_iden.Atls.Tls.{ConnectionState}
use session_bound_agent_iden.Atls.Ea.Signatures.{Primitives}
use session_bound_agent_iden.Atls.Ea.Validate.{ValidationResult}
use session_bound_agent_iden.IdentityPolicy.Values.{Assertion, Binding, enabled}
use session_bound_agent_iden.IdentityPolicy.Policy.{validate_assertion}
use session_bound_agent_iden.IdentityPolicy.Policy.Accept.{Accepted}
use session_bound_agent_iden.IdentityPolicy.Policy.Session.{AcceptedBinding, validate_assertion_iff}
use session_bound_agent_iden.IdentityPolicy.SessionBinding.{
  VerifiedGrant, Statement, new_assertion, mark_session_binding_used,
}
use session_bound_agent_iden.IdentityPolicy.SessionBinding.Authorized.{Authorized}
use session_bound_agent_iden.IdentityPolicy.SessionBinding.OneShot.{new_assertion_sound}
use session_bound_agent_iden.Atls.Transport.{identity_error}
use session_bound_agent_iden.Atls.Transport.Identity.{expected_identity_binding}
use session_bound_agent_iden.Atls.Transport.Client.{
  ClientConfig, identity_failure, observed_identity_assertion, check_identity, mark_statement,
  validate_identity_policy,
}

-- The grant authorizes a statement for the session of the result, its values meet the policy, and
-- the cache took the statement's nonce.
pub record IdentityHolds {K P C S : Type 0} (prim : Primitives K P C) (cfg : ClientConfig C S)
    (c c' : S) (v : ValidationResult C) (now : Time) : Type 0 where
  pub grant : VerifiedGrant
  pub granted : cfg.identity_grant ≡ some grant
  pub statement : Statement
  pub stated : cfg.identity_binding ≡ some statement
  pub authorized : Authorized grant statement now
  pub expected : Binding
  pub derived : expected_identity_binding prim v ≡ ok expected
  pub bound : AcceptedBinding statement.binding expected now
  pub values : Accepted cfg.identity_policy grant.values
  pub fresh : mark_session_binding_used cfg.identity_replay c statement ≡ (c', none)

identity_failure_ok : (e : Option Error) (u : Unit {0}) → identity_failure e ≡ ok u → e ≡ none
identity_failure_ok none u h = refl
identity_failure_ok (some e) u h = cc

mark_fresh :
    {C S : Type 0} (cfg : ClientConfig C S) (c c' : S) (s : Statement) (u : Unit {0})
    → mark_statement cfg c (some s) ≡ (c', ok u)
    → mark_session_binding_used cfg.identity_replay c s ≡ (c', none)
unfolding mark_statement
mark_fresh cfg c c' s u h =
    elim (Option-cases (mark_session_binding_used cfg.identity_replay c s).1) [
      | inl taken ↦ ground arith
      | inr (e, refused) ↦ absurd (ground arith)
    ]

module _ {K P C S : Type 0} (prim : Primitives K P C) (cfg : ClientConfig C S) where
  -- The source of an assertion.
  record FromGrant (c : S) (now : Time) (a : Assertion) (o : Option Statement) : Type 0 where
    grant : VerifiedGrant
    granted : cfg.identity_grant ≡ some grant
    statement : Statement
    stated : cfg.identity_binding ≡ some statement
    kept : o ≡ some statement
    made : (new_assertion grant statement now none c).1 ≡ ok a

  observed-FromGrant :
      (c : S) (st : ConnectionState) (v : ValidationResult C) (now : Time) (a : Assertion)
      (o : Option Statement)
      → cfg.observed_identity ≡ none
      → observed_identity_assertion prim cfg c st v now ≡ ok (a, o)
      → FromGrant c now a o
  unfolding observed_identity_assertion
  observed-FromGrant c st v now a o unobserved h = elim (Option-cases cfg.identity_grant) [
    | inl missing ↦ absurd (ground arith)
    | inr (g, granted) ↦ elim (Option-cases cfg.identity_binding) [
      | inl missing ↦ absurd (ground arith)
      | inr (s, stated) ↦
          let h1 = rw (unobserved, granted, stated, observed_identity_assertion) at h in
          let (x, made, h2) =
            >>=-eq-ok (map_err identity_error (new_assertion g s now none c).1) _ h1 in
          let same : (x, some s) ≡ (a, o) = ground arith in
          record {
            grant = g;
            granted = granted;
            statement = s;
            stated = stated;
            kept = sym (ap (λ (y : Assertion × Option Statement). y.1) same);
            made =
                map_err-eq-ok identity_error _ made
                ∙ ap (λ y. ok y) (ap (λ (y : Assertion × Option Statement). y.0) same);
          }
    ]
  ]

  pub identity_sound :
      (c c' : S) (st : ConnectionState) (v : ValidationResult C) (now : Time) (u : Unit {0})
      → cfg.observed_identity ≡ none
      → enabled cfg.identity_policy ≡ true
      → validate_identity_policy prim cfg c st v now ≡ (c', ok u)
      → IdentityHolds prim cfg c c' v now
  unfolding validate_identity_policy check_identity
  identity_sound c c' st v now u unobserved on h =
      elim (Result-cases (check_identity prim cfg c st v now)) [
        | inr (e, bad) ↦ absurd (ground arith)
        | inl (o, good) ↦
            let ((a, o'), observed, h1) =
              >>=-eq-ok (observed_identity_assertion prim cfg c st v now) _ good in
            let (expected, derived, h2) = >>=-eq-ok (expected_identity_binding prim v) _ h1 in
            let (u', passed, h3) =
              >>=-eq-ok (identity_failure (validate_assertion cfg.identity_policy a expected now)) _
                h2 in
            let g = observed-FromGrant c st v now a o' unobserved observed in
            let (issuer, values, binding, auth, cached) =
              new_assertion_sound g.grant g.statement now none c a g.made in
            let (bound, met) =
              (validate_assertion_iff cfg.identity_policy a expected now).0
                (identity_failure_ok _ u' passed) in
            let marked : mark_statement cfg c (some g.statement) ≡ (c', ok u) =
              ap (mark_statement cfg c) (sym g.kept) ∙ ground arith in
            record {
              grant = g.grant;
              granted = g.granted;
              statement = g.statement;
              stated = g.stated;
              authorized = auth;
              expected = expected;
              derived = derived;
              bound = subst (λ b. AcceptedBinding b expected now) binding bound;
              values = subst (λ x. Accepted cfg.identity_policy x) values met;
              fresh = mark_fresh cfg c c' g.statement u marked;
            }
      ]
