-- ===== src/IdentityPolicy/SessionBinding/ReplayKey.antt =====
-- The replay key of `MarkSessionBindingUsed` names the grant, the audience, the session and the
-- nonce: checked statements with one key agree in all five fields.
use session_bound_agent_iden.Common.{ℕ, ◌≡◌, Bool, true, none, ◌||◌, ◌==◌}
use session_bound_agent_iden.GoString.{Bytes, runes, is_control}
use session_bound_agent_iden.GoString.Zero.{NoZero, runes_from-NoZero, split_at_zero}
use session_bound_agent_iden.GoTime.{Time}
use session_bound_agent_iden.IdentityPolicy.Checks.{validate_value}
use session_bound_agent_iden.IdentityPolicy.Checks.Laws.{validate_value_sound}
use session_bound_agent_iden.IdentityPolicy.SessionBinding.{VerifiedGrant, Statement, replay_key}
use session_bound_agent_iden.IdentityPolicy.SessionBinding.Authorized.{Authorized}

control_refused : (p : ℕ) (b c : Bool) → is_control p ≡ true → (is_control p || b || c) ≡ true
control_refused p b c h = rw h

-- A well-formed value holds no NUL byte.
pub validate_value-NoZero : (value : Bytes) → validate_value value ≡ none → NoZero value
unfolding runes
validate_value-NoZero value h =
    runes_from-NoZero (λ r. is_control r.point || r.point == b'<' || r.point == b'>') 0 value
      (λ r c. control_refused r.point (r.point == b'<') (r.point == b'>') c) tt
      (validate_value_sound value h).clean

-- The fields by which a replay is recognised are the same.
pub record SameUse (s t : Statement) : Type 0 where
  pub grant_hash : s.grant_hash ≡ t.grant_hash
  pub audience : s.audience ≡ t.audience
  pub exporter : s.binding.tls_exporter_sha256 ≡ t.binding.tls_exporter_sha256
  pub context : s.binding.request_context_sha256 ≡ t.binding.request_context_sha256
  pub nonce : s.binding.nonce ≡ t.binding.nonce

pub replay_key_of_SameUse : (s t : Statement) → SameUse s t → replay_key s ≡ replay_key t
unfolding replay_key
replay_key_of_SameUse s t u = rw (u.grant_hash, u.audience, u.exporter, u.context, u.nonce)

module _ {g h : VerifiedGrant} {s t : Statement} {now later : Time} (a : Authorized g s now)
    (b : Authorized h t later) where
  -- Two authorized statements, of any grants and at any times, have one replay key only if they
  -- agree in the grant hash, the audience, the exporter, the request context and the nonce.
  pub replay_key_injective : replay_key s ≡ replay_key t → SameUse s t
  unfolding replay_key
  replay_key_injective e =
      let (hash, e1) =
        split_at_zero s.grant_hash t.grant_hash _ _
          (validate_value-NoZero s.grant_hash a.same_grant.0.1)
          (validate_value-NoZero t.grant_hash b.same_grant.0.1) e in
      let (audience, e2) =
        split_at_zero s.audience t.audience _ _
          (validate_value-NoZero s.audience a.same_audience.0.1)
          (validate_value-NoZero t.audience b.same_audience.0.1) e1 in
      let (exporter, e3) =
        split_at_zero s.binding.tls_exporter_sha256 t.binding.tls_exporter_sha256 _ _
          (validate_value-NoZero s.binding.tls_exporter_sha256 a.session.exporter.1)
          (validate_value-NoZero t.binding.tls_exporter_sha256 b.session.exporter.1) e2 in
      let (context, nonce) =
        split_at_zero s.binding.request_context_sha256 t.binding.request_context_sha256 _ _
          (validate_value-NoZero s.binding.request_context_sha256 a.session.context.1)
          (validate_value-NoZero t.binding.request_context_sha256 b.session.context.1) e3 in
      record {
        grant_hash = hash;
        audience = audience;
        exporter = exporter;
        context = context;
        nonce = nonce;
      }
