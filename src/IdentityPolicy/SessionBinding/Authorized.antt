-- ===== src/IdentityPolicy/SessionBinding/Authorized.antt =====
-- A session-binding statement is accepted exactly when its grant authorizes it.
use session_bound_agent_iden.Common.{
  String, ◌≡◌, refl, sym, ◌∙◌, ◌≢◌, ◌↔◌, [], ◌∷◌, append-eq-nil, if◌then◌else◌, is_nil,
}
use session_bound_agent_iden.GoString.{Bytes}
use session_bound_agent_iden.GoTime.{Time}
use session_bound_agent_iden.IdentityPolicy.Errors.{
  error_entries, missing_expected, missing_binding,
}
use session_bound_agent_iden.IdentityPolicy.Errors.Laws.{error_entries-as_error}
use session_bound_agent_iden.IdentityPolicy.Values.{Binding}
use session_bound_agent_iden.IdentityPolicy.Policy.Session.{
  IsLive, lifetime_errors_sound, lifetime_errors_complete,
}
use session_bound_agent_iden.IdentityPolicy.SessionBinding.{
  VerifiedGrant, Statement, string_errors, validate_grant_lifetime, validate_statement_binding,
  statement_errors,
}
use session_bound_agent_iden.IdentityPolicy.SessionBinding.Keys.{has_binding_key_of_allowed}
use session_bound_agent_iden.IdentityPolicy.SessionBinding.Accept.{
  IsText, IsSigner, IsValueList, GrantValues, string_errors_iff, matched_errors_iff,
  signer_errors_iff, endpoint_keys_iff, validate_grant_values_iff,
}

-- The session fields of a statement: all present and well-formed but for the attestation binder,
-- which may be absent; and the statement is live.
pub record SessionFields (b : Binding) (now : Time) : Type 0 where
  pub leaf : IsText b.leaf_public_key_sha256
  pub exporter : IsText b.tls_exporter_sha256
  pub context : IsText b.request_context_sha256
  pub nonce : IsText b.nonce
  pub binder : b.attestation_binder_sha256 ≢ [] → IsText b.attestation_binder_sha256
  pub live : IsLive b.issued_at b.expires_at now

binder_errors_iff :
    (value : Bytes)
    → ((if is_nil value
          then []
          else string_errors "session_binding" "attestation_binder_sha256" missing_binding value)
        ≡ [])
      ↔ (value ≢ [] → IsText value)
binder_errors_iff [] = (λ h n. absurd (n refl), λ h. refl)
binder_errors_iff (b ∷ value) =
    let (sound, complete) =
      string_errors_iff "session_binding" "attestation_binder_sha256" missing_binding (b ∷ value) in
    (λ h n. sound h, λ h. complete (h (λ e. cc)))

abbrev session_text :
    (name : String) (value : Bytes)
    → (string_errors "session_binding" name missing_binding value ≡ []) ↔ IsText value
session_text name value = string_errors_iff "session_binding" name missing_binding value

statement_binding_iff :
    (b : Binding) (now : Time)
    → (error_entries (validate_statement_binding b now) ≡ []) ↔ SessionFields b now
unfolding validate_statement_binding
statement_binding_iff b now = (
  λ h.
      let all = sym (error_entries-as_error _) ∙ h in
      let (front5, life) = append-eq-nil _ _ all in
      let (front4, binder) = append-eq-nil _ _ front5 in
      let (front3, nonce) = append-eq-nil _ _ front4 in
      let (front2, context) = append-eq-nil _ _ front3 in
      let (leaf, exporter) = append-eq-nil _ _ front2 in
      record {
        leaf = (session_text "leaf_public_key_sha256" b.leaf_public_key_sha256).0 leaf;
        exporter = (session_text "tls_exporter_sha256" b.tls_exporter_sha256).0 exporter;
        context = (session_text "request_context_sha256" b.request_context_sha256).0 context;
        nonce = (session_text "nonce" b.nonce).0 nonce;
        binder = (binder_errors_iff b.attestation_binder_sha256).0 binder;
        live =
            lifetime_errors_sound "session_binding" missing_binding b.issued_at b.expires_at now
              life;
      },
  λ f. rw (
    (session_text "leaf_public_key_sha256" b.leaf_public_key_sha256).1 f.leaf,
    (session_text "tls_exporter_sha256" b.tls_exporter_sha256).1 f.exporter,
    (session_text "request_context_sha256" b.request_context_sha256).1 f.context,
    (session_text "nonce" b.nonce).1 f.nonce,
    (binder_errors_iff b.attestation_binder_sha256).1 f.binder,
    lifetime_errors_complete "session_binding" missing_binding b.issued_at b.expires_at now f.live,
  ),
)

grant_lifetime_iff :
    (g : VerifiedGrant) (now : Time)
    → (error_entries (validate_grant_lifetime g now) ≡ []) ↔ IsLive g.issued_at g.expires_at now
unfolding validate_grant_lifetime
grant_lifetime_iff g now = (
  λ h.
      lifetime_errors_sound "identity_grant" missing_expected g.issued_at g.expires_at now
        (sym (error_entries-as_error _) ∙ h),
  λ l.
      rw
        (lifetime_errors_complete "identity_grant" missing_expected g.issued_at g.expires_at now l),
)

-- The grant authorizes the statement: both name one grant and one audience, the signer holds a
-- key of the grant and is not its issuer, and the grant and the statement are well-formed and live.
pub record Authorized (g : VerifiedGrant) (s : Statement) (now : Time) : Type 0 where
  pub issuer : IsText g.issuer
  pub audience : IsText g.audience
  pub grant_hash : IsText g.grant_hash
  pub same_grant : IsText s.grant_hash × (s.grant_hash ≡ g.grant_hash)
  pub same_audience : IsText s.audience × (s.audience ≡ g.audience)
  pub signer : IsSigner g s.signer_key
  pub grant_values : GrantValues g.values
  pub endpoint_keys : IsValueList g.authorized_endpoint_keys
  pub grant_live : IsLive g.issued_at g.expires_at now
  pub session : SessionFields s.binding now

module _ (g : VerifiedGrant) (s : Statement) (now : Time) where
  statement_errors_sound : statement_errors g s now ≡ [] → Authorized g s now
  unfolding statement_errors
  statement_errors_sound h =
      let (e10, binding) = append-eq-nil _ _ h in
      let (e9, life) = append-eq-nil _ _ e10 in
      let (e8, keys) = append-eq-nil _ _ e9 in
      let (e7, values) = append-eq-nil _ _ e8 in
      let (e6, has_key) = append-eq-nil _ _ e7 in
      let (e5, signer) = append-eq-nil _ _ e6 in
      let (e4, audience) = append-eq-nil _ _ e5 in
      let (e3, hash) = append-eq-nil _ _ e4 in
      let (e2, grant_hash) = append-eq-nil _ _ e3 in
      let (issuer, grant_audience) = append-eq-nil _ _ e2 in
      record {
        issuer = (string_errors_iff "identity_grant" "issuer" missing_expected g.issuer).0 issuer;
        audience =
            (string_errors_iff "identity_grant" "aud" missing_expected g.audience).0 grant_audience;
        grant_hash =
            (string_errors_iff "identity_grant" "grant_hash" missing_expected g.grant_hash).0
              grant_hash;
        same_grant = (matched_errors_iff "grant_hash" g.grant_hash s.grant_hash).0 hash;
        same_audience = (matched_errors_iff "aud" g.audience s.audience).0 audience;
        signer = (signer_errors_iff g s.signer_key).0 signer;
        grant_values = (validate_grant_values_iff g.values).0 values;
        endpoint_keys = (endpoint_keys_iff g.authorized_endpoint_keys).0 keys;
        grant_live = (grant_lifetime_iff g now).0 life;
        session = (statement_binding_iff s.binding now).0 binding;
      }

  statement_errors_complete : Authorized g s now → statement_errors g s now ≡ []
  unfolding statement_errors
  statement_errors_complete a = rw (
    (string_errors_iff "identity_grant" "issuer" missing_expected g.issuer).1 a.issuer,
    (string_errors_iff "identity_grant" "aud" missing_expected g.audience).1 a.audience,
    (string_errors_iff "identity_grant" "grant_hash" missing_expected g.grant_hash).1 a.grant_hash,
    (matched_errors_iff "grant_hash" g.grant_hash s.grant_hash).1 a.same_grant,
    (matched_errors_iff "aud" g.audience s.audience).1 a.same_audience,
    (signer_errors_iff g s.signer_key).1 a.signer,
    has_binding_key_of_allowed g s.signer_key a.signer.allowed,
    (validate_grant_values_iff g.values).1 a.grant_values,
    (endpoint_keys_iff g.authorized_endpoint_keys).1 a.endpoint_keys,
    (grant_lifetime_iff g now).1 a.grant_live,
    (statement_binding_iff s.binding now).1 a.session,
  )

  -- The checks find no error exactly when the grant authorizes the statement.
  pub statement_errors_iff : (statement_errors g s now ≡ []) ↔ Authorized g s now
  statement_errors_iff = (statement_errors_sound, statement_errors_complete)
