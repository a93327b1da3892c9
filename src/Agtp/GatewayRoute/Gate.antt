-- ===== src/Agtp/GatewayRoute/Gate.antt =====
-- The whole of `Validate` of pkg/agtp/gatewayroute/route.go, the replay cache included.
use session_bound_agent_iden.Common.{
  ◌≡◌, refl, ◌≢◌, ◌↔◌, ◌⊎◌, inl, inr, Option, none, some, List, [], ◌∷◌, arith,
}
use session_bound_agent_iden.GoTime.{Time}
use session_bound_agent_iden.IdentityPolicy.Replay.{ReplayCache}
use session_bound_agent_iden.Agtp.RouteTypes.{
  FieldError, Assertion, HolderOfKeyProof, ExpectedRoute,
}
use session_bound_agent_iden.Agtp.GatewayRoute.{
  route_errors, validate, effective_now, mark_route, replay_key,
}
use session_bound_agent_iden.Agtp.GatewayRoute.Accept.{RouteAccepted, route_errors_iff}

-- Whether the cache, if there is one, accepts the assertion's key.
abbrev pub RouteCacheAccepts : {S : Type 0} → Option (ReplayCache S) → S → Assertion → Type 0
RouteCacheAccepts none c a = Unit
RouteCacheAccepts (some cache) c a = (cache.mark_used c (replay_key a) a.expires_at).1 ≡ none

mark_route_iff :
    {S : Type 0} (cache : Option (ReplayCache S)) (c : S) (a : Assertion)
    → ((mark_route cache c a).1 ≡ none) ↔ RouteCacheAccepts cache c a
unfolding mark_route
mark_route_iff none c a = (λ h. tt, λ h. refl)
mark_route_iff (some cache) c a = (λ h. ground arith, λ h. ground arith)

errors-cases :
    (errs : List FieldError)
    → (errs ≡ []) ⊎ ((x : FieldError) × (r : List FieldError) × (errs ≡ x ∷ r))
errors-cases [] = inl refl
errors-cases (x ∷ r) = inr (x, r, refl)

module _ {S : Type 0} (a : Assertion) (p : Option HolderOfKeyProof) (e : ExpectedRoute)
    (now wall : Time) (cache : Option (ReplayCache S)) (c : S) where
  gate_sound :
      (validate a p e now wall cache c).1 ≡ none
      → RouteAccepted a p e (effective_now now wall) × RouteCacheAccepts cache c a
  unfolding validate
  gate_sound h = elim (errors-cases (route_errors a p e (effective_now now wall))) [
    | inl clean ↦ (
      (route_errors_iff a e (effective_now now wall) p).0 clean,
      (mark_route_iff cache c a).0 (rw (clean, validate) at h),
    )
    | inr (x, r, found) ↦ absurd (ground arith)
  ]

  -- A route assertion is accepted exactly when its checks find no error at the time of the
  -- options, or of the clock if the options give none, and the replay cache accepts its key.
  pub validate_route_iff :
      ((validate a p e now wall cache c).1 ≡ none)
      ↔ (RouteAccepted a p e (effective_now now wall) × RouteCacheAccepts cache c a)
  unfolding validate
  validate_route_iff = (
    gate_sound,
    λ r.
        rw ((route_errors_iff a e (effective_now now wall) p).1 r.0, validate)
          ((mark_route_iff cache c a).1 r.1),
  )

  -- The replay cache changes only for an assertion whose checks find no error.
  pub rejected_keeps_cache :
      (validate a p e now wall cache c).0 ≢ c → RouteAccepted a p e (effective_now now wall)
  unfolding validate
  rejected_keeps_cache h = elim (errors-cases (route_errors a p e (effective_now now wall))) [
    | inl clean ↦ (route_errors_iff a e (effective_now now wall) p).0 clean
    | inr (x, r, found) ↦ absurd (h (rw (found, validate)))
  ]
