-- ===== src/Agtp/GatewayRoute/Fields.antt =====
-- When the loops over the fields of a route assertion find no error.
use session_bound_agent_iden.Common.{
  ◌≡◌, refl, ◌≢◌, ◌↔◌, ◌⊎◌, ◌≤◌, true, false, List, [], ◌∷◌, arith, All, append-eq-nil,
  append_nil_nil,
}
use session_bound_agent_iden.GoString.{Bytes, is_blank}
use session_bound_agent_iden.GoString.Laws.{bytes_eq_iff}
use session_bound_agent_iden.GoTime.{Time}
use session_bound_agent_iden.Agtp.RouteTypes.{ExpectedRoute}
use session_bound_agent_iden.Agtp.GatewayRoute.{
  ObservedField, ExpectedField, has_markup, validate_observed, observed_errors, compare_field,
  compare_fields, holder_field, holder_field_errors, issued_errors, expiry_errors,
  missing_route_errors,
}

-- A value that is there and holds no line break and no angle bracket.
abbrev pub IsClean : Bytes → Type 0
IsClean value = (is_blank value ≡ false) × (has_markup value ≡ false)

pub observed_errors_iff :
    (fs : List ObservedField) → (observed_errors fs ≡ []) ↔ All (λ f. IsClean f.value) fs
unfolding observed_errors
observed_errors_iff [] = (λ h. tt, λ h. refl)
observed_errors_iff (f ∷ fs) =
    let (sound, complete) = observed_errors_iff fs in
    (
      λ h.
          let (here, later) = append-eq-nil (validate_observed f) _ h in
          (ground arith, sound later),
      λ h. append_nil_nil (validate_observed f) _ (ground arith) (complete h.1),
    )

-- The local policy does not fix the field, or its value is clean and was observed.
abbrev pub Matches : ExpectedField → Type 0
Matches f = (is_blank f.want ≡ true) ⊎ ((has_markup f.want ≡ false) × (f.got ≡ f.want))

compare_field_iff : (f : ExpectedField) → (compare_field f ≡ []) ↔ Matches f
unfolding compare_field
compare_field_iff f =
    (λ h. ground (arith, bytes_eq_iff f.want f.got), λ h. ground (arith, bytes_eq_iff f.want f.got))

pub compare_fields_iff : (fs : List ExpectedField) → (compare_fields fs ≡ []) ↔ All Matches fs
unfolding compare_fields
compare_fields_iff [] = (λ h. tt, λ h. refl)
compare_fields_iff (f ∷ fs) =
    let (sound, complete) = compare_fields_iff fs in
    (
      λ h.
          let (here, later) = append-eq-nil (compare_field f) _ h in
          ((compare_field_iff f).0 here, sound later),
      λ h. append_nil_nil (compare_field f) _ ((compare_field_iff f).1 h.0) (complete h.1),
    )

-- The assertion does not name the field, or the proof names the same clean value.
abbrev pub ProofMatches : ExpectedField → Type 0
ProofMatches f = (is_blank f.want ≡ true) ⊎ ((has_markup f.got ≡ false) × (f.got ≡ f.want))

holder_field_iff : (f : ExpectedField) → (holder_field f ≡ []) ↔ ProofMatches f
unfolding holder_field
holder_field_iff f =
    (λ h. ground (arith, bytes_eq_iff f.want f.got), λ h. ground (arith, bytes_eq_iff f.want f.got))

pub holder_fields_iff :
    (fs : List ExpectedField) → (holder_field_errors fs ≡ []) ↔ All ProofMatches fs
unfolding holder_field_errors
holder_fields_iff [] = (λ h. tt, λ h. refl)
holder_fields_iff (f ∷ fs) =
    let (sound, complete) = holder_fields_iff fs in
    (
      λ h.
          let (here, later) = append-eq-nil (holder_field f) _ h in
          ((holder_field_iff f).0 here, sound later),
      λ h. append_nil_nil (holder_field f) _ ((holder_field_iff f).1 h.0) (complete h.1),
    )

pub issued_errors_iff :
    (issued_at now : Time)
    → (issued_errors issued_at now ≡ []) ↔ ((issued_at ≢ 0) × (issued_at ≤ now))
unfolding issued_errors
issued_errors_iff issued_at now = (λ h. ground arith, λ h. ground arith)

pub expiry_errors_iff :
    (expires_at now : Time)
    → (expiry_errors expires_at now ≡ []) ↔ ((expires_at ≢ 0) × (now ≤ expires_at))
unfolding expiry_errors
expiry_errors_iff expires_at now = (λ h. ground arith, λ h. ground arith)

-- The six fields that a route policy has to fix.
pub record IsRoutePolicy (e : ExpectedRoute) : Type 0 where
  pub issuer : is_blank e.issuer ≡ false
  pub audience : is_blank e.audience ≡ false
  pub route_id : is_blank e.route_id ≡ false
  pub policy_id : is_blank e.policy_id ≡ false
  pub target_agent : is_blank e.target_agent ≡ false
  pub context : is_blank e.request_context_sha256 ≡ false

pub missing_route_errors_iff : (e : ExpectedRoute) → (missing_route_errors e ≡ []) ↔ IsRoutePolicy e
unfolding missing_route_errors
missing_route_errors_iff e = (λ h. ground arith, λ h. ground arith)
