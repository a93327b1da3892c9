-- ===== src/IdentityPolicy/Policy/Accept.antt =====
-- When `Validate` and `ValidateAssertion` of pkg/atls/identitypolicy/policy.go accept.
use session_bound_agent_iden.Common.{
  String, ◌≡◌, refl, ◌≢◌, ◌↔◌, ◌⊎◌, inl, inr, Bool, true, false, Option, none, some, List, [], ◌∷◌,
  arith, Bool-cases, append-eq-nil, str_eq_iff,
}
use session_bound_agent_iden.IdentityPolicy.Errors.{
  ValidationError, Error, as_error, aggregate, single, plain,
}
use session_bound_agent_iden.IdentityPolicy.Errors.Laws.{as_error_nil}
use session_bound_agent_iden.IdentityPolicy.Values.{
  Values, Policy, mode_default, mode_disabled, mode_required, set_mode_default, set_mode_exact,
  set_mode_contains_all, effective_set_mode, validate_mode, any_required,
}
use session_bound_agent_iden.IdentityPolicy.Policy.{
  Field, Outcome, layer_result, validate, validate_exact_layer, validate_l6, layer_errors,
  mode_errors, l3_fields, l4_fields, l5_fields,
}
use session_bound_agent_iden.IdentityPolicy.Policy.Fields.{failures_nil}
use session_bound_agent_iden.IdentityPolicy.Policy.Layers.{LayerAgrees, validate_exact_layer_iff}
use session_bound_agent_iden.IdentityPolicy.Policy.Authorization.{L6Agrees, validate_l6_iff}

-- The observed values meet the policy.
pub record Accepted (p : Policy) (observed : Values) : Type 0 where
  pub mode_known : (p.mode ≡ mode_default) ⊎ (p.mode ≡ mode_disabled) ⊎ (p.mode ≡ mode_required)
  pub set_mode_known :
      (p.set_mode ≡ set_mode_default)
      ⊎ (p.set_mode ≡ set_mode_contains_all)
      ⊎ (p.set_mode ≡ set_mode_exact)
  pub some_layer : p.mode ≡ mode_required → any_required p.require ≡ true
  pub l3 : p.require.l3 ≡ true → LayerAgrees p.expected observed l3_fields
  pub l4 : p.require.l4 ≡ true → LayerAgrees p.expected observed l4_fields
  pub l5 : p.require.l5 ≡ true → LayerAgrees p.expected observed l5_fields
  pub l6 : p.require.l6 ≡ true → L6Agrees p.expected observed (effective_set_mode p)

-- The errors of a layer function are entries as soon as there is an error: no aggregate is empty.
layer_errors_nil :
    (required : Bool) (e : Option Error)
    → (e ≢ some (aggregate []))
    → layer_errors required e ≡ []
    → required ≡ true
    → e ≡ none
layer_errors_nil required none n h r = refl
layer_errors_nil required (some (single e)) n h r = ground arith
layer_errors_nil required (some (aggregate [])) n h r = absurd (n refl)
layer_errors_nil required (some (aggregate (e ∷ es))) n h r = ground arith
layer_errors_nil required (some (plain c)) n h r = ground arith

layer_errors-none :
    (required : Bool) (e : Option Error)
    → (required ≡ true → e ≡ none)
    → layer_errors required e ≡ []
layer_errors-none true e h = rw (h refl)
layer_errors-none false e h = refl

as_error-ne-empty : (errs : List (Option ValidationError)) → as_error errs ≢ some (aggregate [])
as_error-ne-empty [] = λ e. cc
as_error-ne-empty (x ∷ errs) = λ e. cc

layer_result-ne-empty : (layer : String) (o : Outcome) → layer_result layer o ≢ some (aggregate [])
layer_result-ne-empty layer o e = elim (Bool-cases o.has_expected) [
  | inl h ↦ as_error-ne-empty o.errs (rw h at e)
  | inr h ↦ ground arith
]

exact_layer-ne-empty :
    (layer : String) (expected observed : Values) (fields : List Field)
    → validate_exact_layer layer expected observed fields ≢ some (aggregate [])
unfolding validate_exact_layer
exact_layer-ne-empty layer expected observed fields = layer_result-ne-empty layer _

l6-ne-empty :
    (expected observed : Values) (mode : String)
    → validate_l6 expected observed mode ≢ some (aggregate [])
unfolding validate_l6
l6-ne-empty expected observed mode = layer_result-ne-empty "L6" _

module _ (required : Bool) (layer : String) (expected observed : Values) (fields : List Field) where
  required_layer_sound :
      layer_errors required (validate_exact_layer layer expected observed fields) ≡ []
      → required ≡ true
      → LayerAgrees expected observed fields
  required_layer_sound h r =
      (validate_exact_layer_iff layer expected observed fields).0
        (layer_errors_nil required _ (exact_layer-ne-empty layer expected observed fields) h r)

  required_layer_complete :
      (required ≡ true → LayerAgrees expected observed fields)
      → layer_errors required (validate_exact_layer layer expected observed fields) ≡ []
  required_layer_complete a =
      layer_errors-none required _
        (λ r. (validate_exact_layer_iff layer expected observed fields).1 (a r))

validate_mode_sound :
    (p : Policy)
    → validate_mode p ≡ none
    → ((p.mode ≡ mode_default) ⊎ (p.mode ≡ mode_disabled) ⊎ (p.mode ≡ mode_required))
      × ((p.set_mode ≡ set_mode_default)
          ⊎ (p.set_mode ≡ set_mode_contains_all)
          ⊎ (p.set_mode ≡ set_mode_exact))
unfolding validate_mode
validate_mode_sound p h = ground (
  arith,
  str_eq_iff p.mode mode_default,
  str_eq_iff p.mode mode_disabled,
  str_eq_iff p.mode mode_required,
  str_eq_iff p.set_mode set_mode_default,
  str_eq_iff p.set_mode set_mode_contains_all,
  str_eq_iff p.set_mode set_mode_exact,
)

validate_mode_complete :
    (p : Policy) (observed : Values) → Accepted p observed → validate_mode p ≡ none
unfolding validate_mode
validate_mode_complete p observed a = ground (
  arith,
  a.mode_known,
  a.set_mode_known,
  str_eq_iff p.mode mode_default,
  str_eq_iff p.mode mode_disabled,
  str_eq_iff p.mode mode_required,
  str_eq_iff p.set_mode set_mode_default,
  str_eq_iff p.set_mode set_mode_contains_all,
  str_eq_iff p.set_mode set_mode_exact,
)

mode_errors_sound :
    (p : Policy)
    → mode_errors p ≡ []
    → (validate_mode p ≡ none) × (p.mode ≡ mode_required → any_required p.require ≡ true)
unfolding mode_errors
mode_errors_sound p h =
    let (one, two) = append-eq-nil _ _ h in
    (failures_nil "policy" "mode" _ one, λ e. ground (arith, str_eq_iff p.mode mode_required))

mode_errors_complete : (p : Policy) (observed : Values) → Accepted p observed → mode_errors p ≡ []
unfolding mode_errors
mode_errors_complete p observed a =
    rw (validate_mode_complete p observed a)
      (ground (arith, a.some_layer, str_eq_iff p.mode mode_required))

validate_sound : (p : Policy) (observed : Values) → validate p observed ≡ none → Accepted p observed
unfolding validate
validate_sound p observed h =
    let (front, six) = append-eq-nil _ _ (as_error_nil _ h) in
    let (front', five) = append-eq-nil _ _ front in
    let (front'', four) = append-eq-nil _ _ front' in
    let (modes, three) = append-eq-nil _ _ front'' in
    let (mode, layer) = mode_errors_sound p modes in
    let (known, set_known) = validate_mode_sound p mode in
    record {
      mode_known = known;
      set_mode_known = set_known;
      some_layer = layer;
      l3 = required_layer_sound p.require.l3 "L3" p.expected observed l3_fields three;
      l4 = required_layer_sound p.require.l4 "L4" p.expected observed l4_fields four;
      l5 = required_layer_sound p.require.l5 "L5" p.expected observed l5_fields five;
      l6 = λ r. (validate_l6_iff p.expected observed (effective_set_mode p)).0 (
          layer_errors_nil p.require.l6 _ (l6-ne-empty p.expected observed (effective_set_mode p))
            six r);
    }

validate_complete :
    (p : Policy) (observed : Values) → Accepted p observed → validate p observed ≡ none
unfolding validate
validate_complete p observed a =
    let l3 = required_layer_complete p.require.l3 "L3" p.expected observed l3_fields a.l3 in
    let l4 = required_layer_complete p.require.l4 "L4" p.expected observed l4_fields a.l4 in
    let l5 = required_layer_complete p.require.l5 "L5" p.expected observed l5_fields a.l5 in
    let l6 =
      layer_errors-none p.require.l6 (validate_l6 p.expected observed (effective_set_mode p))
        (λ r. (validate_l6_iff p.expected observed (effective_set_mode p)).1 (a.l6 r)) in
    rw (mode_errors_complete p observed a, l3, l4, l5, l6)

-- `Validate` accepts exactly the observed values that meet the policy: the two modes are known,
-- mode "required" names a layer, and every required layer agrees with the expected values.
pub validate_iff :
    (p : Policy) (observed : Values) → (validate p observed ≡ none) ↔ Accepted p observed
validate_iff p observed = (validate_sound p observed, validate_complete p observed)
