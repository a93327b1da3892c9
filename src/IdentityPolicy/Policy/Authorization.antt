-- ===== src/IdentityPolicy/Policy/Authorization.antt =====
-- When the authorization layer of `validateL6` accepts: three sets and two references.
use session_bound_agent_iden.Common.{
  String, ◌≡◌, refl, ◌↔◌, ◌⊎◌, inl, inr, Bool, true, Option, none, List, [], ◌∷◌, arith, All, Any,
  Bool-cases, append-eq-nil, append_nil_nil, ◌||◌, str_eq, str_eq_iff, ◌≢◌,
}
use session_bound_agent_iden.GoString.{Bytes}
use session_bound_agent_iden.IdentityPolicy.Errors.{Err}
use session_bound_agent_iden.IdentityPolicy.Checks.{validate_reference_value}
use session_bound_agent_iden.IdentityPolicy.Values.{
  Values, set_mode_default, set_mode_exact, set_mode_contains_all,
}
use session_bound_agent_iden.IdentityPolicy.Sets.{validate_set}
use session_bound_agent_iden.IdentityPolicy.Sets.Accept.{SameSet, ContainsSet}
use session_bound_agent_iden.IdentityPolicy.Sets.Exact.{require_exact_set_iff}
use session_bound_agent_iden.IdentityPolicy.Sets.Contains.{require_contains_all_iff}
use session_bound_agent_iden.IdentityPolicy.Policy.{
  check_fields, Outcome, validate_l6, check_set, join, l6_references,
}
use session_bound_agent_iden.IdentityPolicy.Policy.Fields.{
  Agrees, IsExpectedField, check_fields_sound, check_fields_complete, has_expected_sound,
  has_expected_complete, layer_result_iff, failures_nil,
}

-- What `validateSet` asks for in each set mode.
abbrev pub SetAgrees : String → List Bytes → List Bytes → Type 0
SetAgrees set_mode expected observed =
    (((set_mode ≡ set_mode_default) ⊎ (set_mode ≡ set_mode_exact)) × SameSet expected observed)
    ⊎ ((set_mode ≡ set_mode_contains_all) × ContainsSet expected observed)

validate_set_sound :
    (expected observed : List Bytes) (mode : String)
    → validate_set expected observed mode ≡ none
    → SetAgrees mode expected observed
unfolding validate_set
validate_set_sound expected observed mode h = elim (Bool-cases (str_eq mode set_mode_default)) [
  | inl d ↦
      inl (inl ((str_eq_iff _ _).0 d), (require_exact_set_iff expected observed).0 (ground arith))
  | inr nd ↦ elim (Bool-cases (str_eq mode set_mode_exact)) [
    | inl e ↦
        inl (inr ((str_eq_iff _ _).0 e), (require_exact_set_iff expected observed).0 (ground arith))
    | inr ne ↦ elim (Bool-cases (str_eq mode set_mode_contains_all)) [
      | inl c ↦
          inr ((str_eq_iff _ _).0 c, (require_contains_all_iff expected observed).0 (ground arith))
      | inr nc ↦ absurd (ground arith)
    ]
  ]
]

validate_set_complete :
    (expected observed : List Bytes) (mode : String)
    → SetAgrees mode expected observed
    → validate_set expected observed mode ≡ none
unfolding validate_set
validate_set_complete expected observed mode (inl (inl e, s)) =
    rw e ((require_exact_set_iff expected observed).1 s)
validate_set_complete expected observed mode (inl (inr e, s)) =
    rw e ((require_exact_set_iff expected observed).1 s)
validate_set_complete expected observed mode (inr (e, s)) =
    rw e ((require_contains_all_iff expected observed).1 s)

-- One set-valued field: it is not expected, or the two sets agree under the mode.
abbrev pub SetFieldAgrees : String → List Bytes → List Bytes → Type 0
SetFieldAgrees mode expected observed = (expected ≡ []) ⊎ SetAgrees mode expected observed

check_set_sound :
    (name : String) (expected observed : List Bytes) (mode : String)
    → (check_set name expected observed mode).errs ≡ []
    → SetFieldAgrees mode expected observed
unfolding check_set
check_set_sound name [] observed mode h = inl refl
check_set_sound name (v ∷ vs) observed mode h =
    inr (validate_set_sound (v ∷ vs) observed mode (failures_nil "L6" name _ h))

check_set_complete :
    (name : String) (expected observed : List Bytes) (mode : String)
    → SetFieldAgrees mode expected observed
    → (check_set name expected observed mode).errs ≡ []
unfolding check_set
check_set_complete name expected observed mode (inl e) = rw e
check_set_complete name [] observed mode (inr a) = refl
check_set_complete name (v ∷ vs) observed mode (inr a) =
    rw (validate_set_complete (v ∷ vs) observed mode a)

check_set_some :
    (name : String) (expected observed : List Bytes) (mode : String)
    → (check_set name expected observed mode).has_expected ≡ true
    → expected ≢ []
unfolding check_set
check_set_some name [] observed mode h = cc
check_set_some name (v ∷ vs) observed mode h = λ e. cc

check_set_found :
    (name : String) (expected observed : List Bytes) (mode : String)
    → expected ≢ []
    → (check_set name expected observed mode).has_expected ≡ true
unfolding check_set
check_set_found name [] observed mode h = absurd (h refl)
check_set_found name (v ∷ vs) observed mode h = refl

abbrev pub reference_check : String → Bytes → Option Err
reference_check name = validate_reference_value

-- The authorization layer agrees: something is expected, every expected set agrees under the set
-- mode, and so do the two references.
pub record L6Agrees (expected observed : Values) (mode : String) : Type 0 where
  pub scopes : SetFieldAgrees mode expected.scopes observed.scopes
  pub resources : SetFieldAgrees mode expected.resources observed.resources
  pub details : SetFieldAgrees mode expected.authorization_details observed.authorization_details
  pub references : All (Agrees reference_check expected observed) l6_references
  pub some_expected :
      (expected.scopes ≢ [])
      ⊎ (expected.resources ≢ [])
      ⊎ (expected.authorization_details ≢ [])
      ⊎ Any (IsExpectedField reference_check expected observed) l6_references

module _ (expected observed : Values) (mode : String) where
  references : Outcome
  references = check_fields reference_check "L6" expected observed l6_references

  joined : Outcome
  joined = join (check_set "scopes" expected.scopes observed.scopes mode) (
      join (check_set "resources" expected.resources observed.resources mode) (
        join
          (check_set "authorization_details" expected.authorization_details
            observed.authorization_details mode)
          references))

  or_four :
      (a b c d : Bool)
      → (a || (b || (c || d))) ≡ true
      → (a ≡ true) ⊎ (b ≡ true) ⊎ (c ≡ true) ⊎ (d ≡ true)
  or_four a b c d h = ground arith

  joined_some :
      joined.has_expected ≡ true
      → (expected.scopes ≢ [])
        ⊎ (expected.resources ≢ [])
        ⊎ (expected.authorization_details ≢ [])
        ⊎ Any (IsExpectedField reference_check expected observed) l6_references
  unfolding joined references
  joined_some h =
      elim (or_four (check_set "scopes" expected.scopes observed.scopes mode).has_expected
        (check_set "resources" expected.resources observed.resources mode).has_expected
        (check_set "authorization_details" expected.authorization_details
          observed.authorization_details mode).has_expected
        references.has_expected h) [
          | inl a ↦ inl (check_set_some "scopes" _ _ mode a)
          | inr (inl b) ↦ inr (inl (check_set_some "resources" _ _ mode b))
          | inr (inr (inl c)) ↦ inr (inr (inl (check_set_some "authorization_details" _ _ mode c)))
          | inr (inr (inr d)) ↦ inr (
              inr (inr (has_expected_sound reference_check expected observed "L6" l6_references d)))
        ]

  validate_l6_sound : validate_l6 expected observed mode ≡ none → L6Agrees expected observed mode
  unfolding validate_l6 joined references
  validate_l6_sound h =
      let (found, clean) = (layer_result_iff "L6" joined).0 h in
      let (one, rest) = append-eq-nil _ _ clean in
      let (two, rest') = append-eq-nil _ _ rest in
      let (three, four) = append-eq-nil _ _ rest' in
      record {
        scopes = check_set_sound "scopes" _ _ mode one;
        resources = check_set_sound "resources" _ _ mode two;
        details = check_set_sound "authorization_details" _ _ mode three;
        references = check_fields_sound reference_check expected observed "L6" l6_references four;
        some_expected = joined_some found;
      }

  joined_found : L6Agrees expected observed mode → joined.has_expected ≡ true
  unfolding joined references
  joined_found a = elim a.some_expected [
    | inl s ↦ ground (arith, check_set_found "scopes" expected.scopes observed.scopes mode s)
    | inr (inl s) ↦
        ground (arith, check_set_found "resources" expected.resources observed.resources mode s)
    | inr (inr (inl s)) ↦ ground (
      arith,
      check_set_found "authorization_details" expected.authorization_details
          observed.authorization_details mode s,
    )
    | inr (inr (inr s)) ↦
        ground (arith, has_expected_complete reference_check expected observed "L6" l6_references s)
  ]

  validate_l6_complete : L6Agrees expected observed mode → validate_l6 expected observed mode ≡ none
  unfolding validate_l6 joined references
  validate_l6_complete a = (layer_result_iff "L6" joined).1 (
    joined_found a,
    append_nil_nil _ _ (check_set_complete "scopes" _ _ mode a.scopes) (
        append_nil_nil _ _ (check_set_complete "resources" _ _ mode a.resources) (
          append_nil_nil _ _ (check_set_complete "authorization_details" _ _ mode a.details) (
            check_fields_complete reference_check expected observed "L6" l6_references
              a.references))),
  )

  pub validate_l6_iff :
      (validate_l6 expected observed mode ≡ none) ↔ L6Agrees expected observed mode
  validate_l6_iff = (validate_l6_sound, validate_l6_complete)
