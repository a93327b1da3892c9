-- ===== src/IdentityPolicy/Policy/Fields.antt =====
-- When the comparison of a layer's fields finds no error.
use session_bound_agent_iden.Common.{
  String, ◌≡◌, refl, ◌↔◌, ◌⊎◌, inl, inr, true, false, Option, none, some, List, [], ◌∷◌, arith, All,
  Any, Bool-cases, append-eq-nil,
}
use session_bound_agent_iden.GoString.{Bytes, is_blank}
use session_bound_agent_iden.GoString.Laws.{bytes_eq_iff}
use session_bound_agent_iden.IdentityPolicy.Errors.{Err, failures}
use session_bound_agent_iden.IdentityPolicy.Errors.Laws.{as_error_nil}
use session_bound_agent_iden.IdentityPolicy.Values.{Values}
use session_bound_agent_iden.IdentityPolicy.Policy.{
  Field, check_value, check_fields, Outcome, layer_result,
}

-- An expected value that passes its check is met by the same value and by no other.
pub check_value_iff :
    (check : Bytes → Option Err) (want got : Bytes)
    → is_blank want ≡ false
    → (check_value check want got ≡ none) ↔ ((check want ≡ none) × (got ≡ want))
unfolding check_value
check_value_iff check want got n = (
  λ h. ground (arith, bytes_eq_iff got want),
  λ h. let (valid, same) = h in ground (arith, bytes_eq_iff got want),
)

pub failures_nil : (layer name : String) (e : Option Err) → failures layer name e ≡ [] → e ≡ none
failures_nil layer name none h = refl
failures_nil layer name (some e) h = cc

module _ (check : String → Bytes → Option Err) (expected observed : Values) where
  -- The field is not expected, or its expected value passes the check and is what was observed.
  abbrev pub Agrees : Field → Type 0
  Agrees f =
      (is_blank (f.get expected) ≡ true)
      ⊎ ((check f.name (f.get expected) ≡ none) × (f.get observed ≡ f.get expected))

  abbrev pub IsExpectedField : Field → Type 0
  IsExpectedField f = is_blank (f.get expected) ≡ false

  pub check_fields_sound :
      (layer : String) (fs : List Field)
      → (check_fields check layer expected observed fs).errs ≡ []
      → All Agrees fs
  unfolding check_fields
  check_fields_sound layer [] h = tt
  check_fields_sound layer (f ∷ fs) h = elim (Bool-cases (is_blank (f.get expected))) [
    | inl b ↦ (inl b, check_fields_sound layer fs (ground arith))
    | inr n ↦
        let (here, later) = append-eq-nil _ _ (rw n at h) in
        (
          inr (
              (check_value_iff (check f.name) (f.get expected) (f.get observed) n).0
                (failures_nil layer f.name _ here)),
          check_fields_sound layer fs later,
        )
  ]

  pub check_fields_complete :
      (layer : String) (fs : List Field)
      → All Agrees fs
      → (check_fields check layer expected observed fs).errs ≡ []
  unfolding check_fields
  check_fields_complete layer [] h = refl
  check_fields_complete layer (f ∷ fs) (inl b, h) = rw b (check_fields_complete layer fs h)
  check_fields_complete layer (f ∷ fs) (inr agrees, h) =
      elim (Bool-cases (is_blank (f.get expected))) [
        | inl b ↦ rw b (check_fields_complete layer fs h)
        | inr n ↦
            let e = (check_value_iff (check f.name) (f.get expected) (f.get observed) n).1 agrees in
            rw (n, e) (check_fields_complete layer fs h)
      ]

  pub has_expected_sound :
      (layer : String) (fs : List Field)
      → (check_fields check layer expected observed fs).has_expected ≡ true
      → Any IsExpectedField fs
  unfolding check_fields
  has_expected_sound layer [] h = cc
  has_expected_sound layer (f ∷ fs) h = elim (Bool-cases (is_blank (f.get expected))) [
    | inl b ↦ inr (has_expected_sound layer fs (rw b at h))
    | inr n ↦ inl n
  ]

  pub has_expected_complete :
      (layer : String) (fs : List Field)
      → Any IsExpectedField fs
      → (check_fields check layer expected observed fs).has_expected ≡ true
  unfolding check_fields
  has_expected_complete layer [] h = absurd h
  has_expected_complete layer (f ∷ fs) (inl n) = rw n
  has_expected_complete layer (f ∷ fs) (inr h) = elim (Bool-cases (is_blank (f.get expected))) [
    | inl b ↦ rw b (has_expected_complete layer fs h)
    | inr n ↦ rw n
  ]

pub layer_result_iff :
    (layer : String) (o : Outcome)
    → (layer_result layer o ≡ none) ↔ ((o.has_expected ≡ true) × (o.errs ≡ []))
layer_result_iff layer o =
    (λ h. (ground arith, as_error_nil o.errs (ground arith)), λ h. rw (h.0, h.1))
