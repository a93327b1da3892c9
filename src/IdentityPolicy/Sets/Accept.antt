-- ===== src/IdentityPolicy/Sets/Accept.antt =====
-- When the set checks of pkg/atls/identitypolicy/policy.go accept.
use session_bound_agent_iden.Common.{
  ◌≤◌, ◌≡◌, refl, ◌≢◌, true, false, List, [], ◌∷◌, arith, All, ok, none, length, Result-cases, inl,
  inr,
}
use session_bound_agent_iden.GoString.{Bytes, is_blank}
use session_bound_agent_iden.GoString.Laws.{bytes_eq_iff, bytes_eq_refl}
use session_bound_agent_iden.IdentityPolicy.Errors.{Err, missing_expected, missing_observed}
use session_bound_agent_iden.IdentityPolicy.Checks.{validate_value, max_set_values}
use session_bound_agent_iden.IdentityPolicy.Sets.{member, collect, missing_value, validated_set}
use session_bound_agent_iden.IdentityPolicy.Sets.Members.{Includes}
use session_bound_agent_iden.IdentityPolicy.Sets.Collect.{Passes}

-- An expected value: neither empty nor ill-formed.
abbrev pub IsExpected : Bytes → Type 0
IsExpected v = (is_blank v ≡ false) × (validate_value v ≡ none)

-- An observed value: empty values are ignored, and the others are well-formed.
abbrev pub IsObserved : Bytes → Type 0
IsObserved v = is_blank v ≡ false → validate_value v ≡ none

-- Both lists are short and well-formed, and hold the same non-empty values, one at least.
pub record SameSet (expected observed : List Bytes) : Type 0 where
  pub expected_few : length expected ≤ max_set_values
  pub observed_few : length observed ≤ max_set_values
  pub expected_some : expected ≢ []
  pub expected_valid : All IsExpected expected
  pub observed_valid : All IsObserved observed
  pub same : (v : Bytes) → is_blank v ≡ false → member v expected ≡ member v observed

-- As `SameSet`, where the observed values may be more than the expected ones.
pub record ContainsSet (expected observed : List Bytes) : Type 0 where
  pub expected_few : length expected ≤ max_set_values
  pub observed_few : length observed ≤ max_set_values
  pub observed_some : (v : Bytes) × (is_blank v ≡ false) × (member v observed ≡ true)
  pub expected_valid : All IsExpected expected
  pub observed_valid : All IsObserved observed
  pub inside : (v : Bytes) → member v expected ≡ true → member v observed ≡ true

pub missing_value_sound :
    (values set : List Bytes) → missing_value values set ≡ none → Includes values set
unfolding missing_value member
missing_value_sound [] set h v m = cc
missing_value_sound (w ∷ values) set h v m = ground (
  arith,
  bytes_eq_iff v w,
  λ (q : missing_value values set ≡ none). missing_value_sound values set q v,
)

pub missing_value_complete :
    (values set : List Bytes) → Includes values set → missing_value values set ≡ none
unfolding missing_value member
missing_value_complete [] set h = refl
missing_value_complete (w ∷ values) set h =
    ground
      (arith, h w, bytes_eq_refl w, missing_value_complete values set (λ v m. h v (ground arith)))

pub expected-Passes : (vs : List Bytes) → All IsExpected vs → All (Passes missing_expected) vs
expected-Passes [] h = tt
expected-Passes (v ∷ vs) (p, h) = (ground arith, expected-Passes vs h)

pub IsExpected-of_Passes : (vs : List Bytes) → All (Passes missing_expected) vs → All IsExpected vs
IsExpected-of_Passes [] h = tt
IsExpected-of_Passes (v ∷ vs) (p, h) = (ground arith, IsExpected-of_Passes vs h)

pub observed-Passes : (vs : List Bytes) → All IsObserved vs → All (Passes missing_observed) vs
observed-Passes [] h = tt
observed-Passes (v ∷ vs) (p, h) = ((λ b. refl, p), observed-Passes vs h)

pub IsObserved-of_Passes : (vs : List Bytes) → All (Passes missing_observed) vs → All IsObserved vs
IsObserved-of_Passes [] h = tt
IsObserved-of_Passes (v ∷ vs) (p, h) = (p.1, IsObserved-of_Passes vs h)

pub blank_not_expected :
    (v : Bytes) (vs : List Bytes) → All IsExpected vs → member v vs ≡ true → is_blank v ≡ false
unfolding member
blank_not_expected v [] h m = cc
blank_not_expected v (w ∷ vs) (p, h) m = ground (arith, bytes_eq_iff v w, blank_not_expected v vs h)

pub validated_set_parts :
    (values : List Bytes) (e : Err) (set : List Bytes)
    → validated_set values e ≡ ok set
    → (length values ≤ max_set_values) × (collect e [] values ≡ ok set) × (length set ≢ 0)
unfolding validated_set
validated_set_parts values e set h = elim (Result-cases (collect e [] values)) [
  | inl (out, k) ↦ ground arith
  | inr (x, k) ↦ ground arith
]
