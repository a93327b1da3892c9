-- ===== src/IdentityPolicy/Sets.antt =====
-- Set-valued fields of pkg/atls/identitypolicy/policy.go. A `map[string]struct{}` is the list of
-- its keys; the program reads membership and size, and never an order.
pub mod Members
pub mod Collect
pub mod Accept
pub mod Exact
pub mod Contains
use session_bound_agent_iden.Common.{
  ℕ, String, Bool, true, false, not, ◌||◌, Option, none, some, List, [], ◌∷◌, ltb, ◌==◌, str_eq,
  if◌then◌else◌, length, is_nil, Result, ok, err,
}
use session_bound_agent_iden.GoString.{Bytes, bytes_eq, is_blank}
use session_bound_agent_iden.IdentityPolicy.Errors.{
  Err, missing_expected, missing_observed, mismatch, invalid_mode, too_many_values,
}
use session_bound_agent_iden.IdentityPolicy.Checks.{validate_value, max_set_values}
use session_bound_agent_iden.IdentityPolicy.Values.{
  set_mode_default, set_mode_contains_all, set_mode_exact,
}

-- `_, ok := set[value]`
unfoldable pub member : Bytes → List Bytes → Bool
member value [] = false
member value (v ∷ set) = bytes_eq value v || member value set

-- `set[value] = struct{}{}`
unfoldable pub insert : Bytes → List Bytes → List Bytes
unfolding member
insert value set = if member value set then set else value ∷ set

abbrev pub is_missing_expected : Err → Bool
is_missing_expected missing_expected = true
is_missing_expected _ = false

-- The loop of `validatedSet`; the layer and the field of its errors are the caller's.
pub collect : Err → List Bytes → List Bytes → Result Err (List Bytes)
unfolding insert
collect empty_err set [] = ok set
collect empty_err set (value ∷ values) =
    let skip = collect empty_err set values in
    let add = collect empty_err (insert value set) values in
    if is_blank value
    then if is_missing_expected empty_err then err empty_err else skip
    else elim (validate_value value) [ some e ↦ err e | none ↦ add ]

abbrev non_empty_or : Err → List Bytes → Result Err (List Bytes)
non_empty_or empty_err set = if length set == 0 then err empty_err else ok set

infixl 10 ◌>>=◌
abbrev ◌>>=◌ :
    Result Err (List Bytes) → (List Bytes → Result Err (List Bytes)) → Result Err (List Bytes)
ok a >>= f = f a
err e >>= f = err e

unfoldable pub validated_set : List Bytes → Err → Result Err (List Bytes)
unfolding collect
validated_set values empty_err =
    if ltb max_set_values (length values)
    then err too_many_values
    else do set ← collect empty_err [] values; non_empty_or empty_err set

-- `for value := range expected { if !ok { return mismatch } }`
pub missing_value : List Bytes → List Bytes → Option Err
unfolding member
missing_value [] set = none
missing_value (value ∷ values) set =
    if not (member value set) then some mismatch else missing_value values set

pub compare_sets : List Bytes → List Bytes → Option Err
unfolding missing_value
compare_sets expected observed =
    if not (length expected == length observed)
    then some mismatch
    else missing_value expected observed

unfoldable pub require_exact_set : List Bytes → List Bytes → Option Err
unfolding validated_set compare_sets
require_exact_set expected observed = elim (validated_set expected missing_expected) [
  | err e ↦ some e
  | ok expected_set ↦ elim (validated_set observed missing_observed) [
    | err e ↦ some e
    | ok observed_set ↦ compare_sets expected_set observed_set
  ]
]

-- The first loop of `requireContainsAll`.
pub check_expected : List Bytes → Option Err
check_expected [] = none
check_expected (value ∷ values) =
    if is_blank value
    then some missing_expected
    else elim (validate_value value) [ some e ↦ some e | none ↦ check_expected values ]

-- After the loop over the observed values; that loop is `collect` with an error that does not
-- stop at empty values.
pub contains_all : List Bytes → List Bytes → Option Err
unfolding missing_value
contains_all expected seen =
    if length seen == 0 then some missing_observed else missing_value expected seen

unfoldable pub require_contains_all : List Bytes → List Bytes → Option Err
unfolding check_expected collect contains_all
require_contains_all expected observed =
    if ltb max_set_values (length expected) || ltb max_set_values (length observed)
    then some too_many_values
    else elim (check_expected expected) [
      | some e ↦ some e
      | none ↦ elim (collect missing_observed [] observed) [
        | err e ↦ some e
        | ok seen ↦ contains_all expected seen
      ]
    ]

unfoldable pub validate_set : List Bytes → List Bytes → String → Option Err
unfolding require_exact_set require_contains_all
validate_set expected observed set_mode =
    if str_eq set_mode set_mode_default || str_eq set_mode set_mode_exact
    then require_exact_set expected observed
    else if str_eq set_mode set_mode_contains_all
    then require_contains_all expected observed
    else some invalid_mode
