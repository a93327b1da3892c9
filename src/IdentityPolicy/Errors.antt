-- ===== src/IdentityPolicy/Errors.antt =====
-- The errors of pkg/atls/identitypolicy: the sentinels, `ValidationError` and `ValidationErrors`.
pub mod Laws
use mathlib.Core.Logic.{ite}
use session_bound_agent_iden.Common.{
  String, Bool, true, false, not, ◌&&◌, ◌||◌, Option, none, some, List, [], ◌∷◌, ◌++◌, str_eq,
  if◌then◌else◌,
}

pub data Err : Type 0 where
  missing_expected missing_observed mismatch invalid_mode unsafe_value value_too_long : Err
  too_many_values missing_binding expired_assertion future_assertion : Err
  unauthorized_binding_key replay_detected missing_set_nx_store replay_store_failed : Err

pub Err-discrete : Discrete Err
Err-discrete = hlevel

-- An `error` that a `ValidationError` can hold: a sentinel, a `*ValidationError`, or an error of
-- a replay cache that the deployment supplies.
pub data Cause : Type 0 where
  sentinel : Err → Cause
  nested : (layer field : String) → Cause → Cause
  foreign : String → Cause

pub record ValidationError : Type 0 where
  pub layer : String
  pub field : String
  pub err : Cause

-- `[]*ValidationError`; a nil pointer is `none`.
abbrev pub ValidationErrors : Type 0
ValidationErrors = List (Option ValidationError)

-- The `error` that the package's functions return; a nil error is `none`.
pub data Error : Type 0 where
  single : ValidationError → Error
  aggregate : ValidationErrors → Error
  plain : Cause → Error

abbrev pub validation_error : String → String → Err → ValidationError
validation_error layer field e = record { layer = layer; field = field; err = sentinel e }

-- `append(errs, validationError(layer, field, err))` onto an empty list
abbrev pub failure : String → String → Err → ValidationErrors
failure layer field e = some (validation_error layer field e) ∷ []

-- The list that `if err != nil { errs = append(errs, validationError(layer, field, err)) }` adds.
abbrev pub failures : String → String → Option Err → ValidationErrors
failures layer field none = []
failures layer field (some e) = failure layer field e

-- `if len(errs) > 0 { return errs }; return nil`
abbrev pub as_error : ValidationErrors → Option Error
as_error [] = none
as_error (e ∷ errs) = some (aggregate (e ∷ errs))

-- The entries that `appendValidationErrors` adds for an error; nil adds none.
abbrev pub error_entries : Option Error → ValidationErrors
error_entries none = []
error_entries (some (aggregate errs)) = errs
error_entries (some (single e)) = some e ∷ []
error_entries (some (plain c)) = some (record { layer = "*"; field = "*"; err = c }) ∷ []

-- `errors.Is(err, target)` for a sentinel target
unfoldable pub is_error : Cause → Err → Bool
unfolding Err-discrete
is_error (sentinel e) target = ite (Err-discrete e target) true false
is_error (nested _ _ c) target = is_error c target
is_error (foreign _) target = false

abbrev target_ok : Cause → Option Err → Bool
unfolding is_error
target_ok c none = true
target_ok c (some target) = is_error c target

-- One round of `Has`: whether the loop does not `continue`.
selected : String → String → Option Err → Option ValidationError → Bool
unfolding target_ok
selected layer field target none = false
selected layer field target (some e) =
    (str_eq layer "" || str_eq e.layer layer)
    && (str_eq field "" || str_eq e.field field)
    && target_ok e.err target

unfoldable pub has : ValidationErrors → String → String → Option Err → Bool
unfolding selected
has [] layer field target = false
has (e ∷ errs) layer field target = selected layer field target e || has errs layer field target

-- `ByLayer`, `ByField` and `nonNil` keep the entries that pass a test, in order.
keep : (ValidationError → Bool) → ValidationErrors → ValidationErrors
keep p [] = []
keep p (none ∷ errs) = keep p errs
keep p (some e ∷ errs) = let rest = keep p errs in if p e then some e ∷ rest else rest

unfoldable pub by_layer : ValidationErrors → String → ValidationErrors
unfolding keep
by_layer errs layer = keep (λ e. str_eq e.layer layer) errs

unfoldable pub by_field : ValidationErrors → String → ValidationErrors
unfolding keep
by_field errs field = keep (λ e. str_eq e.field field) errs

unfoldable pub non_nil : ValidationErrors → ValidationErrors
unfolding keep
non_nil errs = keep (λ e. true) errs
