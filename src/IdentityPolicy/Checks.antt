-- ===== src/IdentityPolicy/Checks.antt =====
-- The string checks at the end of pkg/atls/identitypolicy/policy.go: length, control characters,
-- and the form of reference values.
pub mod Laws
use session_bound_agent_iden.Common.{
  String, Bool, true, false, not, ◌&&◌, ◌||◌, Option, none, some, ltb, ◌==◌, str_eq, if◌then◌else◌,
  length, any, ℕ,
}
use session_bound_agent_iden.GoString.{
  Bytes, bytes, Rune, runes, valid_string, is_control, is_space, has_prefix, has_suffix, is_blank,
}
use session_bound_agent_iden.IdentityPolicy.Errors.{Err, unsafe_value, value_too_long}

abbrev pub max_value_length : ℕ
max_value_length = 1024

abbrev pub max_set_values : ℕ
max_set_values = 128

-- `isEmpty` is `is_blank` of GoString.
unfoldable pub is_unsafe : Bytes → Bool
is_unsafe value =
    if not (valid_string value)
    then true
    else any (λ r. is_control r.point || r.point == b'<' || r.point == b'>') (runes value)

unfoldable pub validate_value : Bytes → Option Err
validate_value value =
    if ltb max_value_length (length value)
    then some value_too_long
    else if is_unsafe value
    then some unsafe_value
    else none

-- The loop of `validateReferenceValue` that returns at the first rune out of range.
bad_reference_rune : Rune → Bool
bad_reference_rune r = ltb r.point b'!' || ltb b'~' r.point || is_space r.point

unfoldable pub validate_reference_value : Bytes → Option Err
unfolding bad_reference_rune
validate_reference_value value = elim (validate_value value) [
  | some e ↦ some e
  | none ↦
      if any bad_reference_rune (runes value)
      then some unsafe_value
      else if not (any (λ r. r.point == b':') (runes value))
          || has_prefix value (bytes ":")
          || has_suffix value (bytes ":")
      then some unsafe_value
      else none
]

-- The fields whose values are references.
unfoldable pub is_reference_field : String → Bool
is_reference_field name =
    str_eq name "intent_ref" || str_eq name "capability_ref" || str_eq name "ontology_id"

unfoldable pub validate_field_value : String → Bytes → Option Err
unfolding is_reference_field
validate_field_value name value =
    if is_reference_field name then validate_reference_value value else validate_value value
