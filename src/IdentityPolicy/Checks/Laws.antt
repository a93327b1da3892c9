-- ===== src/IdentityPolicy/Checks/Laws.antt =====
-- What an accepted value looks like.
use session_bound_agent_iden.Common.{
  String, ◌≡◌, ◌≤◌, true, false, none, arith, length, any, ◌==◌, ◌||◌,
}
use session_bound_agent_iden.GoString.{Bytes, runes, valid_string, is_control}
use session_bound_agent_iden.IdentityPolicy.Checks.{
  is_unsafe, validate_value, validate_reference_value, validate_field_value, max_value_length,
}

-- An accepted value is at most 1024 bytes of valid UTF-8, with no control character and no angle
-- bracket; and every such value is accepted.
pub record IsPlainValue (value : Bytes) : Type 0 where
  pub short : length value ≤ max_value_length
  pub utf8 : valid_string value ≡ true
  pub clean :
      any (λ r. is_control r.point || r.point == b'<' || r.point == b'>') (runes value) ≡ false

pub validate_value_sound : (value : Bytes) → validate_value value ≡ none → IsPlainValue value
unfolding validate_value is_unsafe
validate_value_sound value h = ground arith

pub validate_value_complete : (value : Bytes) → IsPlainValue value → validate_value value ≡ none
unfolding validate_value is_unsafe
validate_value_complete value h = ground arith

pub validate_value_of_reference :
    (value : Bytes) → validate_reference_value value ≡ none → validate_value value ≡ none
unfolding validate_reference_value
validate_value_of_reference value h = ground arith

-- Every field's check includes the plain check.
pub validate_value_of_field :
    (name : String) (value : Bytes)
    → validate_field_value name value ≡ none
    → validate_value value ≡ none
unfolding validate_field_value
validate_value_of_field name value h = ground (arith, validate_value_of_reference value)
