-- ===== src/IdentityPolicy/Policy/Layers.antt =====
-- When each layer of the policy accepts.
use session_bound_agent_iden.Common.{String, ◌≡◌, ◌↔◌, none, List, All, Any}
use session_bound_agent_iden.IdentityPolicy.Checks.{validate_field_value}
use session_bound_agent_iden.IdentityPolicy.Values.{Values}
use session_bound_agent_iden.IdentityPolicy.Policy.{Field, check_fields, validate_exact_layer}
use session_bound_agent_iden.IdentityPolicy.Policy.Fields.{
  Agrees, IsExpectedField, check_fields_sound, check_fields_complete, has_expected_sound,
  has_expected_complete, layer_result_iff,
}

-- A layer of single-valued fields agrees: some field is expected, and every expected field is
-- well-formed and observed with the same value.
pub record LayerAgrees (expected observed : Values) (fields : List Field) : Type 0 where
  pub agree : All (Agrees validate_field_value expected observed) fields
  pub some_expected : Any (IsExpectedField validate_field_value expected observed) fields

pub validate_exact_layer_iff :
    (layer : String) (expected observed : Values) (fields : List Field)
    → (validate_exact_layer layer expected observed fields ≡ none)
      ↔ LayerAgrees expected observed fields
unfolding validate_exact_layer
validate_exact_layer_iff layer expected observed fields =
    let o = check_fields validate_field_value layer expected observed fields in
    (
      λ h.
          let (found, clean) = (layer_result_iff layer o).0 h in
          record {
            agree = check_fields_sound validate_field_value expected observed layer fields clean;
            some_expected =
                has_expected_sound validate_field_value expected observed layer fields found;
          },
      λ a. (layer_result_iff layer o).1 (
        has_expected_complete validate_field_value expected observed layer fields a.some_expected,
        check_fields_complete validate_field_value expected observed layer fields a.agree,
      ),
    )
