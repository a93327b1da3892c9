-- ===== src/Agtp/Diversion.antt =====
-- pkg/agtp/diversionpolicy/policy.go: the decision on one requested diversion under a static
-- policy. An error is the list of the sentinels that `errors.Is` finds in it, so `[]` is nil: the
-- texts around them, and the nesting of joined errors, are left out.
pub mod Match
pub mod Decide
pub mod Audit
pub mod Tests
use session_bound_agent_iden.Common.{
  Bool, true, false, not, ◌&&◌, ◌||◌, List, [], ◌∷◌, ◌++◌, if◌then◌else◌, is_nil, ltb, any, all,
  length,
}
use session_bound_agent_iden.GoString.{
  Bytes, bytes, bytes_eq, is_blank, trim_space, valid_string, is_control, runes,
}

pub data DiversionErr : Type 0 where
  missing_policy_id missing_rule missing_target missing_reason_code missing_audit_field :
      DiversionErr
  unsupported_version invalid_mode invalid_visibility no_matching_rule hidden_not_allowed :
      DiversionErr
  client_notice_required denied unsafe_value : DiversionErr

pub record Target : Type 0 where
  pub service : Bytes
  pub tenant : Bytes
  pub deployment : Bytes
  pub environment : Bytes
  pub agent : Bytes

pub record Rule : Type 0 where
  pub rule_id : Bytes
  pub original_target : Target
  pub diverted_target : Target
  pub visibility : Bytes
  pub trigger : Bytes
  pub reason_code : Bytes
  pub allowed : Bool
  pub require_client_notice : Bool

pub record Policy : Type 0 where
  pub policy_id : Bytes
  pub version : Bytes
  pub mode : Bytes
  pub audit_fields : List Bytes
  pub rules : List Rule

pub record Request : Type 0 where
  pub original_target : Target
  pub diverted_target : Target
  pub visibility : Bytes
  pub trigger : Bytes
  pub reason_code : Bytes
  pub client_notified : Bool

pub record AuditRecord : Type 0 where
  pub policy_id : Bytes
  pub rule_id : Bytes
  pub original_target : Target
  pub diverted_target : Target
  pub visibility : Bytes
  pub trigger : Bytes
  pub reason_code : Bytes
  pub allowed : Bool

pub record Decision : Type 0 where
  pub allowed : Bool
  pub audit : AuditRecord

abbrev pub visibility_client_visible : Bytes
visibility_client_visible = bytes "client_visible"

abbrev pub visibility_hidden : Bytes
visibility_hidden = bytes "hidden"

-- `a == b` on targets.
unfoldable pub target_eq : Target → Target → Bool
target_eq a b =
    bytes_eq a.service b.service
    && bytes_eq a.tenant b.tenant
    && bytes_eq a.deployment b.deployment
    && bytes_eq a.environment b.environment
    && bytes_eq a.agent b.agent

abbrev pub empty_target : Target
empty_target = record { service = []; tenant = []; deployment = []; environment = []; agent = [] }

unfoldable pub validate_value : Bytes → List DiversionErr
validate_value value =
    if is_blank value || not (bytes_eq value (trim_space value))
    then unsafe_value ∷ []
    else if ltb 512 (length value) || not (valid_string value)
    then unsafe_value ∷ []
    else if any (λ r. is_control r.point) (runes value)
    then unsafe_value ∷ []
    else []

-- An empty component of a target is skipped.
component_ok : Bytes → Bool
unfolding validate_value
component_ok value = is_nil value || is_nil (validate_value value)

-- The map of components is walked in any order: the first bad one gives the same sentinel.
unfoldable pub validate_target : Target → List DiversionErr
unfolding target_eq component_ok
validate_target t =
    if target_eq t empty_target
    then missing_target ∷ []
    else if component_ok t.service
        && component_ok t.tenant
        && component_ok t.deployment
        && component_ok t.environment
        && component_ok t.agent
    then []
    else unsafe_value ∷ []

unfoldable pub validate_visibility : Bytes → List DiversionErr
validate_visibility v =
    if bytes_eq v visibility_client_visible || bytes_eq v visibility_hidden
    then []
    else invalid_visibility ∷ []

-- A required text: its own error when it is empty.
pub required_value : DiversionErr → Bytes → List DiversionErr
unfolding validate_value
required_value missing value = if is_nil value then missing ∷ [] else validate_value value

abbrev pub required_audit_fields : List Bytes
required_audit_fields =
    bytes "policy_id"
    ∷ bytes "original_target"
    ∷ bytes "diverted_target"
    ∷ bytes "trigger"
    ∷ bytes "reason_code"
    ∷ []

-- The map `required` of audit fields, walked in any order: each missing one gives one sentinel.
unfoldable pub validate_audit_fields : List Bytes → List DiversionErr
unfolding validate_value
validate_audit_fields fields =
    if not (all (λ f. is_nil (validate_value f)) fields)
    then unsafe_value ∷ []
    else if all (λ r. any (λ f. bytes_eq f r) fields) required_audit_fields
    then []
    else missing_audit_field ∷ []

-- `Rule.validate`
unfoldable pub validate_rule : Rule → List DiversionErr
unfolding required_value validate_target validate_visibility
validate_rule r =
    required_value missing_rule r.rule_id
    ++ (validate_target r.original_target
        ++ (validate_target r.diverted_target
            ++ (validate_visibility r.visibility
                ++ (validate_value r.trigger
                    ++ (required_value missing_reason_code r.reason_code
                        ++ (if bytes_eq r.visibility visibility_hidden && r.require_client_notice
                            then invalid_visibility ∷ []
                            else []))))))

pub rules_errors : List Rule → List DiversionErr
unfolding validate_rule
rules_errors [] = []
rules_errors (r ∷ rs) = validate_rule r ++ rules_errors rs

pub policy_head_errors : Policy → List DiversionErr
unfolding required_value validate_audit_fields
policy_head_errors p =
    required_value missing_policy_id p.policy_id
    ++ ((if not (bytes_eq p.version (bytes "1")) then unsupported_version ∷ [] else [])
        ++ ((if not (bytes_eq p.mode (bytes "required")) then invalid_mode ∷ [] else [])
            ++ (validate_audit_fields p.audit_fields
                ++ (if is_nil p.rules then missing_rule ∷ [] else []))))

-- `Policy.Validate`
unfoldable pub validate_policy : Policy → List DiversionErr
unfolding policy_head_errors rules_errors
validate_policy p = policy_head_errors p ++ rules_errors p.rules

unfoldable pub validate_request : Request → List DiversionErr
unfolding required_value validate_target validate_visibility
validate_request req =
    validate_target req.original_target
    ++ (validate_target req.diverted_target
        ++ (validate_visibility req.visibility
            ++ (validate_value req.trigger ++ required_value missing_reason_code req.reason_code)))

-- `Rule.matches`
unfoldable pub rule_matches : Rule → Request → Bool
unfolding target_eq
rule_matches r req =
    target_eq r.original_target req.original_target
    && target_eq r.diverted_target req.diverted_target
    && bytes_eq r.visibility req.visibility
    && bytes_eq r.trigger req.trigger
    && bytes_eq r.reason_code req.reason_code

unfoldable pub has_hidden_rule_for : List Rule → Request → Bool
unfolding rule_matches
has_hidden_rule_for rules req =
    any (λ r. bytes_eq r.visibility visibility_hidden && rule_matches r req) rules

unfoldable pub audit_for_request : Bytes → Bytes → Request → Bool → AuditRecord
audit_for_request policy_id rule_id req allowed = record {
  policy_id = policy_id;
  rule_id = rule_id;
  original_target = req.original_target;
  diverted_target = req.diverted_target;
  visibility = req.visibility;
  trigger = req.trigger;
  reason_code = req.reason_code;
  allowed = allowed;
}

abbrev pub empty_decision : Decision
empty_decision = record {
  allowed = false;
  audit = record {
    policy_id = [];
    rule_id = [];
    original_target = empty_target;
    diverted_target = empty_target;
    visibility = [];
    trigger = [];
    reason_code = [];
    allowed = false;
  };
}

-- What `Evaluate` returns at the first matching rule.
pub decide_rule : Bytes → Rule → Request → Decision × List DiversionErr
decide_rule policy_id r req =
    let audit : AuditRecord = record {
      policy_id = policy_id;
      rule_id = r.rule_id;
      original_target = req.original_target;
      diverted_target = req.diverted_target;
      visibility = req.visibility;
      trigger = req.trigger;
      reason_code = req.reason_code;
      allowed = r.allowed;
    } in
    if r.require_client_notice && not req.client_notified
    then (record { allowed = false; audit = audit }, client_notice_required ∷ [])
    else if not r.allowed
    then (record { allowed = false; audit = audit }, denied ∷ [])
    else (record { allowed = true; audit = audit }, [])

abbrev refuse : Bytes → Request → DiversionErr → Decision × List DiversionErr
unfolding audit_for_request
refuse policy_id req e =
    (record { allowed = false; audit = audit_for_request policy_id [] req false }, e ∷ [])

-- The loop of `Evaluate`.
pub decide_rules : Bytes → List Rule → Request → Decision × List DiversionErr
unfolding decide_rule rule_matches audit_for_request
decide_rules policy_id [] req = refuse policy_id req no_matching_rule
decide_rules policy_id (r ∷ rs) req =
    if rule_matches r req then decide_rule policy_id r req else decide_rules policy_id rs req

pub decide_request : Policy → Request → Decision × List DiversionErr
unfolding decide_rules has_hidden_rule_for
decide_request p req =
    if bytes_eq req.visibility visibility_hidden && not (has_hidden_rule_for p.rules req)
    then refuse p.policy_id req hidden_not_allowed
    else decide_rules p.policy_id p.rules req

unfoldable pub evaluate : Policy → Request → Decision × List DiversionErr
unfolding validate_policy validate_request decide_request
evaluate p req = elim (validate_policy p) [
  | e ∷ es ↦ (empty_decision, e ∷ es)
  | [] ↦ elim (validate_request req) [
    | e ∷ es ↦ (empty_decision, e ∷ es)
    | [] ↦ decide_request p req
  ]
]
