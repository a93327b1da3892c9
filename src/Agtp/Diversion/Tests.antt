-- ===== src/Agtp/Diversion/Tests.antt =====
-- Tests of the diversion policy, and its theorems at concrete inputs.
use session_bound_agent_iden.Common.{Any, ◌≡◌, refl, ◌↔◌, true, false, List, [], ◌∷◌}
use session_bound_agent_iden.GoString.{
  bytes, bytes_eq, is_blank, trim_space, valid_string, is_control, runes,
}
use session_bound_agent_iden.Agtp.Diversion.{
  Rule, Target, Rule, Policy, Request, evaluate, validate_policy, validate_request, empty_target,
  client_notice_required, hidden_not_allowed, audit_for_request, required_audit_fields,
  visibility_hidden, rule_matches, validate_value, validate_target, validate_visibility,
  validate_audit_fields, validate_rule, target_eq, has_hidden_rule_for,
}
use session_bound_agent_iden.Agtp.Diversion.Match.{here, SameDiversion}
use session_bound_agent_iden.Agtp.Diversion.Decide.{Permitted, evaluate_iff}
use session_bound_agent_iden.Agtp.Diversion.Audit.{
  PermittingRule, Records, evaluate-Records, evaluate-Permitted, notice_refusal,
  hidden_needs_hidden_rule,
}

diversion_code : Unit {0}
unfolding evaluate validate_policy validate_request bytes_eq is_blank trim_space valid_string
    is_control runes audit_for_request rule_matches validate_value validate_target
    validate_visibility validate_audit_fields validate_rule target_eq has_hidden_rule_for
diversion_code = tt

abbrev primary : Target
primary = record empty_target { service = bytes "billing" }

abbrev backup : Target
backup = record empty_target { service = bytes "billing-2" }

abbrev rule : Rule
rule = record {
  rule_id = bytes "r1";
  original_target = primary;
  diverted_target = backup;
  visibility = visibility_hidden;
  trigger = bytes "overload";
  reason_code = bytes "capacity";
  allowed = true;
  require_client_notice = false;
}

abbrev noticed : Rule
noticed = record rule { visibility = bytes "client_visible"; require_client_notice = true }

abbrev policy_of : List Rule → Policy
policy_of rules = record {
  policy_id = bytes "p1";
  version = bytes "1";
  mode = bytes "required";
  audit_fields = required_audit_fields;
  rules = rules;
}

abbrev request : Request
request = record {
  original_target = primary;
  diverted_target = backup;
  visibility = visibility_hidden;
  trigger = bytes "overload";
  reason_code = bytes "capacity";
  client_notified = false;
}

abbrev visible : Request
visible = record request { visibility = bytes "client_visible" }

abbrev hidden_policy : Policy
hidden_policy = policy_of (rule ∷ [])

abbrev notice_policy : Policy
notice_policy = policy_of (noticed ∷ [])

request_allowed : (evaluate hidden_policy request).1 ≡ []
unfolding diversion_code
request_allowed = refl

hidden_refused : (evaluate notice_policy request).1 ≡ hidden_not_allowed ∷ []
unfolding diversion_code
hidden_refused = refl

hidden_policy_valid : validate_policy hidden_policy ≡ []
unfolding diversion_code
hidden_policy_valid = refl

notice_policy_valid : validate_policy notice_policy ≡ []
unfolding diversion_code
notice_policy_valid = refl

visible_valid : validate_request visible ≡ []
unfolding diversion_code
visible_valid = refl

request_valid : validate_request request ≡ []
unfolding diversion_code
request_valid = refl

same : SameDiversion rule request
same = record {
  original_target = refl;
  diverted_target = refl;
  visibility = refl;
  trigger = refl;
  reason_code = refl;
}

permitted : Permitted hidden_policy request
permitted = record {
  policy_valid = hidden_policy_valid;
  request_valid = request_valid;
  rule = rule;
  first = here same;
  through = (refl, λ h. cc);
}

evaluate_iff_example : ((evaluate hidden_policy request).1 ≡ []) ↔ Permitted hidden_policy request
evaluate_iff_example = evaluate_iff hidden_policy request

evaluate-Records_example : Records notice_policy visible (evaluate notice_policy visible).0.audit
evaluate-Records_example = evaluate-Records notice_policy visible notice_policy_valid visible_valid

evaluate-Permitted_example : (evaluate hidden_policy request).0 ≡ record {
  allowed = true;
  audit = record {
    policy_id = bytes "p1";
    rule_id = permitted.rule.rule_id;
    original_target = request.original_target;
    diverted_target = request.diverted_target;
    visibility = request.visibility;
    trigger = request.trigger;
    reason_code = request.reason_code;
    allowed = true;
  };
}
evaluate-Permitted_example = evaluate-Permitted hidden_policy request permitted

notice_refusal_example :
    ((evaluate notice_policy visible).1 ≡ client_notice_required ∷ [])
    × ((evaluate notice_policy visible).0.allowed ≡ false)
    × ((evaluate notice_policy visible).0.audit.allowed ≡ true)
notice_refusal_example =
    notice_refusal notice_policy visible notice_policy_valid visible_valid noticed
      (here (record {
        original_target = refl;
        diverted_target = refl;
        visibility = refl;
        trigger = refl;
        reason_code = refl;
      }))
      refl refl refl

hidden_allowed : (evaluate hidden_policy request).1 ≡ []
unfolding diversion_code
hidden_allowed = refl

hidden_needs_hidden_rule_example :
    (r : Rule) × Any (λ x. x ≡ r) hidden_policy.rules
    × PermittingRule r request
    × ((evaluate hidden_policy request).0.audit.rule_id ≡ r.rule_id)
hidden_needs_hidden_rule_example =
    hidden_needs_hidden_rule hidden_policy request hidden_allowed refl
