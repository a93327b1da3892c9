-- ===== src/Agtp/Diversion/Audit.antt =====
-- What a diversion decision records for the audit log.
use session_bound_agent_iden.Common.{
  Any, ap, refl, ◌≡◌, ◌∙◌, inl, inr, true, false, not, ◌&&◌, List, [], ◌∷◌, arith, Bool-cases,
  append-eq-nil,
}
use session_bound_agent_iden.GoString.{bytes_eq}
use session_bound_agent_iden.Agtp.Diversion.{
  Decision, client_notice_required, Rule, Policy, Request, rule_matches, has_hidden_rule_for,
  visibility_hidden, validate_policy, validate_request, decide_rule, decide_rules, decide_request,
  evaluate, audit_for_request, policy_head_errors, AuditRecord,
}
use session_bound_agent_iden.Agtp.Diversion.Match.{
  here, later, FirstMatch, hidden_match_silent, SameDiversion-FirstMatch,
}
use session_bound_agent_iden.Agtp.Diversion.Decide.{
  evaluate_sound, Permitted, evaluate_valid, decide_request_first,
}

-- The record names the policy and repeats the request.
pub record Records (p : Policy) (req : Request) (a : AuditRecord) : Type 0 where
  pub policy_id : a.policy_id ≡ p.policy_id
  pub original_target : a.original_target ≡ req.original_target
  pub diverted_target : a.diverted_target ≡ req.diverted_target
  pub visibility : a.visibility ≡ req.visibility
  pub trigger : a.trigger ≡ req.trigger
  pub reason_code : a.reason_code ≡ req.reason_code

decide_rule-Records :
    (p : Policy) (r : Rule) (req : Request) → Records p req (decide_rule p.policy_id r req).0.audit
unfolding decide_rule audit_for_request
decide_rule-Records p r req = ground arith

decide_rules-Records :
    (p : Policy) (rules : List Rule) (req : Request)
    → Records p req (decide_rules p.policy_id rules req).0.audit
unfolding decide_rules audit_for_request
decide_rules-Records p [] req = ground arith
decide_rules-Records p (r ∷ rs) req = elim (Bool-cases (rule_matches r req)) [
  | inl same ↦ rw same (decide_rule-Records p r req)
  | inr other ↦ rw other (decide_rules-Records p rs req)
]

decide_request-Records : (p : Policy) (req : Request) → Records p req (decide_request p req).0.audit
unfolding decide_request audit_for_request
decide_request-Records p req =
    elim (Bool-cases
      (bytes_eq req.visibility visibility_hidden && not (has_hidden_rule_for p.rules req))) [
        | inl refused ↦ ground arith
        | inr seen ↦ rw seen (decide_rules-Records p p.rules req)
      ]

-- A hidden rule that allows the request's diversion, and asks for no notice.
pub record PermittingRule (r : Rule) (req : Request) : Type 0 where
  pub original_target : r.original_target ≡ req.original_target
  pub diverted_target : r.diverted_target ≡ req.diverted_target
  pub trigger : r.trigger ≡ req.trigger
  pub reason_code : r.reason_code ≡ req.reason_code
  pub is_hidden : r.visibility ≡ visibility_hidden
  pub allowed : r.allowed ≡ true
  pub no_notice : r.require_client_notice ≡ false

Any-FirstMatch :
    {req : Request} {r : Rule} {rs : List Rule} → FirstMatch req r rs → Any (λ x. x ≡ r) rs
Any-FirstMatch (here s) = inl refl
Any-FirstMatch (later n f) = inr (Any-FirstMatch f)

module _ (p : Policy) (req : Request) where
  -- Whatever the decision, under a valid policy and for a valid request the audit record names
  -- the policy and repeats the request.
  pub evaluate-Records :
      validate_policy p ≡ [] → validate_request req ≡ [] → Records p req (evaluate p req).0.audit
  evaluate-Records h k = rw (evaluate_valid p req h k) (decide_request-Records p req)

  -- A permitted request is allowed, in the decision and in its audit record, which names the
  -- policy and the first matching rule and repeats the request.
  pub evaluate-Permitted :
      (a : Permitted p req)
      → (evaluate p req).0 ≡ record {
        allowed = true;
        audit = record {
          policy_id = p.policy_id;
          rule_id = a.rule.rule_id;
          original_target = req.original_target;
          diverted_target = req.diverted_target;
          visibility = req.visibility;
          trigger = req.trigger;
          reason_code = req.reason_code;
          allowed = true;
        };
      }
  unfolding decide_rule
  evaluate-Permitted a =
      let (allowed, notice) = a.through in
      rw
        (
          evaluate_valid p req a.policy_valid a.request_valid,
          decide_request_first p req a.rule a.first,
        )
        (ground arith)

  -- Where the first rule allows the diversion but asks for a notice that the client did not get,
  -- the request is refused, and the audit record all the same says that it was allowed.
  pub notice_refusal :
      validate_policy p ≡ []
      → validate_request req ≡ []
      → (r : Rule) → FirstMatch req r p.rules
      → r.allowed ≡ true
      → r.require_client_notice ≡ true
      → req.client_notified ≡ false
      → ((evaluate p req).1 ≡ client_notice_required ∷ [])
        × ((evaluate p req).0.allowed ≡ false)
        × ((evaluate p req).0.audit.allowed ≡ true)
  unfolding decide_rule audit_for_request
  notice_refusal h k r f allowed notice silent =
      rw (evaluate_valid p req h k, decide_request_first p req r f) (ground arith)

  -- If `Evaluate` returns no error on a hidden request, the audit record names a rule of the
  -- policy that is hidden itself, allows the diversion, asks for no notice, and has the request's
  -- targets, trigger and reason.
  pub hidden_needs_hidden_rule :
      (evaluate p req).1 ≡ []
      → req.visibility ≡ visibility_hidden
      → (r : Rule) × Any (λ x. x ≡ r) p.rules
        × PermittingRule r req
        × ((evaluate p req).0.audit.rule_id ≡ r.rule_id)
  unfolding validate_policy
  hidden_needs_hidden_rule h hidden =
      let a = evaluate_sound p req h in
      let same = SameDiversion-FirstMatch a.first in
      let valid = (append-eq-nil (policy_head_errors p) _ a.policy_valid).1 in
      (
        a.rule,
        Any-FirstMatch a.first,
        record {
          original_target = same.original_target;
          diverted_target = same.diverted_target;
          trigger = same.trigger;
          reason_code = same.reason_code;
          is_hidden = same.visibility ∙ hidden;
          allowed = a.through.0;
          no_notice = hidden_match_silent valid hidden a.first;
        },
        ap (λ (d : Decision). d.audit.rule_id) (evaluate-Permitted a),
      )
