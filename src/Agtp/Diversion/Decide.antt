-- ===== src/Agtp/Diversion/Decide.antt =====
-- When a diversion is allowed, and what the decision records.
use session_bound_agent_iden.Common.{
  ◌≡◌, refl, ◌↔◌, ◌⊎◌, inl, inr, true, false, List, [], ◌∷◌, arith, Bool-cases,
}
use session_bound_agent_iden.GoString.{Bytes, bytes_eq}
use session_bound_agent_iden.GoString.Laws.{bytes_eq_iff}
use session_bound_agent_iden.Agtp.Diversion.{
  DiversionErr, Rule, Policy, Request, rule_matches, visibility_hidden, validate_policy,
  validate_request, decide_rule, decide_rules, decide_request, evaluate,
}
use session_bound_agent_iden.Agtp.Diversion.Match.{
  SameDiversion, FirstMatch, here, later, rule_matches_iff, not_matches, has_hidden_of_FirstMatch,
}

-- The rule lets the request through: it allows the diversion, and the client was notified if the
-- rule asks for it.
abbrev pub LetsThrough : Rule → Request → Type 0
LetsThrough r req =
    (r.allowed ≡ true) × (r.require_client_notice ≡ true → req.client_notified ≡ true)

decide_rule_iff :
    (policy_id : Bytes) (r : Rule) (req : Request)
    → ((decide_rule policy_id r req).1 ≡ []) ↔ LetsThrough r req
unfolding decide_rule
decide_rule_iff policy_id r req = (λ h. ground arith, λ h. ground arith)

abbrev Chosen : List Rule → Request → Type 0
Chosen rules req = (r : Rule) × FirstMatch req r rules × LetsThrough r req

decide_rules_sound :
    (policy_id : Bytes) (rules : List Rule) (req : Request)
    → (decide_rules policy_id rules req).1 ≡ []
    → Chosen rules req
unfolding decide_rules
decide_rules_sound policy_id [] req h = absurd (ground arith)
decide_rules_sound policy_id (r ∷ rs) req h = elim (Bool-cases (rule_matches r req)) [
  | inl same ↦ (
    r,
    here ((rule_matches_iff r req).0 same),
    (decide_rule_iff policy_id r req).0 (rw same at h),
  )
  | inr other ↦
      let (x, first, through) = decide_rules_sound policy_id rs req (rw other at h) in
      (x, later (not_matches r req other) first, through)
]

pub not_same : (r : Rule) (req : Request) → ¬ SameDiversion r req → rule_matches r req ≡ false
not_same r req n = elim (Bool-cases (rule_matches r req)) [
  | inl same ↦ absurd (n ((rule_matches_iff r req).0 same))
  | inr other ↦ other
]

-- The decision is that of the first rule that matches.
decide_rules_first :
    (policy_id : Bytes) {req : Request} {r : Rule} {rules : List Rule}
    → FirstMatch req r rules
    → decide_rules policy_id rules req ≡ decide_rule policy_id r req
unfolding decide_rules
decide_rules_first policy_id {req} {r} (here s) = rw ((rule_matches_iff r req).1 s)
decide_rules_first policy_id {req} (later {x} n f) =
    rw (not_same x req n) (decide_rules_first policy_id f)

-- The request may be served by the policy: both are valid, and the first rule that names the
-- diversion lets the request through.
pub record Permitted (p : Policy) (req : Request) : Type 0 where
  pub policy_valid : validate_policy p ≡ []
  pub request_valid : validate_request req ≡ []
  pub rule : Rule
  pub first : FirstMatch req rule p.rules
  pub through : LetsThrough rule req

pub decide_request_first :
    (p : Policy) (req : Request) (r : Rule)
    → FirstMatch req r p.rules
    → decide_request p req ≡ decide_rule p.policy_id r req
unfolding decide_request
decide_request_first p req r f = elim (Bool-cases (bytes_eq req.visibility visibility_hidden)) [
  | inl hidden ↦
      rw (hidden, has_hidden_of_FirstMatch ((bytes_eq_iff _ _).0 hidden) f)
        (decide_rules_first p.policy_id f)
  | inr visible ↦ rw visible (decide_rules_first p.policy_id f)
]

decide_request_sound :
    (p : Policy) (req : Request) → (decide_request p req).1 ≡ [] → Chosen p.rules req
unfolding decide_request
decide_request_sound p req h = decide_rules_sound p.policy_id p.rules req (ground arith)

nil-cases :
    (es : List DiversionErr)
    → (es ≡ []) ⊎ ((e : DiversionErr) × (r : List DiversionErr) × (es ≡ e ∷ r))
nil-cases [] = inl refl
nil-cases (e ∷ r) = inr (e, r, refl)

module _ (p : Policy) (req : Request) where
  pub evaluate_valid :
      validate_policy p ≡ [] → validate_request req ≡ [] → evaluate p req ≡ decide_request p req
  unfolding evaluate
  evaluate_valid h k = rw (h, k, evaluate)

  pub evaluate_sound : (evaluate p req).1 ≡ [] → Permitted p req
  unfolding evaluate
  evaluate_sound h = elim (nil-cases (validate_policy p)) [
    | inr (e, r, bad) ↦ absurd (ground arith)
    | inl good ↦ elim (nil-cases (validate_request req)) [
      | inr (e, r, bad) ↦ absurd (ground arith)
      | inl fine ↦
          let (rule, first, through) =
            decide_request_sound p req (rw (evaluate_valid good fine) at h) in
          record {
            policy_valid = good;
            request_valid = fine;
            rule = rule;
            first = first;
            through = through;
          }
    ]
  ]

  evaluate_complete : Permitted p req → (evaluate p req).1 ≡ []
  evaluate_complete a =
      rw (evaluate_valid a.policy_valid a.request_valid, decide_request_first p req a.rule a.first)
        ((decide_rule_iff p.policy_id a.rule req).1 a.through)

  -- `Evaluate` returns no error exactly when policy and request are valid and the first rule that
  -- names the diversion allows it, with the client notified if the rule asks for that.
  pub evaluate_iff : ((evaluate p req).1 ≡ []) ↔ Permitted p req
  evaluate_iff = (evaluate_sound, evaluate_complete)
