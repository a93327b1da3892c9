-- ===== src/Agtp/Diversion/Match.antt =====
-- Which rule of a diversion policy a request meets first.
use session_bound_agent_iden.Common.{
  ◌≡◌, ◌∙◌, ◌↔◌, true, false, List, [], ◌∷◌, arith, append-eq-nil,
}
use session_bound_agent_iden.GoString.Laws.{bytes_eq_iff, bytes_eq_refl}
use session_bound_agent_iden.Agtp.Diversion.{
  Target, Rule, Request, target_eq, rule_matches, has_hidden_rule_for, visibility_hidden,
  validate_rule, rules_errors, validate_target, validate_visibility, validate_value, required_value,
  missing_rule, missing_reason_code,
}

eq_of_target_eq : (a b : Target) → target_eq a b ≡ true → a ≡ b
unfolding target_eq
eq_of_target_eq a b h = ground (
  arith,
  bytes_eq_iff a.service b.service,
  bytes_eq_iff a.tenant b.tenant,
  bytes_eq_iff a.deployment b.deployment,
  bytes_eq_iff a.environment b.environment,
  bytes_eq_iff a.agent b.agent,
)

target_eq_refl : (a : Target) → target_eq a a ≡ true
unfolding target_eq
target_eq_refl a = ground (
  arith,
  bytes_eq_refl a.service,
  bytes_eq_refl a.tenant,
  bytes_eq_refl a.deployment,
  bytes_eq_refl a.environment,
  bytes_eq_refl a.agent,
)

pub target_eq_iff : (a b : Target) → (target_eq a b ≡ true) ↔ (a ≡ b)
target_eq_iff a b = (eq_of_target_eq a b, λ p. rw p (target_eq_refl b))

-- A rule and a request name the same diversion.
pub record SameDiversion (r : Rule) (req : Request) : Type 0 where
  pub original_target : r.original_target ≡ req.original_target
  pub diverted_target : r.diverted_target ≡ req.diverted_target
  pub visibility : r.visibility ≡ req.visibility
  pub trigger : r.trigger ≡ req.trigger
  pub reason_code : r.reason_code ≡ req.reason_code

pub rule_matches_iff :
    (r : Rule) (req : Request) → (rule_matches r req ≡ true) ↔ SameDiversion r req
unfolding rule_matches
rule_matches_iff r req = (
  λ h. ground (
    arith,
    target_eq_iff r.original_target req.original_target,
    target_eq_iff r.diverted_target req.diverted_target,
    bytes_eq_iff r.visibility req.visibility,
    bytes_eq_iff r.trigger req.trigger,
    bytes_eq_iff r.reason_code req.reason_code,
  ),
  λ s. ground (
    arith,
    s.original_target,
    s.diverted_target,
    s.visibility,
    s.trigger,
    s.reason_code,
    target_eq_iff r.original_target req.original_target,
    target_eq_iff r.diverted_target req.diverted_target,
    bytes_eq_iff r.visibility req.visibility,
    bytes_eq_iff r.trigger req.trigger,
    bytes_eq_iff r.reason_code req.reason_code,
  ),
)

-- `r` is the first of the rules that names the request's diversion.
pub data FirstMatch (req : Request) (r : Rule) : List Rule → Type 0 where
  here : {rs : List Rule} → SameDiversion r req → FirstMatch req r (r ∷ rs)
  later :
      {x : Rule} {rs : List Rule}
      → ¬ SameDiversion x req
      → FirstMatch req r rs
      → FirstMatch req r (x ∷ rs)

pub not_matches : (r : Rule) (req : Request) → rule_matches r req ≡ false → ¬ SameDiversion r req
not_matches r req h s = cc (h, (rule_matches_iff r req).1 s)

pub SameDiversion-FirstMatch :
    {req : Request} {r : Rule} {rs : List Rule} → FirstMatch req r rs → SameDiversion r req
SameDiversion-FirstMatch (here s) = s
SameDiversion-FirstMatch (later n f) = SameDiversion-FirstMatch f

-- A hidden request that some rule matches passes the test for hidden rules.
pub has_hidden_of_FirstMatch :
    {req : Request} {r : Rule} {rs : List Rule}
    → req.visibility ≡ visibility_hidden
    → FirstMatch req r rs
    → has_hidden_rule_for rs req ≡ true
unfolding has_hidden_rule_for
has_hidden_of_FirstMatch {req} {r} hidden (here s) = ground (
  arith,
  (rule_matches_iff r req).1 s,
  (bytes_eq_iff r.visibility visibility_hidden).1 (s.visibility ∙ hidden),
)
has_hidden_of_FirstMatch hidden (later n f) = ground (arith, has_hidden_of_FirstMatch hidden f)

hidden_rule_silent :
    (r : Rule)
    → validate_rule r ≡ []
    → r.visibility ≡ visibility_hidden
    → r.require_client_notice ≡ false
unfolding validate_rule
hidden_rule_silent r h v =
    let (_, h2) = append-eq-nil (required_value missing_rule r.rule_id) _ h in
    let (_, h3) = append-eq-nil (validate_target r.original_target) _ h2 in
    let (_, h4) = append-eq-nil (validate_target r.diverted_target) _ h3 in
    let (_, h5) = append-eq-nil (validate_visibility r.visibility) _ h4 in
    let (_, h6) = append-eq-nil (validate_value r.trigger) _ h5 in
    let (_, h7) = append-eq-nil (required_value missing_reason_code r.reason_code) _ h6 in
    ground (arith, bytes_eq_iff r.visibility visibility_hidden)

-- In a valid policy the rule that a hidden request meets asks for no notice.
pub hidden_match_silent :
    {req : Request} {r : Rule} {rs : List Rule}
    → rules_errors rs ≡ []
    → req.visibility ≡ visibility_hidden
    → FirstMatch req r rs
    → r.require_client_notice ≡ false
unfolding rules_errors
hidden_match_silent {r} h hidden (here s) =
    hidden_rule_silent r (append-eq-nil (validate_rule r) _ h).0 (s.visibility ∙ hidden)
hidden_match_silent h hidden (later {x} n f) =
    hidden_match_silent (append-eq-nil (validate_rule x) _ h).1 hidden f
