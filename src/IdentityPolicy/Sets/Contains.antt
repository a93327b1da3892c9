-- ===== src/IdentityPolicy/Sets/Contains.antt =====
-- `requireContainsAll` of pkg/atls/identitypolicy/policy.go accepts observed sets that hold every
-- expected value; and how `validateSet` picks the comparison.
use session_bound_agent_iden.Common.{
  ◌≤◌, ◌≡◌, refl, ◌≢◌, ◌↔◌, Bool, true, false, not, ◌&&◌, List, [], ◌∷◌, arith, All, ok, none,
  length, Result-cases, inl, inr, and_parts,
}
use session_bound_agent_iden.GoString.{Bytes, is_blank}
use session_bound_agent_iden.GoString.Laws.{bytes_eq_refl}
use session_bound_agent_iden.IdentityPolicy.Errors.{Err, missing_observed}
use session_bound_agent_iden.IdentityPolicy.Checks.{max_set_values}
use session_bound_agent_iden.IdentityPolicy.Sets.{
  member, collect, check_expected, contains_all, require_contains_all,
}
use session_bound_agent_iden.IdentityPolicy.Sets.Members.{Includes}
use session_bound_agent_iden.IdentityPolicy.Sets.Collect.{
  collect-Passes, collect_total, member-collect_nil, collect-ne-nil,
}
use session_bound_agent_iden.IdentityPolicy.Sets.Accept.{
  ContainsSet, IsExpected, missing_value_sound, missing_value_complete, observed-Passes,
  IsObserved-of_Passes, blank_not_expected,
}

check_expected_sound : (vs : List Bytes) → check_expected vs ≡ none → All IsExpected vs
unfolding check_expected
check_expected_sound [] h = tt
check_expected_sound (v ∷ vs) h = ground (arith, check_expected_sound vs)

check_expected_complete : (vs : List Bytes) → All IsExpected vs → check_expected vs ≡ none
unfolding check_expected
check_expected_complete [] h = refl
check_expected_complete (v ∷ vs) (p, h) = ground (arith, check_expected_complete vs h)

not-true : (b : Bool) → not b ≡ true → b ≡ false
not-true b h = ground arith

head_member :
    (e : Err) (values seen : List Bytes)
    → collect e [] values ≡ ok seen
    → length seen ≢ 0
    → (v : Bytes) × (is_blank v ≡ false) × (member v values ≡ true)
unfolding member
head_member e values [] h n = absurd (n refl)
head_member e values (v ∷ seen) h n =
    let m : (not (is_blank v) && member v values) ≡ true =
      ground (arith, member-collect_nil v e values (v ∷ seen) h, bytes_eq_refl v) in
    (v, not-true _ (and_parts _ _ m).0, (and_parts _ _ m).1)

module _ (expected observed : List Bytes) where
  record Seen : Type 0 where
    seen : List Bytes
    from : collect missing_observed [] observed ≡ ok seen
    few : length expected ≤ max_set_values
    few' : length observed ≤ max_set_values
    valid : check_expected expected ≡ none
    found : contains_all expected seen ≡ none

  require_contains_parts : require_contains_all expected observed ≡ none → Seen
  unfolding require_contains_all
  require_contains_parts h = elim (Result-cases (collect missing_observed [] observed)) [
    | inl (seen, from) ↦ record {
      seen = seen;
      from = from;
      few = ground arith;
      few' = ground arith;
      valid = ground arith;
      found = ground arith;
    }
    | inr (e, from) ↦ absurd (ground arith)
  ]

  Seen-inside : (s : Seen) → Includes expected s.seen
  unfolding contains_all
  Seen-inside s = missing_value_sound expected s.seen (let k = s.found in ground arith)

  Seen-some : (s : Seen) → length s.seen ≢ 0
  unfolding contains_all
  Seen-some s = let k = s.found in ground arith

  Seen-ContainsSet : Seen → ContainsSet expected observed
  Seen-ContainsSet s = record {
    expected_few = s.few;
    observed_few = s.few';
    observed_some = head_member missing_observed observed s.seen s.from (Seen-some s);
    expected_valid = check_expected_sound expected s.valid;
    observed_valid =
        IsObserved-of_Passes observed (collect-Passes missing_observed [] observed s.seen s.from);
    inside = λ v m.
        ground
          (arith, member-collect_nil v missing_observed observed s.seen s.from, Seen-inside s v m);
  }

  contains_all_of : ContainsSet expected observed → require_contains_all expected observed ≡ none
  unfolding require_contains_all contains_all
  contains_all_of c =
      let (seen, from) =
        collect_total missing_observed [] observed (observed-Passes observed c.observed_valid) in
      let (w, n, m) = c.observed_some in
      let inside : Includes expected seen = λ v k. ground (
        arith,
        member-collect_nil v missing_observed observed seen from,
        blank_not_expected v expected c.expected_valid k,
        c.inside v k,
      ) in
      ground (
        arith,
        check_expected_complete expected c.expected_valid,
        collect-ne-nil w missing_observed observed seen from n m,
        missing_value_complete expected seen inside,
        c.expected_few,
        c.observed_few,
      )

  -- `requireContainsAll` accepts exactly when both lists are short and well-formed, some observed
  -- value is not empty, and every expected value is observed.
  pub require_contains_all_iff :
      (require_contains_all expected observed ≡ none) ↔ ContainsSet expected observed
  require_contains_all_iff = (λ h. Seen-ContainsSet (require_contains_parts h), contains_all_of)
