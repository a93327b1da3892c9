-- ===== src/IdentityPolicy/Sets/Exact.antt =====
-- `requireExactSet` of pkg/atls/identitypolicy/policy.go accepts sets with the same members.
use session_bound_agent_iden.Common.{
  ◌≤◌, ◌≡◌, refl, ◌≢◌, ◌↔◌, Bool, true, false, List, [], ◌∷◌, arith, All, ok, none, length,
  Result-cases, inl, inr,
}
use session_bound_agent_iden.GoString.{Bytes, is_blank}
use session_bound_agent_iden.GoString.Laws.{bytes_eq_refl}
use session_bound_agent_iden.IdentityPolicy.Errors.{missing_expected, missing_observed}
use session_bound_agent_iden.IdentityPolicy.Checks.{max_set_values}
use session_bound_agent_iden.IdentityPolicy.Sets.{
  member, collect, compare_sets, validated_set, require_exact_set,
}
use session_bound_agent_iden.IdentityPolicy.Sets.Members.{
  IsDistinct, Includes, Includes-symm, length-eq-of-Includes,
}
use session_bound_agent_iden.IdentityPolicy.Sets.Collect.{
  collect-Passes, collect-IsDistinct, collect_total, member-collect_nil, collect-ne-nil,
  collect_of_nil,
}
use session_bound_agent_iden.IdentityPolicy.Sets.Accept.{
  SameSet, IsExpected, missing_value_sound, missing_value_complete, expected-Passes,
  IsExpected-of_Passes, observed-Passes, IsObserved-of_Passes, validated_set_parts,
}

compare_sets_parts :
    (xs ys : List Bytes) → compare_sets xs ys ≡ none → (length xs ≡ length ys) × Includes xs ys
unfolding compare_sets
compare_sets_parts xs ys h = (ground arith, missing_value_sound xs ys (ground arith))

record Gathered (expected observed : List Bytes) : Type 0 where
  wanted : List Bytes
  given : List Bytes
  wanted_few : length expected ≤ max_set_values
  given_few : length observed ≤ max_set_values
  wanted_from : collect missing_expected [] expected ≡ ok wanted
  given_from : collect missing_observed [] observed ≡ ok given
  wanted_some : length wanted ≢ 0
  agree : compare_sets wanted given ≡ none

require_exact_parts :
    (expected observed : List Bytes)
    → require_exact_set expected observed ≡ none
    → Gathered expected observed
unfolding require_exact_set
require_exact_parts expected observed h =
    elim (Result-cases (validated_set expected missing_expected)) [
      | inr (e, k) ↦ absurd (ground arith)
      | inl (es, k) ↦ elim (Result-cases (validated_set observed missing_observed)) [
        | inr (e, l) ↦ absurd (ground arith)
        | inl (os, l) ↦
            let (few, from, some_) = validated_set_parts expected missing_expected es k in
            let (few', from', some') = validated_set_parts observed missing_observed os l in
            record {
              wanted = es;
              given = os;
              wanted_few = few;
              given_few = few';
              wanted_from = from;
              given_from = from';
              wanted_some = some_;
              agree = ground arith;
            }
      ]
    ]

bool_eq : (a b : Bool) → (a ≡ true → b ≡ true) → (b ≡ true → a ≡ true) → a ≡ b
bool_eq a b f g = ground arith

module _ (expected observed : List Bytes) (g : Gathered expected observed) where
  member_wanted : (v : Bytes) → is_blank v ≡ false → member v g.wanted ≡ member v expected
  member_wanted v n = rw (member-collect_nil v missing_expected expected g.wanted g.wanted_from, n)

  member_given : (v : Bytes) → is_blank v ≡ false → member v g.given ≡ member v observed
  member_given v n = rw (member-collect_nil v missing_observed observed g.given g.given_from, n)

  wanted-IsDistinct : IsDistinct g.wanted
  wanted-IsDistinct = collect-IsDistinct missing_expected [] expected g.wanted g.wanted_from tt

  Gathered-same : (v : Bytes) → is_blank v ≡ false → member v expected ≡ member v observed
  Gathered-same v n =
      let (size, inside) = compare_sets_parts g.wanted g.given g.agree in
      rw (← member_wanted v n, ← member_given v n)
        (bool_eq _ _ (inside v) (Includes-symm g.wanted g.given wanted-IsDistinct size inside v))

  require_exact_set-SameSet : SameSet expected observed
  require_exact_set-SameSet = record {
    expected_few = g.wanted_few;
    observed_few = g.given_few;
    expected_some =
        λ e. g.wanted_some (collect_of_nil missing_expected g.wanted (rw e at g.wanted_from));
    expected_valid =
        IsExpected-of_Passes expected
          (collect-Passes missing_expected [] expected g.wanted g.wanted_from);
    observed_valid =
        IsObserved-of_Passes observed
          (collect-Passes missing_observed [] observed g.given g.given_from);
    same = Gathered-same;
  }

expected_member :
    (vs : List Bytes)
    → vs ≢ []
    → All IsExpected vs
    → (v : Bytes) × (is_blank v ≡ false) × (member v vs ≡ true)
unfolding member
expected_member [] n h = absurd (n refl)
expected_member (v ∷ vs) n (p, h) = (v, p.0, ground (arith, bytes_eq_refl v))

-- The sets that the two loops gather from lists that agree.
module _ (expected observed es os : List Bytes) (s : SameSet expected observed)
    (from : collect missing_expected [] expected ≡ ok es)
    (from' : collect missing_observed [] observed ≡ ok os) where
  gathered_same : (v : Bytes) → member v es ≡ member v os
  gathered_same v = ground (
    arith,
    member-collect_nil v missing_expected expected es from,
    member-collect_nil v missing_observed observed os from',
    s.same v,
  )

  compare_gathered : compare_sets es os ≡ none
  unfolding compare_sets
  compare_gathered =
      let inside : Includes es os = λ v m. rw (← gathered_same v) m in
      let back : Includes os es = λ v m. rw (gathered_same v) m in
      let distinct = collect-IsDistinct missing_expected [] expected es from tt in
      let distinct' = collect-IsDistinct missing_observed [] observed os from' tt in
      ground (
        arith,
        length-eq-of-Includes es os distinct distinct' inside back,
        missing_value_complete es os inside,
      )

  gathered_some : length es ≢ 0
  gathered_some =
      let (v, n, m) = expected_member expected s.expected_some s.expected_valid in
      collect-ne-nil v missing_expected expected es from n m

  require_exact_set_of_gathered : require_exact_set expected observed ≡ none
  unfolding require_exact_set validated_set
  require_exact_set_of_gathered =
      ground (arith, compare_gathered, gathered_some, s.expected_few, s.observed_few)

-- `requireExactSet` accepts exactly when the two lists are short and well-formed and hold the
-- same non-empty values, at least one.
pub require_exact_set_iff :
    (expected observed : List Bytes)
    → (require_exact_set expected observed ≡ none) ↔ SameSet expected observed
require_exact_set_iff expected observed = (
  λ h. require_exact_set-SameSet expected observed (require_exact_parts expected observed h),
  λ s.
      let (es, from) =
        collect_total missing_expected [] expected (expected-Passes expected s.expected_valid) in
      let (os, from') =
        collect_total missing_observed [] observed (observed-Passes observed s.observed_valid) in
      require_exact_set_of_gathered expected observed es os s from from',
)
