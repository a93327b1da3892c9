-- ===== src/IdentityPolicy/Sets/Collect.antt =====
-- What the loop of `validatedSet` gathers.
use session_bound_agent_iden.Common.{
  ◌≡◌, refl, ◌≢◌, length, true, false, not, ◌&&◌, ◌||◌, List, [], ◌∷◌, arith, All, Bool-cases, inl,
  inr, ok, none,
}
use session_bound_agent_iden.GoString.{Bytes, is_blank}
use session_bound_agent_iden.GoString.Laws.{bytes_eq_iff}
use session_bound_agent_iden.IdentityPolicy.Errors.{Err}
use session_bound_agent_iden.IdentityPolicy.Checks.{validate_value}
use session_bound_agent_iden.IdentityPolicy.Sets.{member, insert, collect, is_missing_expected}
use session_bound_agent_iden.IdentityPolicy.Sets.Members.{
  member-insert, IsDistinct, insert-IsDistinct,
}

-- A value that the loop passes: empty ones are skipped, or refused when they are expected values.
abbrev pub Passes : Err → Bytes → Type 0
Passes e v =
    (is_blank v ≡ true → is_missing_expected e ≡ false)
    × (is_blank v ≡ false → validate_value v ≡ none)

pub collect-Passes :
    (e : Err) (set values out : List Bytes) → collect e set values ≡ ok out → All (Passes e) values
unfolding collect
collect-Passes e set [] out h = tt
collect-Passes e set (v ∷ values) out h =
    ground (arith, collect-Passes e set values out, collect-Passes e (insert v set) values out)

pub member-collect :
    (w : Bytes) (e : Err) (set values out : List Bytes)
    → collect e set values ≡ ok out
    → member w out ≡ (member w set || (not (is_blank w) && member w values))
unfolding collect member
member-collect w e set [] out h = ground arith
member-collect w e set (v ∷ values) out h = ground (
  arith,
  member-collect w e set values out,
  member-collect w e (insert v set) values out,
  member-insert w v set,
  bytes_eq_iff w v,
)

pub collect-IsDistinct :
    (e : Err) (set values out : List Bytes)
    → collect e set values ≡ ok out
    → IsDistinct set
    → IsDistinct out
unfolding collect
collect-IsDistinct e set [] out h d = ground arith
collect-IsDistinct e set (v ∷ values) out h d = ground (
  arith,
  collect-IsDistinct e set values out,
  collect-IsDistinct e (insert v set) values out,
  insert-IsDistinct v set d,
)

pub collect_total :
    (e : Err) (set values : List Bytes)
    → All (Passes e) values
    → (out : List Bytes) × (collect e set values ≡ ok out)
unfolding collect
collect_total e set [] h = (set, refl)
collect_total e set (v ∷ values) (p, ps) = elim (Bool-cases (is_blank v)) [
  | inl blank ↦ let (out, h) = collect_total e set values ps in (out, ground arith)
  | inr text ↦ let (out, h) = collect_total e (insert v set) values ps in (out, ground arith)
]

-- Started from the empty set, the loop gathers the non-empty values.
pub member-collect_nil :
    (w : Bytes) (e : Err) (values out : List Bytes)
    → collect e [] values ≡ ok out
    → member w out ≡ (not (is_blank w) && member w values)
unfolding member
member-collect_nil w e values out h = member-collect w e [] values out h

-- It gathers something as soon as some value is not empty.
pub collect-ne-nil :
    (w : Bytes) (e : Err) (values out : List Bytes)
    → collect e [] values ≡ ok out
    → is_blank w ≡ false
    → member w values ≡ true
    → length out ≢ 0
unfolding member
collect-ne-nil w e values [] h n m = ground (arith, member-collect_nil w e values [] h)
collect-ne-nil w e values (v ∷ out) h n m = omega arith

pub collect_of_nil : (e : Err) (out : List Bytes) → collect e [] [] ≡ ok out → length out ≡ 0
unfolding collect
collect_of_nil e out h = ground arith
