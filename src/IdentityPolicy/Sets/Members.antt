-- ===== src/IdentityPolicy/Sets/Members.antt =====
-- Finite sets as lists without repetition: membership, insertion, and the fact that two sets of
-- one size, one inside the other, have the same members.
use session_bound_agent_iden.Common.{
  suc, ◌≤◌, ◌≡◌, true, false, ◌||◌, List, [], ◌∷◌, arith, if◌then◌else◌, length, Bool-cases, inl,
  inr,
}
use session_bound_agent_iden.GoString.{Bytes, bytes_eq}
use session_bound_agent_iden.GoString.Laws.{bytes_eq_iff, bytes_eq_refl}
use session_bound_agent_iden.IdentityPolicy.Sets.{member, insert}

pub member-insert :
    (w v : Bytes) (set : List Bytes) → member w (insert v set) ≡ (bytes_eq w v || member w set)
unfolding insert member
member-insert w v set = ground (arith, bytes_eq_iff w v)

abbrev pub IsDistinct : List Bytes → Type 0
IsDistinct [] = Unit
IsDistinct (v ∷ set) = (member v set ≡ false) × IsDistinct set

pub insert-IsDistinct : (v : Bytes) (set : List Bytes) → IsDistinct set → IsDistinct (insert v set)
unfolding insert
insert-IsDistinct v set h = ground arith

remove : Bytes → List Bytes → List Bytes
remove v [] = []
remove v (w ∷ set) = if bytes_eq v w then set else w ∷ remove v set

length-remove :
    (v : Bytes) (set : List Bytes) → member v set ≡ true → suc (length (remove v set)) ≡ length set
unfolding remove member
length-remove v [] h = cc
length-remove v (w ∷ set) h = ground (arith, length-remove v set)

member-remove :
    (w v : Bytes) (set : List Bytes)
    → bytes_eq w v ≡ false
    → member w set ≡ true
    → member w (remove v set) ≡ true
unfolding remove member
member-remove w v [] n h = cc
member-remove w v (x ∷ set) n h =
    ground (arith, member-remove w v set, bytes_eq_iff v x, bytes_eq_iff w v, bytes_eq_iff w x)

abbrev pub Includes : List Bytes → List Bytes → Type 0
Includes xs ys = (v : Bytes) → member v xs ≡ true → member v ys ≡ true

Includes-tail : (x : Bytes) (xs ys : List Bytes) → Includes (x ∷ xs) ys → Includes xs ys
unfolding member
Includes-tail x xs ys h v m = h v (ground arith)

Includes-head : (x : Bytes) (xs ys : List Bytes) → Includes (x ∷ xs) ys → member x ys ≡ true
unfolding member
Includes-head x xs ys h = h x (ground (arith, bytes_eq_refl x))

apart :
    (w x : Bytes) (xs : List Bytes)
    → member x xs ≡ false
    → member w xs ≡ true
    → bytes_eq w x ≡ false
apart w x xs h m = ground (arith, bytes_eq_iff w x)

length-le-of-Includes :
    (xs ys : List Bytes) → IsDistinct xs → Includes xs ys → length xs ≤ length ys
length-le-of-Includes [] ys d h = omega arith
length-le-of-Includes (x ∷ xs) ys (n, d) h = omega (
  arith,
  length-remove x ys (Includes-head x xs ys h),
  length-le-of-Includes xs (remove x ys) d
      (λ v m. member-remove v x ys (apart v x xs n m) (Includes-tail x xs ys h v m)),
)

Includes-cons :
    (v : Bytes) (xs ys : List Bytes) → member v ys ≡ true → Includes xs ys → Includes (v ∷ xs) ys
unfolding member
Includes-cons v xs ys m h w k = ground (arith, h w, bytes_eq_iff w v)

-- The size test and one inclusion decide that two sets have the same members.
pub Includes-symm :
    (xs ys : List Bytes) → IsDistinct xs → length xs ≡ length ys → Includes xs ys → Includes ys xs
Includes-symm xs ys d e h v m = elim (Bool-cases (member v xs)) [
  | inl there ↦ there
  | inr missing ↦
      absurd
        (omega (arith, length-le-of-Includes (v ∷ xs) ys (missing, d) (Includes-cons v xs ys m h)))
]

pub length-eq-of-Includes :
    (xs ys : List Bytes)
    → IsDistinct xs
    → IsDistinct ys
    → Includes xs ys
    → Includes ys xs
    → length xs ≡ length ys
length-eq-of-Includes xs ys d c h k =
    omega (arith, length-le-of-Includes xs ys d h, length-le-of-Includes ys xs c k)
