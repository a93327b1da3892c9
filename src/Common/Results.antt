-- ===== src/Common/Results.antt =====
-- A value or an error, for Go's `(T, error)` results.
use mathlib.Core.Path.{◌≡◌, refl}
use mathlib.Core.Logic.{◌⊎◌, inl, inr}
use mathlib.Core.Bool.{Bool, true, false, not}
use session_bound_agent_iden.Common.Tests.{if◌then◌else◌}

pub data Result {ℓ κ} (E : Type ℓ) (A : Type κ) : Type (ℓ ⊔ κ) where
  ok : A → Result E A
  err : E → Result E A

module _ {ℓ κ} {E : Type ℓ} {A : Type κ} where
  pub Result-cases : (r : Result E A) → ((a : A) × (r ≡ ok a)) ⊎ ((e : E) × (r ≡ err e))
  Result-cases (ok a) = inl (a, refl)
  Result-cases (err e) = inr (e, refl)

-- An error ends the rest, as in `if err != nil { return nil, err }`.
infixl 5 ◌>>=◌
abbrev pub ◌>>=◌ {ℓ κ μ} :
    {E : Type ℓ} {V : Type κ} {W : Type μ} → Result E V → (V → Result E W) → Result E W
err e >>= next = err e
ok v >>= next = next v

-- A chain that gives a value passed through one: what the first step gave.
pub >>=-eq-ok {ℓ κ μ} :
    {E : Type ℓ} {V : Type κ} {W : Type μ} (step : Result E V) (next : V → Result E W) {w : W}
    → (step >>= next) ≡ ok w
    → (v : V) × (step ≡ ok v) × (next v ≡ ok w)
>>=-eq-ok (err e) next passed = cc
>>=-eq-ok (ok v) next passed = (v, refl, passed)

-- A guard that was passed.
pub guard_passed {ℓ κ} :
    {E : Type ℓ} {A : Type κ} (b : Bool) (e : E) (r : Result E A) {a : A}
    → (if not b then err e else r) ≡ ok a
    → (b ≡ true) × (r ≡ ok a)
guard_passed true e r h = (refl, h)
guard_passed false e r h = cc

-- The same result with the error of another type.
abbrev pub map_err {ℓ κ μ} :
    {E : Type ℓ} {F : Type κ} {A : Type μ} → (E → F) → Result E A → Result F A
map_err wrap (ok a) = ok a
map_err wrap (err e) = err (wrap e)

pub map_err-eq-ok {ℓ κ μ} :
    {E : Type ℓ} {F : Type κ} {A : Type μ} (wrap : E → F) (r : Result E A) {a : A}
    → map_err wrap r ≡ ok a
    → r ≡ ok a
map_err-eq-ok wrap (ok x) h = cc
map_err-eq-ok wrap (err e) h = cc
