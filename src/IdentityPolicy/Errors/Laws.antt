-- ===== src/IdentityPolicy/Errors/Laws.antt =====
-- What the queries on an aggregate of validation failures answer.
use session_bound_agent_iden.Common.{
  String, ◌≡◌, refl, ◌≢◌, ◌↔◌, Bool, true, Option, none, some, [], ◌∷◌, arith, str_eq, str_eq_iff,
}
use session_bound_agent_iden.IdentityPolicy.Errors.{
  Err, ValidationErrors, ValidationError, as_error, error_entries, has, by_layer, selected, keep,
}

pub as_error_iff : (errs : ValidationErrors) → (as_error errs ≡ none) ↔ (errs ≡ [])
as_error_iff [] = (λ h. refl, λ h. refl)
as_error_iff (e ∷ errs) = (λ h. cc, λ h. cc)

pub as_error_nil : (errs : ValidationErrors) → as_error errs ≡ none → errs ≡ []
as_error_nil errs h = (as_error_iff errs).0 h

-- Collecting the entries of an aggregate gives back the entries, also of an empty one.
pub error_entries-as_error : (errs : ValidationErrors) → error_entries (as_error errs) ≡ errs
error_entries-as_error [] = refl
error_entries-as_error (e ∷ errs) = refl

has-keep :
    (p : ValidationError → Bool) (layer field : String) (target : Option Err)
    (errs : ValidationErrors)
    → ((e : ValidationError) → selected layer field target (some e) ≡ true → p e ≡ true)
    → has (keep p errs) layer field target ≡ has errs layer field target
unfolding has keep
has-keep p layer field target [] h = refl
has-keep p layer field target (none ∷ errs) h = has-keep p layer field target errs h
has-keep p layer field target (some e ∷ errs) h =
    ground (arith, h e, has-keep p layer field target errs h)

-- `Has` with a layer answers the same on all entries and on those that `ByLayer` keeps.
pub has-by_layer :
    (errs : ValidationErrors) (layer field : String) (target : Option Err)
    → layer ≢ ""
    → has (by_layer errs layer) layer field target ≡ has errs layer field target
unfolding by_layer
has-by_layer errs layer field target h =
    has-keep (λ e. str_eq e.layer layer) layer field target errs
      (λ e s. unfold selected in ground (arith, str_eq_iff layer ""))
