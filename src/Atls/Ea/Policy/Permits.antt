-- ===== src/Atls/Ea/Policy/Permits.antt =====
-- What the extension checks let pass.
use session_bound_agent_iden.Common.{Option, none, List, [], ◌∷◌, true, ◌≡◌, ◌↔◌, refl, All, arith}
use session_bound_agent_iden.Atls.Ea.Extensions.{Extension}
use session_bound_agent_iden.Atls.Ea.Request.{AuthenticatorRequest}
use session_bound_agent_iden.Atls.Ea.Policy.{
  SpontaneousAuthenticatorPolicy, permits, validate_entry_extensions,
}

pub entry_extensions_iff :
    (es : List Extension) (req : Option AuthenticatorRequest)
    (policy : Option SpontaneousAuthenticatorPolicy)
    → (validate_entry_extensions es req policy ≡ none)
      ↔ All (λ e. permits req policy e.type ≡ true) es
unfolding validate_entry_extensions
entry_extensions_iff [] req policy = (λ h. tt, λ h. refl)
entry_extensions_iff (e ∷ es) req policy =
    let (sound, complete) = entry_extensions_iff es req policy in
    (λ h. ground (arith, sound), λ h. ground (arith, complete))
