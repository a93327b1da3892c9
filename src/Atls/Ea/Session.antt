-- ===== src/Atls/Ea/Session.antt =====
-- pkg/atls/ea/session.go: the contexts that a session has seen. A nil session remembers nothing.
pub mod Once
use session_bound_agent_iden.Common.{
  Option, none, some, List, [], ◌∷◌, Bool, true, false, ◌||◌, if◌then◌else◌, any,
}
use session_bound_agent_iden.GoString.{Bytes, bytes_eq}
use session_bound_agent_iden.Atls.Ea.Wire.{EaErr, context_reuse}

pub record Session : Type 0 where
  pub used : List Bytes

abbrev pub new_session : Session
new_session = record { used = [] }

unfoldable pub is_used : Session → Bytes → Bool
is_used s context = any (λ u. bytes_eq context u) s.used

unfoldable pub mark_context_used : Option Session → Bytes → Option Session × Option EaErr
unfolding is_used
mark_context_used none context = (none, none)
mark_context_used (some s) context =
    if is_used s context
    then (some s, some context_reuse)
    else (some (record { used = context ∷ s.used }), none)
