-- ===== src/Atls/Ea/Session/Once.antt =====
-- A session accepts a context once.
use session_bound_agent_iden.Common.{◌≡◌, refl, Option, none, some, true, arith}
use session_bound_agent_iden.GoString.{Bytes}
use session_bound_agent_iden.GoString.Laws.{bytes_eq_refl}
use session_bound_agent_iden.Atls.Ea.Wire.{EaErr, context_reuse}
use session_bound_agent_iden.Atls.Ea.Session.{Session, is_used, mark_context_used}

-- The session after a call, and its error.
abbrev pub Marked : Session → Bytes → Session → Option EaErr → Type 0
Marked s context s' e = mark_context_used (some s) context ≡ (some s', e)

-- The sessions that calls of `MarkContextUsed`, accepted or not, make of one.
pub data Later (s : Session) : Session → Type 0 where
  now : Later s s
  marked :
      {t u : Session} (context : Bytes) (e : Option EaErr)
      → Later s t
      → Marked t context u e
      → Later s u

mark_keeps :
    (s t : Session) (context other : Bytes) (e : Option EaErr)
    → Marked s context t e
    → is_used s other ≡ true
    → is_used t other ≡ true
unfolding mark_context_used is_used
mark_keeps s t context other e m h = ground arith

pub Later-keeps_used :
    {s t : Session} (context : Bytes)
    → Later s t
    → is_used s context ≡ true
    → is_used t context ≡ true
Later-keeps_used context now h = h
Later-keeps_used context (marked {t} {u} other e l m) h =
    mark_keeps t u other context e m (Later-keeps_used context l h)

pub mark_uses :
    (s t : Session) (context : Bytes) → Marked s context t none → is_used t context ≡ true
unfolding mark_context_used is_used
mark_uses s t context m = ground (arith, bytes_eq_refl context)

-- Once a session accepts a context, it refuses it for ever, whatever calls come between.
pub context_once :
    (s t u : Session) (context : Bytes)
    → Marked s context t none
    → Later t u
    → Marked u context u (some context_reuse)
unfolding mark_context_used
context_once s t u context m l = rw (Later-keeps_used context l (mark_uses s t context m)) refl
