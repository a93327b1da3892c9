-- ===== src/GoTime.antt =====
-- Go's `time.Time`: nanoseconds since the zero time (January 1 of year 1), so `IsZero` is a test
-- against 0. Times before the zero time are not represented; the program reads none.
use session_bound_agent_iden.Common.{ℕ, ◌-◌, ◌^◌, Bool, ltb, ◌==◌, min}

abbrev pub Time : Type 0
Time = ℕ

abbrev pub is_zero : Time → Bool
is_zero t = t == 0

-- `t.After(u)`
abbrev pub after : Time → Time → Bool
after t u = ltb u t

abbrev pub max_duration : ℕ
max_duration = 2 ^ 63 - 1

-- `t.Sub(u)`, which saturates. A negative difference is 0 here: the callers only ask whether the
-- result is positive.
unfoldable pub sub : Time → Time → ℕ
sub t u = min (t - u) max_duration
