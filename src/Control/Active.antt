-- ===== src/Control/Active.antt =====
-- swebench_eval/control/state.py: the marker of a run's activity, `control:any-run-active`, a key that
-- Redis forgets at a time. Times are microseconds, as for the flags.
mod Tests
use agent_evals.Prelude.{ℕ, ◌+◌, Bool, true, false, Option, none, some, ltb}
use agent_evals.Control.{Raised, redis_error}

-- When the key is forgotten; `none` where it is not set.
abbrev pub Marker : Type 0
Marker = Option ℕ

abbrev pub active_runs_ttl : ℕ
active_runs_ttl = 900_000_000

-- `mark_runs_active`.
pub mark_runs_active : Bool → ℕ → Marker → Marker × Option Raised
mark_runs_active false now m = (m, some redis_error)
mark_runs_active true now m = (some (now + active_runs_ttl), none)

-- `runs_active_marked`: an unreadable Redis reads as no activity.
pub runs_active_marked : Bool → ℕ → Marker → Bool
runs_active_marked false now m = false
runs_active_marked true now none = false
runs_active_marked true now (some expires_at) = ltb now expires_at
