-- ===== src/Control/Active/Tests.antt =====
-- Runs of the marker of swebench_eval/control/state.py.
use agent_evals.Prelude.{◌+◌, ◌≡◌, refl, true, false, none}
use agent_evals.Control.Active.{active_runs_ttl, mark_runs_active, runs_active_marked}

marked : runs_active_marked true 8 (mark_runs_active true 7 none).0 ≡ true
unfolding runs_active_marked mark_runs_active
marked = refl

forgotten : runs_active_marked true (7 + active_runs_ttl) (mark_runs_active true 7 none).0 ≡ false
unfolding runs_active_marked mark_runs_active
forgotten = refl

unreadable : runs_active_marked false 8 (mark_runs_active true 7 none).0 ≡ false
unfolding runs_active_marked
unreadable = refl
