-- ===== src/Lifecycle/Tests.antt =====
-- swebench_eval/database/state_machine.py at concrete inputs.
use agent_evals.Prelude.{◌≡◌, refl, true, false, some, ◌=s◌}
use agent_evals.Lifecycle.{EvalOutcome, HarnessState, is_run_closed, map_terminated_reason_to_state}

closed_runs : (is_run_closed "aborting" ≡ true) × (is_run_closed "running" ≡ false)
unfolding is_run_closed ◌=s◌
closed_runs = (refl, refl)

empty_text : map_terminated_reason_to_state "completed" (some "") ≡ HarnessState.empty_patch
unfolding map_terminated_reason_to_state ◌=s◌
empty_text = refl

abbrev hung : EvalOutcome
hung = record {
  is_resolved = true;
  patch_apply_ok = true;
  grade_invalid = false;
  oom_killed = false;
  infra_failure = false;
  timed_out = true;
}
