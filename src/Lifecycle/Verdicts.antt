-- ===== src/Lifecycle/Verdicts.antt =====
-- swebench_eval/database/state_machine.py: what the taxonomy and the maps guarantee.
use agent_evals.Prelude.{
  String, ◌≡◌, ◌↔◌, Bool, true, false, not, ◌&&◌, ◌||◌, Option, none, some, ◌=s◌, arith,
}
use agent_evals.Lifecycle.{
  ErrorCategory, HarnessState, EvalOutcome, patch_ready, resolved, is_retryable, is_terminal,
  is_present, cut_short_category, cut_short_state, map_terminated_reason_to_error_category,
  map_terminated_reason_to_state, map_eval_outcome_to_error_category,
}

is_finish : HarnessState → Bool
is_finish patch_ready = true
is_finish HarnessState.empty_patch = true
is_finish _ = false

is_terminal-cut_short_category : (reason : String) → is_terminal (cut_short_category reason) ≡ false
unfolding cut_short_category is_terminal
is_terminal-cut_short_category reason = ground arith

is_finish-cut_short_state : (reason : String) → is_finish (cut_short_state reason) ≡ false
unfolding cut_short_state is_finish
is_finish-cut_short_state reason = ground arith

-- A result is queued for grading (state PATCH_READY) exactly when its reason is `completed` and its
-- patch is a non-empty text; it lands as EMPTY_PATCH exactly when its reason is `completed` and there
-- is no such patch. A run that was cut short is neither, whatever patch it left.
pub state-graded_iff :
    (reason : String) (patch : Option String)
    → ((map_terminated_reason_to_state reason patch ≡ patch_ready)
        ↔ (((reason =s "completed") && is_present patch) ≡ true))
      × ((map_terminated_reason_to_state reason patch ≡ HarnessState.empty_patch)
          ↔ (((reason =s "completed") && not (is_present patch)) ≡ true))
unfolding map_terminated_reason_to_state is_finish
state-graded_iff reason patch = ground (arith, is_finish-cut_short_state reason)

-- The two maps of a termination reason agree: there is no error category yet exactly when the state
-- is PATCH_READY, and the category is EMPTY_PATCH exactly when the state is.
pub category-state_agree :
    (reason : String) (patch : Option String)
    → ((map_terminated_reason_to_error_category reason patch ≡ none)
        ↔ (map_terminated_reason_to_state reason patch ≡ patch_ready))
      × ((map_terminated_reason_to_error_category reason patch ≡ some ErrorCategory.empty_patch)
          ↔ (map_terminated_reason_to_state reason patch ≡ HarnessState.empty_patch))
unfolding map_terminated_reason_to_state map_terminated_reason_to_error_category is_finish
    is_terminal
category-state_agree reason patch =
    ground (arith, is_finish-cut_short_state reason, is_terminal-cut_short_category reason)

-- A category that a termination reason maps to is terminal exactly when the reason is `completed`.
pub category-terminal :
    (reason : String) (patch : Option String) (c : ErrorCategory)
    → map_terminated_reason_to_error_category reason patch ≡ some c
    → is_terminal c ≡ (reason =s "completed")
unfolding map_terminated_reason_to_error_category is_terminal
category-terminal reason patch c h = ground (arith, is_terminal-cut_short_category reason)

-- A grade is RESOLVED exactly when the tests passed, the patch applied and none of the four flags
-- that void a grade is raised. A grade is retryable exactly when an OOM kill or an infrastructure
-- failure voided it, and terminal in every other case.
pub outcome_classes :
    (o : EvalOutcome)
    → ((map_eval_outcome_to_error_category o ≡ resolved) ↔ (
        (o.is_resolved
          && (o.patch_apply_ok
              && not (o.oom_killed || (o.infra_failure || (o.timed_out || o.grade_invalid)))))
        ≡ true))
      × (is_retryable (map_eval_outcome_to_error_category o) ≡ (o.oom_killed || o.infra_failure))
      × (is_terminal (map_eval_outcome_to_error_category o) ≡ not (o.oom_killed || o.infra_failure))
unfolding map_eval_outcome_to_error_category is_retryable is_terminal
outcome_classes o = ground arith
