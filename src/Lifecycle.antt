-- ===== src/Lifecycle.antt =====
-- swebench_eval/database/state_machine.py: the error taxonomy, the run and instance states, and the
-- maps from a harness's termination reason and from a grade's outcome.
pub mod Verdicts
mod Tests
use agent_evals.Prelude.{
  String, Bool, true, false, not, ◌||◌, Option, none, some, List, [], ◌∷◌, ◌=s◌, if◌then◌else◌, any,
}

-- `ErrorCategory`.
pub data ErrorCategory : Type 0 where
  resolved unresolved harness_timeout harness_stuck harness_budget_exceeded : ErrorCategory
  harness_max_turns_exceeded harness_max_tokens_truncated harness_model_refused : ErrorCategory
  harness_crash model_api_error empty_patch patch_apply_failed eval_infra_error : ErrorCategory
  orchestrator_infra_error eval_grade_invalid paused_by_operator : ErrorCategory
  harness_patch_extract_timeout harness_malformed_tool_calls harness_zero_model_calls :
      ErrorCategory
  harness_empty_response harness_context_exhausted eval_oom_killed eval_timeout : ErrorCategory

-- `category in _RETRYABLE`.
pub is_retryable : ErrorCategory → Bool
is_retryable harness_timeout = true
is_retryable harness_stuck = true
is_retryable harness_budget_exceeded = true
is_retryable harness_crash = true
is_retryable model_api_error = true
is_retryable eval_infra_error = true
is_retryable orchestrator_infra_error = true
is_retryable harness_zero_model_calls = true
is_retryable harness_empty_response = true
is_retryable eval_oom_killed = true
is_retryable _ = false

-- `category in _TERMINAL`.
pub is_terminal : ErrorCategory → Bool
is_terminal resolved = true
is_terminal unresolved = true
is_terminal empty_patch = true
is_terminal patch_apply_failed = true
is_terminal eval_grade_invalid = true
is_terminal eval_timeout = true
is_terminal _ = false

abbrev already_final_run_statuses : List String
already_final_run_statuses = "completed" ∷ "aborted" ∷ "aborting" ∷ "finalising" ∷ []

unfoldable pub is_run_closed : String → Bool
is_run_closed status = any (λ s. status =s s) already_final_run_statuses

-- `HarnessState`.
pub data HarnessState : Type 0 where
  pending dispatched harness_running patch_ready failed_harness stuck budget_exceeded : HarnessState
  empty_patch aborted_in_flight never_dispatched abandoned : HarnessState

-- Python's truth value of `patch: str | None`.
abbrev pub is_present : Option String → Bool
is_present none = false
is_present (some s) = not (s =s "")

-- The reasons other than `completed`, in the order of the tests.
pub cut_short_category : String → ErrorCategory
cut_short_category reason =
    if reason =s "timeout"
    then harness_timeout
    else if reason =s "stuck"
    then harness_stuck
    else if reason =s "budget_exceeded"
    then harness_budget_exceeded
    else if reason =s "max_turns_exceeded"
    then harness_max_turns_exceeded
    else if reason =s "max_tokens_truncated"
    then harness_max_tokens_truncated
    else if reason =s "malformed_tool_calls"
    then harness_malformed_tool_calls
    else if reason =s "zero_model_calls"
    then harness_zero_model_calls
    else if reason =s "context_exhausted"
    then harness_context_exhausted
    else if reason =s "empty_response"
    then harness_empty_response
    else if reason =s "refused"
    then harness_model_refused
    else if reason =s "crash"
    then harness_crash
    else if reason =s "model_api_error"
    then model_api_error
    else if reason =s "patch_extract_timeout"
    then harness_patch_extract_timeout
    else harness_crash

pub map_terminated_reason_to_error_category : String → Option String → Option ErrorCategory
map_terminated_reason_to_error_category reason patch =
    if reason =s "completed"
    then (if is_present patch then none else some ErrorCategory.empty_patch)
    else some (cut_short_category reason)

-- The reasons other than `completed`, in the order of the tests.
pub cut_short_state : String → HarnessState
cut_short_state reason =
    if reason =s "timeout"
    then failed_harness
    else if reason =s "stuck"
    then stuck
    else if reason =s "budget_exceeded"
    then budget_exceeded
    else if reason =s "max_turns_exceeded"
    then failed_harness
    else if reason =s "max_tokens_truncated"
    then failed_harness
    else if reason =s "malformed_tool_calls"
    then failed_harness
    else if reason =s "zero_model_calls"
    then failed_harness
    else if reason =s "context_exhausted"
    then failed_harness
    else if reason =s "empty_response"
    then failed_harness
    else if reason =s "refused"
    then failed_harness
    else if reason =s "crash"
    then failed_harness
    else if reason =s "model_api_error"
    then failed_harness
    else if reason =s "patch_extract_timeout"
    then failed_harness
    else failed_harness

pub map_terminated_reason_to_state : String → Option String → HarnessState
map_terminated_reason_to_state reason patch =
    if reason =s "completed"
    then (if is_present patch then patch_ready else HarnessState.empty_patch)
    else cut_short_state reason

-- The keyword arguments of `map_eval_outcome_to_error_category`.
pub record EvalOutcome : Type 0 where
  pub is_resolved : Bool
  pub patch_apply_ok : Bool
  pub grade_invalid : Bool
  pub oom_killed : Bool
  pub infra_failure : Bool
  pub timed_out : Bool

pub map_eval_outcome_to_error_category : EvalOutcome → ErrorCategory
map_eval_outcome_to_error_category o =
    if o.oom_killed
    then eval_oom_killed
    else if o.infra_failure
    then eval_infra_error
    else if o.timed_out
    then eval_timeout
    else if o.grade_invalid
    then eval_grade_invalid
    else if not o.patch_apply_ok
    then patch_apply_failed
    else if o.is_resolved
    then resolved
    else unresolved
