-- ===== src/Reaper/Deadline.antt =====
-- run_supervisor.py `_reap_deadline_rule`, and the message that a reap is reported with
-- (results_writer.py `_emit_reap_result`).
use agent_evals.Prelude.{
  ℕ, ◌+◌, String, Bool, false, not, ◌&&◌, Option, none, some, List, [], ◌∷◌, ◌++◌, ltb, ◌=s◌,
  if◌then◌else◌, any, keep,
}
use agent_evals.Results.{Usage, Timing, Honesty, Sizes, ResultMessage, Key, Row}
use agent_evals.Results.Write.{harness_key}
use agent_evals.Results.Table.{Table}
use agent_evals.Results.Summary.{one_of}
use agent_evals.Reaper.{seconds, select, has_key}

abbrev no_usage : Usage
no_usage = record {
  input_tokens = none;
  output_tokens = none;
  cached_tokens = none;
  cache_write_tokens = none;
  reasoning_tokens = none;
  cost_source = none;
  usage_parse_failed_calls = none;
  paced_wait_ms_total = none;
  paced_calls = none;
  pacer_timeouts = none;
  overload_retries_total = none;
  turns_used = none;
  cost_usd = none;
  adapter_input_tokens = none;
  adapter_output_tokens = none;
  adapter_cost_usd = none;
}

abbrev no_timing : Timing
no_timing = record {
  queue_wait_s = none;
  provision_s = none;
  image_pull_s = none;
  worker_boot_s = none;
  repo_prep_s = none;
  agent_s = none;
  patch_extract_s = none;
  artifact_upload_s = none;
  task_observed_s = none;
  task_billed_s = none;
  repo_prep_cache_hit = none;
  image_pull_cold = none;
  eval_queue_wait_s = none;
  eval_patch_fetch_s = none;
  eval_image_pull_s = none;
  eval_test_s = none;
  eval_log_upload_s = none;
  eval_image_pull_cold = none;
}

abbrev no_honesty : Honesty
no_honesty = record {
  stripped_test_paths = [];
  grade_invalid = none;
  leaked_node_ids = none;
  leak_detectable = none;
  gold_patch_similarity = none;
}

abbrev no_sizes : Sizes
no_sizes = record {
  compactions_fired = none;
  compaction_tokens_before = none;
  compaction_tokens_after = none;
  context_window_tokens = none;
}

-- The message of `_emit_reap_result`: the defaults of `ResultMessage` beside the fields that it names.
unfoldable pub reap_message : Key → String → String → ResultMessage
reap_message k state detail = record {
  run_id = k.run_id;
  instance_id = k.instance_id;
  attempt_number = k.attempt_number;
  phase = k.phase;
  state = state;
  error_category = "";
  error_detail = detail;
  verdict = "";
  wall_clock_s = 0;
  patch_s3_key = "";
  trajectory_s3_key = "";
  raw_log_s3_key = "";
  native_trajectory_s3_key = "";
  report_json_s3_key = "";
  test_output_s3_key = "";
  run_log_s3_key = "";
  touches_test_files = false;
  usage = no_usage;
  timing = no_timing;
  honesty = no_honesty;
  sizes = no_sizes;
}

-- What the rule reads for a run; the timeout is that of the run's configuration, in seconds.
pub record RunView : Type 0 where
  pub run_id : String
  pub timeout : Option ℕ
  pub harness_paused : Bool
  pub eval_paused : Bool
  pub utc : ℕ
  pub rows : Table
  pub running : List String
  pub progress : List Key

-- `_REAP_MARGIN_S`, `_RULE2_HARNESS_STATES`, `_RULE2_EVAL_STATES`.
abbrev pub reap_margin : ℕ
reap_margin = 1200

abbrev pub rule2_harness_states : List String
rule2_harness_states = "DISPATCHED" ∷ "HARNESS_RUNNING" ∷ []

abbrev pub rule2_eval_states : List String
rule2_eval_states = "EVAL_RUNNING" ∷ []

-- `column IS NOT NULL AND column < cutoff`.
abbrev pub is_before : ℕ → ℕ → Option ℕ → Bool
is_before wait utc none = false
is_before wait utc (some at) = ltb (at + wait) utc

abbrev pub is_overdue : RunView → ℕ → String → List String → (Row → Option ℕ) → Key → Row → Bool
is_overdue v timeout phase states column k r =
    k.run_id =s v.run_id
    && (k.phase =s phase
        && (one_of states r.state && is_before (seconds (timeout + reap_margin)) v.utc (column r)))

-- No running task of the instance and no progress key of the attempt.
abbrev pub is_silent : RunView → Key → Bool
is_silent v k =
    not (any (λ i. i =s k.instance_id) v.running) && not (has_key (harness_key k) v.progress)

-- One turn of the loop over the phases.
unfoldable pub reap_phase : RunView → ℕ → Bool → String → List String → (Row → Option ℕ) → List Key
reap_phase v timeout paused phase states column =
    if paused
    then []
    else keep (is_silent v) (select (is_overdue v timeout phase states column) v.rows)

-- The loop over the phases, for the timeout of the run's configuration.
unfoldable pub reap_with : RunView → Option ℕ → List Key
reap_with v none = []
reap_with v (some timeout) =
    reap_phase v timeout v.harness_paused "harness" rule2_harness_states (λ r. r.dispatched_at)
    ++ reap_phase v timeout v.eval_paused "eval" rule2_eval_states (λ r. r.seeded_at)

-- `_reap_deadline_rule`: the rows that are reported ABANDONED.
unfoldable pub reap_deadline_rule : RunView → List Key
reap_deadline_rule v = reap_with v v.timeout
