-- ===== src/Results/Tests.antt =====
-- results_writer.py at concrete messages and rows.
use agent_evals.Prelude.{
  ℕ, ◌≤◌, ◌≡◌, refl, String, true, false, none, some, List, [], ◌∷◌, ◌=s◌, is_some, arith,
}
use agent_evals.Results.{
  null, text, Usage, Timing, Honesty, Sizes, ResultMessage, Key, Row, key_of, evidence_values,
  core_evidence_values, result_extra_values,
}
use agent_evals.Results.Wire.{Casts, parse_result, as_dict}
use agent_evals.Results.Wire.RoundTrip.{parse_result-as_dict}
use agent_evals.Results.Table.{same_key, find}
use agent_evals.Results.Write.{
  Records, Calls, Delivery, deliver, state_rank, lookup, process_result,
}
use agent_evals.Results.Write.Ranks.{level-deliver, level_at}
use agent_evals.Results.Write.Jobs.{jobs_of-deliver, jobs_of}
use agent_evals.Results.Write.Handover.{job_lost}
use agent_evals.Results.Write.Evidence.{evidence_carried, IsFrom, column_at, is_null}

abbrev no_usage : Usage
no_usage = record {
  input_tokens = none;
  output_tokens = none;
  cached_tokens = none;
  cache_write_tokens = none;
  reasoning_tokens = none;
  cost_source = none;
  usage_parse_failed_calls = none;
  paced_wait_ms_total = none;
  paced_calls = none;
  pacer_timeouts = none;
  overload_retries_total = none;
  turns_used = none;
  cost_usd = none;
  adapter_input_tokens = none;
  adapter_output_tokens = none;
  adapter_cost_usd = none;
}

abbrev no_timing : Timing
no_timing = record {
  queue_wait_s = none;
  provision_s = none;
  image_pull_s = none;
  worker_boot_s = none;
  repo_prep_s = none;
  agent_s = none;
  patch_extract_s = none;
  artifact_upload_s = none;
  task_observed_s = none;
  task_billed_s = none;
  repo_prep_cache_hit = none;
  image_pull_cold = none;
  eval_queue_wait_s = none;
  eval_patch_fetch_s = none;
  eval_image_pull_s = none;
  eval_test_s = none;
  eval_log_upload_s = none;
  eval_image_pull_cold = none;
}

abbrev no_honesty : Honesty
no_honesty = record {
  stripped_test_paths = [];
  grade_invalid = none;
  leaked_node_ids = none;
  leak_detectable = none;
  gold_patch_similarity = none;
}

abbrev no_sizes : Sizes
no_sizes = record {
  compactions_fired = none;
  compaction_tokens_before = none;
  compaction_tokens_after = none;
  context_window_tokens = none;
}

abbrev message : String → String → ResultMessage
message phase state = record {
  run_id = "run-1";
  instance_id = "django-1";
  attempt_number = 1;
  phase = phase;
  state = state;
  error_category = "";
  error_detail = "";
  verdict = "";
  wall_clock_s = 0;
  patch_s3_key = "patches/1";
  trajectory_s3_key = "";
  raw_log_s3_key = "";
  native_trajectory_s3_key = "";
  report_json_s3_key = "";
  test_output_s3_key = "";
  run_log_s3_key = "";
  touches_test_files = false;
  usage = no_usage;
  timing = no_timing;
  honesty = no_honesty;
  sizes = no_sizes;
}

abbrev dispatched_message : ResultMessage
dispatched_message = message "harness" "DISPATCHED"

abbrev patch_ready_message : ResultMessage
patch_ready_message = message "harness" "PATCH_READY"

abbrev abort_message : ResultMessage
abort_message = message "harness" "ABORTED_IN_FLIGHT"

abbrev up : Calls
up = record { write = true; seed = true; send = true; summarise = true }

abbrev sent : ResultMessage → Delivery
sent m = record { calls = up; now = 7; message = m }

abbrev attempt : Key
attempt = key_of patch_ready_message

abbrev one_run : Records
one_run = record { runs = ("run-1", "running") ∷ []; rows = []; summaries = []; jobs = [] }

abbrev casts : Casts
casts = record {
  shown = λ v. "None";
  int_of_text = λ s. none;
  float_of_text = λ s. none;
  characters = λ s. [];
}

parse_result-as_dict_example :
    parse_result casts (as_dict patch_ready_message) ≡ some patch_ready_message
parse_result-as_dict_example = parse_result-as_dict casts patch_ready_message (λ e. cc)

level-deliver_example :
    level_at attempt (deliver (sent patch_ready_message ∷ sent dispatched_message ∷ []) one_run) ≡ 5
unfolding lookup ◌=s◌ same_key find state_rank
level-deliver_example =
    level-deliver (sent patch_ready_message ∷ sent dispatched_message ∷ []) one_run attempt refl

jobs_of-deliver_example :
    jobs_of attempt
      (deliver (sent patch_ready_message ∷ sent patch_ready_message ∷ []) one_run).jobs
    ≤ 1
unfolding jobs_of find ◌=s◌
jobs_of-deliver_example =
    jobs_of-deliver attempt refl (sent patch_ready_message ∷ sent patch_ready_message ∷ []) one_run
      (omega arith)

abbrev send_down : Calls
send_down = record { write = true; seed = true; send = false; summarise = true }

abbrev unsent : Delivery
unsent = record { calls = send_down; now = 7; message = patch_ready_message }

job_lost_example :
    (is_some ((process_result send_down 7 patch_ready_message one_run).1) ≡ true)
    × ((es : List Delivery)
        → jobs_of attempt (deliver (unsent ∷ es) one_run).jobs ≡ jobs_of attempt one_run.jobs)
unfolding lookup ◌=s◌ find
job_lost_example = job_lost unsent one_run refl refl (omega arith) refl

-- The place of `patch_path` among the columns.
abbrev patch_column : ℕ
patch_column = 6

abbrev two_messages : List Delivery
two_messages = sent patch_ready_message ∷ sent abort_message ∷ []

evidence_carried_example :
    let column = column_at patch_column attempt (deliver two_messages one_run) in
    (is_null column ≡ false)
    × IsFrom patch_column attempt column (column_at patch_column attempt one_run) two_messages
unfolding lookup ◌=s◌ same_key evidence_values core_evidence_values result_extra_values
evidence_carried_example =
    evidence_carried attempt refl patch_column (sent patch_ready_message) (sent abort_message ∷ [])
      one_run refl refl

abbrev aborted : Records
aborted = deliver (sent abort_message ∷ []) one_run

abbrev settled_row : Row
settled_row = record {
  state = "RESOLVED";
  dispatched_at = none;
  dispatch_count = 1;
  created_at = 0;
  seeded_at = none;
  retry_reason = null;
  evidence = null ∷ null ∷ text "resolved" ∷ [];
}

abbrev graded : Key
graded = key_of (message "eval" "RESOLVED")

abbrev settled : Records
settled = record {
  runs = ("run-1", "running") ∷ [];
  rows = (attempt, settled_row) ∷ (graded, settled_row) ∷ [];
  summaries = [];
  jobs = [];
}
