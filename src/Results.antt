-- ===== src/Results.antt =====
-- swebench_eval/queue/schemas.py `ResultMessage`, the message of the `results` queue, and the row that
-- swebench_eval/orchestrator/control_plane/results_writer.py keeps for it.
mod Tests
pub mod Wire
pub mod Table
pub mod Summary
pub mod Write
use agent_evals.Prelude.{
  ℕ, String, Bool, true, false, Option, none, some, List, [], ◌∷◌, ◌++◌, ◌=s◌, if◌then◌else◌,
}

-- The values of a body and of a row's columns; NULL, like JSON's null, is `null`. A float stands as its
-- number of thousandths and is never computed with. The lists of these bodies hold texts.
pub data Json : Type 0 where
  null : Json
  text : String → Json
  int float : ℕ → Json
  bool : Bool → Json
  texts : List String → Json

abbrev pub from_option : {A : Type 0} → (A → Json) → Option A → Json
from_option f none = null
from_option f (some a) = f a

-- The fields of `ResultMessage`, in the groups of the class: usage, timing, contamination, compaction.
pub record Usage : Type 0 where
  pub input_tokens : Option ℕ
  pub output_tokens : Option ℕ
  pub cached_tokens : Option ℕ
  pub cache_write_tokens : Option ℕ
  pub reasoning_tokens : Option ℕ
  pub cost_source : Option String
  pub usage_parse_failed_calls : Option ℕ
  pub paced_wait_ms_total : Option ℕ
  pub paced_calls : Option ℕ
  pub pacer_timeouts : Option ℕ
  pub overload_retries_total : Option ℕ
  pub turns_used : Option ℕ
  pub cost_usd : Option ℕ
  pub adapter_input_tokens : Option ℕ
  pub adapter_output_tokens : Option ℕ
  pub adapter_cost_usd : Option ℕ

pub record Timing : Type 0 where
  pub queue_wait_s : Option ℕ
  pub provision_s : Option ℕ
  pub image_pull_s : Option ℕ
  pub worker_boot_s : Option ℕ
  pub repo_prep_s : Option ℕ
  pub agent_s : Option ℕ
  pub patch_extract_s : Option ℕ
  pub artifact_upload_s : Option ℕ
  pub task_observed_s : Option ℕ
  pub task_billed_s : Option ℕ
  pub repo_prep_cache_hit : Option Bool
  pub image_pull_cold : Option Bool
  pub eval_queue_wait_s : Option ℕ
  pub eval_patch_fetch_s : Option ℕ
  pub eval_image_pull_s : Option ℕ
  pub eval_test_s : Option ℕ
  pub eval_log_upload_s : Option ℕ
  pub eval_image_pull_cold : Option Bool

pub record Honesty : Type 0 where
  pub stripped_test_paths : List String
  pub grade_invalid : Option Bool
  pub leaked_node_ids : Option (List String)
  pub leak_detectable : Option Bool
  pub gold_patch_similarity : Option ℕ

pub record Sizes : Type 0 where
  pub compactions_fired : Option ℕ
  pub compaction_tokens_before : Option ℕ
  pub compaction_tokens_after : Option ℕ
  pub context_window_tokens : Option ℕ

pub record ResultMessage : Type 0 where
  pub run_id : String
  pub instance_id : String
  pub attempt_number : ℕ
  pub phase : String
  pub state : String
  pub error_category : String
  pub error_detail : String
  pub verdict : String
  pub wall_clock_s : ℕ
  pub patch_s3_key : String
  pub trajectory_s3_key : String
  pub raw_log_s3_key : String
  pub native_trajectory_s3_key : String
  pub report_json_s3_key : String
  pub test_output_s3_key : String
  pub run_log_s3_key : String
  pub touches_test_files : Bool
  pub usage : Usage
  pub timing : Timing
  pub honesty : Honesty
  pub sizes : Sizes

-- The values of `_RESULT_EXTRA_COLUMNS`, in their order.
unfoldable pub result_extra_values : ResultMessage → List Json
result_extra_values m =
    (from_option float m.timing.queue_wait_s)
    ∷ (from_option float m.timing.provision_s)
    ∷ (from_option float m.timing.image_pull_s)
    ∷ (from_option float m.timing.worker_boot_s)
    ∷ (from_option float m.timing.repo_prep_s)
    ∷ (from_option float m.timing.agent_s)
    ∷ (from_option float m.timing.patch_extract_s)
    ∷ (from_option float m.timing.artifact_upload_s)
    ∷ (from_option float m.timing.task_observed_s)
    ∷ (from_option float m.timing.task_billed_s)
    ∷ (from_option bool m.timing.repo_prep_cache_hit)
    ∷ (from_option bool m.timing.image_pull_cold)
    ∷ (from_option float m.timing.eval_queue_wait_s)
    ∷ (from_option float m.timing.eval_patch_fetch_s)
    ∷ (from_option float m.timing.eval_image_pull_s)
    ∷ (from_option float m.timing.eval_test_s)
    ∷ (from_option float m.timing.eval_log_upload_s)
    ∷ (from_option bool m.timing.eval_image_pull_cold)
    ∷ (texts m.honesty.stripped_test_paths)
    ∷ (from_option bool m.honesty.grade_invalid)
    ∷ (from_option texts m.honesty.leaked_node_ids)
    ∷ (from_option bool m.honesty.leak_detectable)
    ∷ (from_option float m.honesty.gold_patch_similarity)
    ∷ (from_option int m.usage.input_tokens)
    ∷ (from_option int m.usage.output_tokens)
    ∷ (from_option int m.usage.cached_tokens)
    ∷ (from_option int m.usage.cache_write_tokens)
    ∷ (from_option int m.usage.reasoning_tokens)
    ∷ (from_option text m.usage.cost_source)
    ∷ (from_option int m.usage.usage_parse_failed_calls)
    ∷ (from_option int m.usage.paced_wait_ms_total)
    ∷ (from_option int m.usage.paced_calls)
    ∷ (from_option int m.usage.pacer_timeouts)
    ∷ (from_option int m.usage.overload_retries_total)
    ∷ (from_option int m.usage.turns_used)
    ∷ (from_option float m.usage.cost_usd)
    ∷ (from_option int m.usage.adapter_input_tokens)
    ∷ (from_option int m.usage.adapter_output_tokens)
    ∷ (from_option float m.usage.adapter_cost_usd)
    ∷ (from_option int m.sizes.compactions_fired)
    ∷ (from_option int m.sizes.compaction_tokens_before)
    ∷ (from_option int m.sizes.compaction_tokens_after)
    ∷ (from_option int m.sizes.context_window_tokens)
    ∷ (text m.native_trajectory_s3_key)
    ∷ (text m.test_output_s3_key)
    ∷ (text m.run_log_s3_key)
    ∷ []

-- `s or None`.
abbrev pub text_or_null : String → Json
text_or_null s = if s =s "" then null else text s

-- `x if phase == p else None`.
abbrev pub in_phase : String → String → ℕ → Json
in_phase phase p x = if phase =s p then float x else null

unfoldable pub core_evidence_values : ResultMessage → List Json
core_evidence_values m =
    text_or_null m.error_category
    ∷ text_or_null m.error_detail
    ∷ text_or_null m.verdict
    ∷ in_phase m.phase "harness" m.wall_clock_s
    ∷ in_phase m.phase "eval" m.wall_clock_s
    ∷ bool m.touches_test_files
    ∷ text_or_null m.patch_s3_key
    ∷ text_or_null m.trajectory_s3_key
    ∷ text_or_null m.raw_log_s3_key
    ∷ text_or_null m.report_json_s3_key
    ∷ null
    ∷ []

-- The values of `_EVIDENCE_COLUMNS`.
unfoldable pub evidence_values : ResultMessage → List Json
evidence_values m = core_evidence_values m ++ result_extra_values m

-- The primary key of `instance_results`.
pub record Key : Type 0 where
  pub run_id : String
  pub instance_id : String
  pub attempt_number : ℕ
  pub phase : String

-- The columns of `instance_results` beside the key; `evidence` holds those of `_EVIDENCE_COLUMNS`.
pub record Row : Type 0 where
  pub state : String
  pub dispatched_at : Option ℕ
  pub dispatch_count : ℕ
  pub created_at : ℕ
  pub seeded_at : Option ℕ
  pub retry_reason : Json
  pub evidence : List Json

abbrev pub key_of : ResultMessage → Key
key_of m = record {
  run_id = m.run_id;
  instance_id = m.instance_id;
  attempt_number = m.attempt_number;
  phase = m.phase;
}
