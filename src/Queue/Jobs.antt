-- ===== src/Queue/Jobs.antt =====
-- swebench_eval/queue/schemas.py: `HarnessJob`, the body of a message of `harness-jobs`.
pub mod Window
use agent_evals.Prelude.{
  ℕ, String, Bool, true, false, Option, none, some, List, [], ◌∷◌, ◌=s◌, if◌then◌else◌,
}
use agent_evals.Results.{Json, null, text, int, float, from_option}
use agent_evals.Results.Wire.{
  Casts, Body, ◌>>=◌, str, int_of, float_of, required, get_or, body_get, some_unless_null,
  opt_float,
}

pub record HarnessJob : Type 0 where
  pub run_id : String
  pub instance_id : String
  pub repo_url : String
  pub base_commit : String
  pub problem_statement : String
  pub attempt_number : ℕ
  pub harness_name : String
  pub model_alias : String
  pub env_image_key : String
  pub timeout_seconds : ℕ
  pub max_tokens_per_instance : Option ℕ
  pub max_cost_usd_per_instance : ℕ
  pub max_turns_per_instance : Option ℕ
  pub dispatched_at : Option ℕ
  pub queue_wait_s : Option ℕ
  pub context_window_tokens : Option ℕ

-- DEFAULT_CONTEXT_WINDOW_TOKENS of run_config.py.
abbrev pub default_context_window_tokens : Option ℕ
default_context_window_tokens = some 262_144

-- `int(body[key]) if body[key] is not None else None`; the outer none is an exception.
unfoldable pub int_or_null : Casts → Option Json → Option (Option ℕ)
int_or_null c none = none
int_or_null c (some v) = some_unless_null (int_of c) v

-- `default if v is None else int(v)`.
unfoldable pub int_or_default : Casts → Option ℕ → Json → Option (Option ℕ)
int_or_default c default null = some default
int_or_default c default v = int_of c v >>= λ n. some (some n)

-- `_int_or_none_default`.
unfoldable pub int_or_none_default : Casts → Body → String → Option ℕ → Option (Option ℕ)
int_or_none_default c body key default = elim (required body key) [
  | none ↦ some default
  | some v ↦ int_or_default c default v
]

-- `HarnessJob.from_dict`.
unfoldable pub from_dict : Casts → Body → Option HarnessJob
from_dict c body = do
  run_id ← required body "run_id"
  instance_id ← required body "instance_id"
  repo_url ← required body "repo_url"
  base_commit ← required body "base_commit"
  problem_statement ← required body "problem_statement"
  attempt_number ← required body "attempt_number" >>= int_of c
  harness_name ← required body "harness_name"
  model_alias ← required body "model_alias"
  timeout_seconds ← required body "timeout_seconds" >>= int_of c
  max_tokens_per_instance ← int_or_null c (required body "max_tokens_per_instance")
  max_cost_usd_per_instance ← required body "max_cost_usd_per_instance" >>= float_of c
  max_turns_per_instance ← int_or_null c (required body "max_turns_per_instance")
  dispatched_at ← opt_float c body "dispatched_at"
  queue_wait_s ← opt_float c body "queue_wait_s"
  context_window_tokens ←
      int_or_none_default c body "context_window_tokens" default_context_window_tokens
  some (record {
    run_id = str c run_id;
    instance_id = str c instance_id;
    repo_url = str c repo_url;
    base_commit = str c base_commit;
    problem_statement = str c problem_statement;
    attempt_number = attempt_number;
    harness_name = str c harness_name;
    model_alias = str c model_alias;
    env_image_key = str c (get_or body "env_image_key" (text ""));
    timeout_seconds = timeout_seconds;
    max_tokens_per_instance = max_tokens_per_instance;
    max_cost_usd_per_instance = max_cost_usd_per_instance;
    max_turns_per_instance = max_turns_per_instance;
    dispatched_at = dispatched_at;
    queue_wait_s = queue_wait_s;
    context_window_tokens = context_window_tokens;
  })

-- `dataclasses.asdict(job)`.
unfoldable pub job_as_dict : HarnessJob → Body
job_as_dict j =
    ("run_id", text j.run_id)
    ∷ ("instance_id", text j.instance_id)
    ∷ ("repo_url", text j.repo_url)
    ∷ ("base_commit", text j.base_commit)
    ∷ ("problem_statement", text j.problem_statement)
    ∷ ("attempt_number", int j.attempt_number)
    ∷ ("harness_name", text j.harness_name)
    ∷ ("model_alias", text j.model_alias)
    ∷ ("env_image_key", text j.env_image_key)
    ∷ ("timeout_seconds", int j.timeout_seconds)
    ∷ ("max_tokens_per_instance", from_option int j.max_tokens_per_instance)
    ∷ ("max_cost_usd_per_instance", float j.max_cost_usd_per_instance)
    ∷ ("max_turns_per_instance", from_option int j.max_turns_per_instance)
    ∷ ("dispatched_at", from_option float j.dispatched_at)
    ∷ ("queue_wait_s", from_option float j.queue_wait_s)
    ∷ ("context_window_tokens", from_option int j.context_window_tokens)
    ∷ []
