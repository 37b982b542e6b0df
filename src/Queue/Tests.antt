-- ===== src/Queue/Tests.antt =====
-- The messages of schemas.py at concrete values.
use agent_evals.Prelude.{ℕ, ◌^◌, ◌<◌, arith, ◌≡◌, refl, none, some}
use agent_evals.Prelude.Text.{codes}
use agent_evals.Prelude.Decimal.{to_thousandths, of_thousandths}
use agent_evals.Queue.{JobReference, Builtins, to_env, from_env}
use agent_evals.Queue.RoundTrip.{IsComplete, AllShort, reread, from_env-to_env}

abbrev reference : JobReference
reference = record {
  run_id = codes "run-1";
  instance_id = codes "django-1";
  attempt_number = 2;
  receipt_handle = codes "handle";
  harness_name = codes "codex";
  model_alias = codes "cheap-oss-model";
  timeout_seconds = 5400;
  max_tokens_per_instance = none;
  max_cost_usd_per_instance = record { num = 50_004; den = 10_000 };
  max_turns_per_instance = some 500;
  context_window_tokens = some 262_144;
  dispatched_at = some (record { num = 1_700_000_000_250_123; den = 1_000_000 });
  queue_wait_s = none;
  litellm_api_key = none;
}

abbrev builtins : Builtins
builtins = record { nearest_float = of_thousandths; other_int = λ s. none; other_float = λ s. none }

reference-IsComplete : IsComplete reference
reference-IsComplete = record {
  run_id = refl;
  instance_id = refl;
  receipt_handle = refl;
  harness_name = refl;
  model_alias = refl;
  litellm_api_key = λ e. cc;
}

whole : (q : ℕ) → q < 2 ^ 52 → to_thousandths (of_thousandths q) ≡ q
whole q short = ground arith

reference-AllShort : AllShort reference
reference-AllShort = record {
  max_cost_usd_per_instance = omega arith;
  dispatched_at = omega arith;
  queue_wait_s = tt;
}

from_env-to_env_example :
    (from_env builtins (to_env reference) ≡ some (reread builtins reference))
    × (to_env (reread builtins reference) ≡ to_env reference)
from_env-to_env_example =
    from_env-to_env builtins whole reference reference-IsComplete reference-AllShort

-- Microseconds are lost.
dispatched_at_rounded :
    (reread builtins reference).dispatched_at
    ≡ some (record { num = 1_700_000_000_250; den = 1_000 })
dispatched_at_rounded = refl
