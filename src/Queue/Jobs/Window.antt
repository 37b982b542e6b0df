-- ===== src/Queue/Jobs/Window.antt =====
-- schemas.py: what becomes of a harness job on the queue.
use agent_evals.Prelude.{ℕ, ◌≡◌, refl, Option, none, some, ◌=s◌}
use agent_evals.Results.{int, float, from_option}
use agent_evals.Results.Wire.{
  Casts, str, int_of, float_of, required, get_or, body_get, some_unless_null, opt_float,
}
use agent_evals.Queue.Jobs.{
  HarnessJob, default_context_window_tokens, int_or_null, int_or_default, int_or_none_default,
  from_dict, job_as_dict,
}

int_kept : (c : Casts) (o : Option ℕ) → some_unless_null (int_of c) (from_option int o) ≡ some o
unfolding some_unless_null int_of
int_kept c none = refl
int_kept c (some n) = refl

float_kept :
    (c : Casts) (o : Option ℕ) → some_unless_null (float_of c) (from_option float o) ≡ some o
unfolding some_unless_null float_of
float_kept c none = refl
float_kept c (some n) = refl

-- None becomes the default.
abbrev pub or_window : Option ℕ → Option ℕ
or_window none = default_context_window_tokens
or_window (some n) = some n

window_default :
    (c : Casts) (o : Option ℕ)
    → int_or_default c default_context_window_tokens (from_option int o) ≡ some (or_window o)
unfolding int_or_default int_of
window_default c none = refl
window_default c (some n) = refl

-- A harness job, sent as a body and parsed, is the job, but for its context window: none, which turns
-- compaction off for the job, is read as the default window.
pub from_dict-job_as_dict :
    (c : Casts) (j : HarnessJob)
    → from_dict c (job_as_dict j)
      ≡ some (record j { context_window_tokens = or_window j.context_window_tokens })
unfolding from_dict required get_or str int_of float_of int_or_null int_or_none_default opt_float
    body_get job_as_dict ◌=s◌
from_dict-job_as_dict c j =
    rw
      (
        int_kept c j.max_tokens_per_instance,
        int_kept c j.max_turns_per_instance,
        float_kept c j.dispatched_at,
        float_kept c j.queue_wait_s,
        window_default c j.context_window_tokens,
      )
      refl
