-- ===== src/Queue/RoundTrip.antt =====
-- schemas.py: what of a job reference survives the environment.
use agent_evals.Prelude.{ℕ, ◌^◌, ◌<◌, ap, ◌≡◌, ◌≢◌, refl, false, Option, none, some, [], ◌∷◌, ◌=s◌}
use agent_evals.Prelude.Text.{Text}
use agent_evals.Prelude.Decimal.{
  Fraction, to_thousandths, decimal, fixed3, is_empty, read_digits-decimal, read_fixed-fixed3,
  decimal_full, fixed3_full,
}
use agent_evals.Queue.{
  JobReference, from_option, text_of_float, to_env, lookup_text, Builtins, int_of_text,
  float_of_text, non_empty, or_none, text_or_none, from_env,
}

-- The texts that the reader requires are there, and the key is not the empty text.
pub record IsComplete (r : JobReference) : Type 0 where
  pub run_id : is_empty r.run_id ≡ false
  pub instance_id : is_empty r.instance_id ≡ false
  pub receipt_handle : is_empty r.receipt_handle ≡ false
  pub harness_name : is_empty r.harness_name ≡ false
  pub model_alias : is_empty r.model_alias ≡ false
  pub litellm_api_key : r.litellm_api_key ≢ some []

-- A number below 2 ^ 52 thousandths, where floats lie closer together than thousandths.
abbrev pub IsShort : Option Fraction → Type 0
IsShort none = Unit
IsShort (some x) = to_thousandths x < 2 ^ 52

pub record AllShort (r : JobReference) : Type 0 where
  pub max_cost_usd_per_instance : to_thousandths r.max_cost_usd_per_instance < 2 ^ 52
  pub dispatched_at : IsShort r.dispatched_at
  pub queue_wait_s : IsShort r.queue_wait_s

-- A float that is read back.
abbrev pub reread_float : Builtins → Fraction → Fraction
reread_float b x = b.nearest_float (to_thousandths x)

abbrev pub reread_option : Builtins → Option Fraction → Option Fraction
reread_option b none = none
reread_option b (some x) = some (reread_float b x)

-- The reference with its three floats read back, and all else as it is.
abbrev pub reread : Builtins → JobReference → JobReference
reread b r = record r {
  max_cost_usd_per_instance = reread_float b r.max_cost_usd_per_instance;
  dispatched_at = reread_option b r.dispatched_at;
  queue_wait_s = reread_option b r.queue_wait_s;
}

non_empty_full : (s : Text) → is_empty s ≡ false → non_empty s ≡ some s
unfolding non_empty
non_empty_full s h = rw h refl

int-decimal : (b : Builtins) (n : ℕ) → int_of_text b (decimal n) ≡ some n
unfolding int_of_text
int-decimal b n = rw (decimal_full n, read_digits-decimal n) refl

float-fixed3 : (b : Builtins) (q : ℕ) → float_of_text b (fixed3 q) ≡ some (b.nearest_float q)
unfolding float_of_text
float-fixed3 b q = rw (fixed3_full q, read_fixed-fixed3 q) refl

int_or_none :
    (b : Builtins) (o : Option ℕ) → or_none (int_of_text b) (from_option decimal o) ≡ some o
unfolding or_none
int_or_none b none = refl
int_or_none b (some n) = rw (decimal_full n, int-decimal b n) refl

float_or_none :
    (b : Builtins) (o : Option Fraction)
    → or_none (float_of_text b) (from_option text_of_float o) ≡ some (reread_option b o)
unfolding or_none
float_or_none b none = refl
float_or_none b (some x) =
    rw (fixed3_full (to_thousandths x), float-fixed3 b (to_thousandths x)) refl

text_kept : (o : Option Text) → o ≢ some [] → text_or_none (from_option (λ s. s) o) ≡ o
unfolding text_or_none
text_kept none h = refl
text_kept (some []) h = absurd (h refl)
text_kept (some (c ∷ s)) h = refl

from_env-reread :
    (b : Builtins) (r : JobReference) → IsComplete r → from_env b (to_env r) ≡ some (reread b r)
unfolding from_env to_env lookup_text ◌=s◌
from_env-reread b r h =
    rw
      (
        non_empty_full r.run_id h.run_id,
        non_empty_full r.instance_id h.instance_id,
        non_empty_full (decimal r.attempt_number) (decimal_full r.attempt_number),
        int-decimal b r.attempt_number,
        non_empty_full r.receipt_handle h.receipt_handle,
        non_empty_full r.harness_name h.harness_name,
        non_empty_full r.model_alias h.model_alias,
        non_empty_full (decimal r.timeout_seconds) (decimal_full r.timeout_seconds),
        int-decimal b r.timeout_seconds,
        int_or_none b r.max_tokens_per_instance,
        non_empty_full (fixed3 (to_thousandths r.max_cost_usd_per_instance))
            (fixed3_full (to_thousandths r.max_cost_usd_per_instance)),
        float-fixed3 b (to_thousandths r.max_cost_usd_per_instance),
        int_or_none b r.max_turns_per_instance,
        int_or_none b r.context_window_tokens,
        float_or_none b r.dispatched_at,
        float_or_none b r.queue_wait_s,
        text_kept r.litellm_api_key h.litellm_api_key,
      )
      refl

module _ (b : Builtins) (near : (q : ℕ) → q < 2 ^ 52 → to_thousandths (b.nearest_float q) ≡ q) where
  rewritten :
      (o : Option Fraction)
      → IsShort o
      → from_option text_of_float (reread_option b o) ≡ from_option text_of_float o
  rewritten none short = refl
  rewritten (some x) short = ap fixed3 (near (to_thousandths x) short)

  to_env-reread : (r : JobReference) → AllShort r → to_env (reread b r) ≡ to_env r
  unfolding to_env
  to_env-reread r short =
      rw
        (
          near _ short.max_cost_usd_per_instance,
          rewritten r.dispatched_at short.dispatched_at,
          rewritten r.queue_wait_s short.queue_wait_s,
        )
        refl

  -- A reference whose required texts are not empty, whose key is not the empty text, and whose floats are below
  -- 2 ^ 52 thousandths, is written to the environment of a task and read there with every field as it is but
  -- the floats, which are rounded to thousandths: the reference that is read writes the same environment.
  -- `float` may read any number that `.3f` writes with the same thousandths, and may make anything of other
  -- texts.
  pub from_env-to_env :
      (r : JobReference)
      → IsComplete r
      → AllShort r
      → (from_env b (to_env r) ≡ some (reread b r)) × (to_env (reread b r) ≡ to_env r)
  from_env-to_env r complete short = (from_env-reread b r complete, to_env-reread r short)
