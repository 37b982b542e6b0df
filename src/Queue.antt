-- ===== src/Queue.antt =====
-- swebench_eval/queue/schemas.py: `JobReference`, the environment that the dispatcher starts a harness task
-- with. A float is a fraction, not negative and finite; `.3f` rounds it to thousandths, and what `float` makes of
-- the text, which is the float nearest to it, is an argument.
pub mod Jobs
pub mod RoundTrip
mod Tests
use agent_evals.Prelude.{
  ℕ, String, Bool, true, false, Option, none, some, List, [], ◌∷◌, ◌=s◌, if◌then◌else◌,
}
use agent_evals.Prelude.Text.{Text}
use agent_evals.Prelude.Decimal.{
  Fraction, decimal, fixed3, to_thousandths, read_digits, read_fixed, is_empty,
}

pub record JobReference : Type 0 where
  pub run_id : Text
  pub instance_id : Text
  pub attempt_number : ℕ
  pub receipt_handle : Text
  pub harness_name : Text
  pub model_alias : Text
  pub timeout_seconds : ℕ
  pub max_tokens_per_instance : Option ℕ
  pub max_cost_usd_per_instance : Fraction
  pub max_turns_per_instance : Option ℕ
  pub context_window_tokens : Option ℕ
  pub dispatched_at : Option Fraction
  pub queue_wait_s : Option Fraction
  pub litellm_api_key : Option Text

-- `containerOverrides[].environment`: the names with their values.
abbrev pub Environment : Type 0
Environment = List (String × Text)

-- None is the empty text.
abbrev pub from_option : {A : Type 0} → (A → Text) → Option A → Text
from_option f none = []
from_option f (some a) = f a

-- `f"{x:.3f}"`.
abbrev pub text_of_float : Fraction → Text
text_of_float x = fixed3 (to_thousandths x)

-- `JobReference.to_env`, with the names of `ENV_NAMES`.
unfoldable pub to_env : JobReference → Environment
to_env r =
    ("RUN_ID", r.run_id)
    ∷ ("INSTANCE_ID", r.instance_id)
    ∷ ("ATTEMPT_NUMBER", decimal r.attempt_number)
    ∷ ("RECEIPT_HANDLE", r.receipt_handle)
    ∷ ("HARNESS_NAME", r.harness_name)
    ∷ ("MODEL_ALIAS", r.model_alias)
    ∷ ("TIMEOUT_SECONDS", decimal r.timeout_seconds)
    ∷ ("MAX_TOKENS_PER_INSTANCE", from_option decimal r.max_tokens_per_instance)
    ∷ ("MAX_COST_USD_PER_INSTANCE", text_of_float r.max_cost_usd_per_instance)
    ∷ ("MAX_TURNS_PER_INSTANCE", from_option decimal r.max_turns_per_instance)
    ∷ ("CONTEXT_WINDOW_TOKENS", from_option decimal r.context_window_tokens)
    ∷ ("DISPATCHED_AT", from_option text_of_float r.dispatched_at)
    ∷ ("QUEUE_WAIT_S", from_option text_of_float r.queue_wait_s)
    ∷ ("LITELLM_API_KEY", from_option (λ s. s) r.litellm_api_key)
    ∷ []

-- `e.get(name, "")`.
unfoldable pub lookup_text : String → Environment → Text
lookup_text name [] = []
lookup_text name ((n, v) ∷ env) = if n =s name then v else lookup_text name env

-- What `int(s)` and `float(s)` make of a text: the float nearest to a number of thousandths, and whatever they
-- make of another text than one of digits or one with three places; none where they raise.
pub record Builtins : Type 0 where
  pub nearest_float : ℕ → Fraction
  pub other_int : Text → Option ℕ
  pub other_float : Text → Option Fraction

abbrev pub or_other : {A : Type 0} → Option A → Option A → Option A
or_other none other = other
or_other (some a) other = some a

infixl 5 ◌>>=◌
abbrev pub ◌>>=◌ : {A B : Type 0} → Option A → (A → Option B) → Option B
none >>= f = none
some a >>= f = f a

unfoldable pub int_of_text : Builtins → Text → Option ℕ
int_of_text b s = if is_empty s then b.other_int s else or_other (read_digits 0 s) (b.other_int s)

unfoldable pub float_of_text : Builtins → Text → Option Fraction
float_of_text b s =
    if is_empty s
    then b.other_float s
    else or_other (read_fixed 0 s >>= λ q. some (b.nearest_float q)) (b.other_float s)

-- `_required`: none where it raises.
unfoldable pub non_empty : Text → Option Text
non_empty s = if is_empty s then none else some s

abbrev pub required_text : String → Environment → Option Text
required_text name env = non_empty (lookup_text name env)

-- `_int_or_none`, `_float_or_none`: an empty value is None, and what raises is none.
unfoldable pub or_none : {A : Type 0} → (Text → Option A) → Text → Option (Option A)
or_none f s = if is_empty s then some none else f s >>= λ a. some (some a)

unfoldable pub text_or_none : Text → Option Text
text_or_none s = if is_empty s then none else some s

-- `JobReference.from_env`.
unfoldable pub from_env : Builtins → Environment → Option JobReference
from_env b env = do
  run_id ← required_text "RUN_ID" env
  instance_id ← required_text "INSTANCE_ID" env
  attempt_number ← required_text "ATTEMPT_NUMBER" env >>= int_of_text b
  receipt_handle ← required_text "RECEIPT_HANDLE" env
  harness_name ← required_text "HARNESS_NAME" env
  model_alias ← required_text "MODEL_ALIAS" env
  timeout_seconds ← required_text "TIMEOUT_SECONDS" env >>= int_of_text b
  max_tokens_per_instance ← or_none (int_of_text b) (lookup_text "MAX_TOKENS_PER_INSTANCE" env)
  max_cost_usd_per_instance ← required_text "MAX_COST_USD_PER_INSTANCE" env >>= float_of_text b
  max_turns_per_instance ← or_none (int_of_text b) (lookup_text "MAX_TURNS_PER_INSTANCE" env)
  context_window_tokens ← or_none (int_of_text b) (lookup_text "CONTEXT_WINDOW_TOKENS" env)
  dispatched_at ← or_none (float_of_text b) (lookup_text "DISPATCHED_AT" env)
  queue_wait_s ← or_none (float_of_text b) (lookup_text "QUEUE_WAIT_S" env)
  some (record {
    run_id = run_id;
    instance_id = instance_id;
    attempt_number = attempt_number;
    receipt_handle = receipt_handle;
    harness_name = harness_name;
    model_alias = model_alias;
    timeout_seconds = timeout_seconds;
    max_tokens_per_instance = max_tokens_per_instance;
    max_cost_usd_per_instance = max_cost_usd_per_instance;
    max_turns_per_instance = max_turns_per_instance;
    context_window_tokens = context_window_tokens;
    dispatched_at = dispatched_at;
    queue_wait_s = queue_wait_s;
    litellm_api_key = text_or_none (lookup_text "LITELLM_API_KEY" env);
  })
