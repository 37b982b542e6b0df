-- ===== src/Results/Wire.antt =====
-- results_writer.py `_parse_result` and `dataclasses.asdict` of a result message.
pub mod RoundTrip
use agent_evals.Prelude.{
  ℕ, ◌*◌, ◌/◌, ◌≡◌, refl, String, Bool, true, false, not, Option, none, some, List, [], ◌∷◌, ◌==◌,
  ◌=s◌, if◌then◌else◌, map,
}
use agent_evals.Results.{
  Json, null, text, int, float, bool, texts, from_option, Usage, Timing, Honesty, Sizes,
  ResultMessage,
}

-- A conversion that raises is `none`, and so is what depends on it.
infixl 5 ◌>>=◌
abbrev pub ◌>>=◌ : {A B : Type 0} → Option A → (A → Option B) → Option B
none >>= f = none
some a >>= f = f a

-- A decoded JSON object: its members, by name.
abbrev pub Body : Type 0
Body = List (String × Json)

-- The casts of Python from a JSON value of another type: `str(x)` of what is no text, `int(x)` and
-- `float(x)` of a text, `none` where it raises, and the characters of a text as texts.
pub record Casts : Type 0 where
  pub shown : Json → String
  pub int_of_text : String → Option ℕ
  pub float_of_text : String → Option ℕ
  pub characters : String → List String

-- `body.get(key)`, null when it is missing.
unfoldable pub body_get : Body → String → Json
body_get [] key = null
body_get ((k, v) ∷ body) key = if k =s key then v else body_get body key

-- `body[key]`, which raises on a missing key.
unfoldable pub required : Body → String → Option Json
required [] key = none
required ((k, v) ∷ body) key = if k =s key then some v else required body key

-- `str(v)`.
unfoldable pub str : Casts → Json → String
str c (text s) = s
str c v = c.shown v

-- `int(v)`; none where it raises.
unfoldable pub int_of : Casts → Json → Option ℕ
int_of c null = none
int_of c (text s) = c.int_of_text s
int_of c (int n) = some n
int_of c (float q) = some (q / 1000)
int_of c (bool b) = some (if b then 1 else 0)
int_of c (texts xs) = none

-- `float(v)`, in thousandths; none where it raises.
unfoldable pub float_of : Casts → Json → Option ℕ
float_of c null = none
float_of c (text s) = c.float_of_text s
float_of c (int n) = some (n * 1000)
float_of c (float q) = some q
float_of c (bool b) = some (if b then 1000 else 0)
float_of c (texts xs) = none

-- Python's truth value.
unfoldable pub truth : Json → Bool
truth null = false
truth (text s) = not (s =s "")
truth (int n) = not (n == 0)
truth (float q) = not (q == 0)
truth (bool b) = b
truth (texts []) = false
truth (texts (x ∷ xs)) = true

-- `body.get(key, default)`.
unfoldable pub get_or : Body → String → Json → Json
get_or [] key d = d
get_or ((k, v) ∷ body) key d = if k =s key then v else get_or body key d

unfoldable pub some_unless_null : {A : Type 0} → (Json → Option A) → Json → Option (Option A)
some_unless_null f null = some none
some_unless_null f v = f v >>= λ a. some (some a)

-- `_opt_int`, `_opt_float`, `_opt_bool`: null stands for a field that was not measured.
unfoldable opt_int : Casts → Body → String → Option (Option ℕ)
unfolding body_get int_of some_unless_null
opt_int c body key = some_unless_null (int_of c) (body_get body key)

unfoldable pub opt_float : Casts → Body → String → Option (Option ℕ)
unfolding body_get float_of some_unless_null
opt_float c body key = some_unless_null (float_of c) (body_get body key)

unfoldable pub flag_unless_null : Json → Option Bool
unfolding truth
flag_unless_null null = none
flag_unless_null v = some (truth v)

unfoldable opt_bool : Body → String → Option Bool
unfolding body_get flag_unless_null
opt_bool body key = flag_unless_null (body_get body key)

-- `body.get("cost_source") or None`; the driver writes what is no text as its text.
unfoldable pub text_or_none : Casts → Json → Option String
unfolding truth str
text_or_none c v = if truth v then some (str c v) else none

unfoldable opt_text : Casts → Body → String → Option String
unfolding body_get text_or_none
opt_text c body key = text_or_none c (body_get body key)

-- `tuple(v)` and `list(v)`; none where it raises.
unfoldable pub list_of : Casts → Json → Option (List String)
list_of c (texts xs) = some xs
list_of c (text s) = some (c.characters s)
list_of c v = none

-- `tuple(body.get(key, ()) or ())`.
unfoldable pub list_or_empty : Casts → Json → Option (List String)
unfolding truth list_of
list_or_empty c v = if truth v then list_of c v else some []

unfoldable texts_or_empty : Casts → Body → String → Option (List String)
unfolding body_get list_or_empty
texts_or_empty c body key = list_or_empty c (body_get body key)

unfoldable opt_texts : Casts → Body → String → Option (Option (List String))
unfolding body_get list_of some_unless_null
opt_texts c body key = some_unless_null (list_of c) (body_get body key)

unfoldable pub parse_usage : Casts → Body → Option Usage
unfolding opt_float opt_int opt_text
parse_usage c body = do
  input_tokens ← opt_int c body "input_tokens"
  output_tokens ← opt_int c body "output_tokens"
  cached_tokens ← opt_int c body "cached_tokens"
  cache_write_tokens ← opt_int c body "cache_write_tokens"
  reasoning_tokens ← opt_int c body "reasoning_tokens"
  usage_parse_failed_calls ← opt_int c body "usage_parse_failed_calls"
  paced_wait_ms_total ← opt_int c body "paced_wait_ms_total"
  paced_calls ← opt_int c body "paced_calls"
  pacer_timeouts ← opt_int c body "pacer_timeouts"
  overload_retries_total ← opt_int c body "overload_retries_total"
  turns_used ← opt_int c body "turns_used"
  cost_usd ← opt_float c body "cost_usd"
  adapter_input_tokens ← opt_int c body "adapter_input_tokens"
  adapter_output_tokens ← opt_int c body "adapter_output_tokens"
  adapter_cost_usd ← opt_float c body "adapter_cost_usd"
  some (record {
    input_tokens = input_tokens;
    output_tokens = output_tokens;
    cached_tokens = cached_tokens;
    cache_write_tokens = cache_write_tokens;
    reasoning_tokens = reasoning_tokens;
    cost_source = opt_text c body "cost_source";
    usage_parse_failed_calls = usage_parse_failed_calls;
    paced_wait_ms_total = paced_wait_ms_total;
    paced_calls = paced_calls;
    pacer_timeouts = pacer_timeouts;
    overload_retries_total = overload_retries_total;
    turns_used = turns_used;
    cost_usd = cost_usd;
    adapter_input_tokens = adapter_input_tokens;
    adapter_output_tokens = adapter_output_tokens;
    adapter_cost_usd = adapter_cost_usd;
  })

unfoldable pub parse_timing : Casts → Body → Option Timing
unfolding opt_bool opt_float
parse_timing c body = do
  queue_wait_s ← opt_float c body "queue_wait_s"
  provision_s ← opt_float c body "provision_s"
  image_pull_s ← opt_float c body "image_pull_s"
  worker_boot_s ← opt_float c body "worker_boot_s"
  repo_prep_s ← opt_float c body "repo_prep_s"
  agent_s ← opt_float c body "agent_s"
  patch_extract_s ← opt_float c body "patch_extract_s"
  artifact_upload_s ← opt_float c body "artifact_upload_s"
  task_observed_s ← opt_float c body "task_observed_s"
  task_billed_s ← opt_float c body "task_billed_s"
  eval_queue_wait_s ← opt_float c body "eval_queue_wait_s"
  eval_patch_fetch_s ← opt_float c body "eval_patch_fetch_s"
  eval_image_pull_s ← opt_float c body "eval_image_pull_s"
  eval_test_s ← opt_float c body "eval_test_s"
  eval_log_upload_s ← opt_float c body "eval_log_upload_s"
  some (record {
    queue_wait_s = queue_wait_s;
    provision_s = provision_s;
    image_pull_s = image_pull_s;
    worker_boot_s = worker_boot_s;
    repo_prep_s = repo_prep_s;
    agent_s = agent_s;
    patch_extract_s = patch_extract_s;
    artifact_upload_s = artifact_upload_s;
    task_observed_s = task_observed_s;
    task_billed_s = task_billed_s;
    repo_prep_cache_hit = opt_bool body "repo_prep_cache_hit";
    image_pull_cold = opt_bool body "image_pull_cold";
    eval_queue_wait_s = eval_queue_wait_s;
    eval_patch_fetch_s = eval_patch_fetch_s;
    eval_image_pull_s = eval_image_pull_s;
    eval_test_s = eval_test_s;
    eval_log_upload_s = eval_log_upload_s;
    eval_image_pull_cold = opt_bool body "eval_image_pull_cold";
  })

unfoldable pub parse_honesty : Casts → Body → Option Honesty
unfolding opt_bool opt_float opt_texts texts_or_empty
parse_honesty c body = do
  stripped_test_paths ← texts_or_empty c body "stripped_test_paths"
  leaked_node_ids ← opt_texts c body "leaked_node_ids"
  gold_patch_similarity ← opt_float c body "gold_patch_similarity"
  some (record {
    stripped_test_paths = stripped_test_paths;
    grade_invalid = opt_bool body "grade_invalid";
    leaked_node_ids = leaked_node_ids;
    leak_detectable = opt_bool body "leak_detectable";
    gold_patch_similarity = gold_patch_similarity;
  })

unfoldable pub parse_sizes : Casts → Body → Option Sizes
unfolding opt_int
parse_sizes c body = do
  compactions_fired ← opt_int c body "compactions_fired"
  compaction_tokens_before ← opt_int c body "compaction_tokens_before"
  compaction_tokens_after ← opt_int c body "compaction_tokens_after"
  context_window_tokens ← opt_int c body "context_window_tokens"
  some (record {
    compactions_fired = compactions_fired;
    compaction_tokens_before = compaction_tokens_before;
    compaction_tokens_after = compaction_tokens_after;
    context_window_tokens = context_window_tokens;
  })

unfoldable pub parse_result : Casts → Body → Option ResultMessage
unfolding required str int_of float_of truth get_or parse_usage parse_timing parse_honesty
    parse_sizes
parse_result c body = do
  run_id ← required body "run_id"
  instance_id ← required body "instance_id"
  attempt_number ← required body "attempt_number" >>= int_of c
  phase ← required body "phase"
  state ← required body "state"
  wall_clock_s ← float_of c (get_or body "wall_clock_s" (int 0))
  usage ← parse_usage c body
  timing ← parse_timing c body
  honesty ← parse_honesty c body
  sizes ← parse_sizes c body
  some (record {
    run_id = str c run_id;
    instance_id = str c instance_id;
    attempt_number = attempt_number;
    phase = str c phase;
    state = str c state;
    error_category = str c (get_or body "error_category" (text ""));
    error_detail = str c (get_or body "error_detail" (text ""));
    verdict = str c (get_or body "verdict" (text ""));
    wall_clock_s = wall_clock_s;
    patch_s3_key = str c (get_or body "patch_s3_key" (text ""));
    trajectory_s3_key = str c (get_or body "trajectory_s3_key" (text ""));
    raw_log_s3_key = str c (get_or body "raw_log_s3_key" (text ""));
    native_trajectory_s3_key = str c (get_or body "native_trajectory_s3_key" (text ""));
    report_json_s3_key = str c (get_or body "report_json_s3_key" (text ""));
    test_output_s3_key = str c (get_or body "test_output_s3_key" (text ""));
    run_log_s3_key = str c (get_or body "run_log_s3_key" (text ""));
    touches_test_files = truth (get_or body "touches_test_files" (bool false));
    usage = usage;
    timing = timing;
    honesty = honesty;
    sizes = sizes;
  })

-- `dataclasses.asdict(msg)` as the queue carries it: the fields in their order.
unfoldable pub as_dict : ResultMessage → Body
as_dict m =
    ("run_id", text m.run_id)
    ∷ ("instance_id", text m.instance_id)
    ∷ ("attempt_number", int m.attempt_number)
    ∷ ("phase", text m.phase)
    ∷ ("state", text m.state)
    ∷ ("error_category", text m.error_category)
    ∷ ("error_detail", text m.error_detail)
    ∷ ("verdict", text m.verdict)
    ∷ ("wall_clock_s", float m.wall_clock_s)
    ∷ ("patch_s3_key", text m.patch_s3_key)
    ∷ ("trajectory_s3_key", text m.trajectory_s3_key)
    ∷ ("raw_log_s3_key", text m.raw_log_s3_key)
    ∷ ("native_trajectory_s3_key", text m.native_trajectory_s3_key)
    ∷ ("report_json_s3_key", text m.report_json_s3_key)
    ∷ ("test_output_s3_key", text m.test_output_s3_key)
    ∷ ("run_log_s3_key", text m.run_log_s3_key)
    ∷ ("input_tokens", from_option int m.usage.input_tokens)
    ∷ ("output_tokens", from_option int m.usage.output_tokens)
    ∷ ("cached_tokens", from_option int m.usage.cached_tokens)
    ∷ ("cache_write_tokens", from_option int m.usage.cache_write_tokens)
    ∷ ("reasoning_tokens", from_option int m.usage.reasoning_tokens)
    ∷ ("cost_source", from_option text m.usage.cost_source)
    ∷ ("usage_parse_failed_calls", from_option int m.usage.usage_parse_failed_calls)
    ∷ ("paced_wait_ms_total", from_option int m.usage.paced_wait_ms_total)
    ∷ ("paced_calls", from_option int m.usage.paced_calls)
    ∷ ("pacer_timeouts", from_option int m.usage.pacer_timeouts)
    ∷ ("overload_retries_total", from_option int m.usage.overload_retries_total)
    ∷ ("turns_used", from_option int m.usage.turns_used)
    ∷ ("cost_usd", from_option float m.usage.cost_usd)
    ∷ ("touches_test_files", bool m.touches_test_files)
    ∷ ("adapter_input_tokens", from_option int m.usage.adapter_input_tokens)
    ∷ ("adapter_output_tokens", from_option int m.usage.adapter_output_tokens)
    ∷ ("adapter_cost_usd", from_option float m.usage.adapter_cost_usd)
    ∷ ("queue_wait_s", from_option float m.timing.queue_wait_s)
    ∷ ("provision_s", from_option float m.timing.provision_s)
    ∷ ("image_pull_s", from_option float m.timing.image_pull_s)
    ∷ ("worker_boot_s", from_option float m.timing.worker_boot_s)
    ∷ ("repo_prep_s", from_option float m.timing.repo_prep_s)
    ∷ ("agent_s", from_option float m.timing.agent_s)
    ∷ ("patch_extract_s", from_option float m.timing.patch_extract_s)
    ∷ ("artifact_upload_s", from_option float m.timing.artifact_upload_s)
    ∷ ("task_observed_s", from_option float m.timing.task_observed_s)
    ∷ ("task_billed_s", from_option float m.timing.task_billed_s)
    ∷ ("repo_prep_cache_hit", from_option bool m.timing.repo_prep_cache_hit)
    ∷ ("image_pull_cold", from_option bool m.timing.image_pull_cold)
    ∷ ("eval_queue_wait_s", from_option float m.timing.eval_queue_wait_s)
    ∷ ("eval_patch_fetch_s", from_option float m.timing.eval_patch_fetch_s)
    ∷ ("eval_image_pull_s", from_option float m.timing.eval_image_pull_s)
    ∷ ("eval_test_s", from_option float m.timing.eval_test_s)
    ∷ ("eval_log_upload_s", from_option float m.timing.eval_log_upload_s)
    ∷ ("eval_image_pull_cold", from_option bool m.timing.eval_image_pull_cold)
    ∷ ("stripped_test_paths", texts m.honesty.stripped_test_paths)
    ∷ ("grade_invalid", from_option bool m.honesty.grade_invalid)
    ∷ ("leaked_node_ids", from_option texts m.honesty.leaked_node_ids)
    ∷ ("leak_detectable", from_option bool m.honesty.leak_detectable)
    ∷ ("gold_patch_similarity", from_option float m.honesty.gold_patch_similarity)
    ∷ ("compactions_fired", from_option int m.sizes.compactions_fired)
    ∷ ("compaction_tokens_before", from_option int m.sizes.compaction_tokens_before)
    ∷ ("compaction_tokens_after", from_option int m.sizes.compaction_tokens_after)
    ∷ ("context_window_tokens", from_option int m.sizes.context_window_tokens)
    ∷ []
