-- ===== src/Restart.antt =====
-- swebench_eval/orchestrator/control_plane/restart.py: the close of a run, and the restart and the regrade of
-- its instances, on the rows of `instance_results`. The run's row is locked for the length of each, so that
-- each is one step; a statement that raises for another reason than its key is not modelled.
pub mod Fresh
pub mod Ledger
pub mod Total
pub mod Closing
mod Tests
use agent_evals.Prelude.{
  ℕ, ◌+◌, String, Bool, true, false, not, ◌&&◌, ◌||◌, Option, none, some, List, [], ◌∷◌, ◌++◌, ltb,
  ◌==◌, ◌=s◌, if◌then◌else◌, is_some, any, get_elem?, or_default,
}
use agent_evals.Lifecycle.{is_run_closed}
use agent_evals.Results.{Json, null, text, Key, Row}
use agent_evals.Results.Table.{Table, find, put_row}
use agent_evals.Results.Summary.{one_of, all_non_terminal_states, non_terminal_row_counts, column}
use agent_evals.Results.Write.{EvalJob, seeded}
use agent_evals.Queue.Jobs.{HarnessJob}

-- The categories of `_TERMINAL`.
abbrev pub terminal_categories : List String
terminal_categories =
    "RESOLVED" ∷ "UNRESOLVED" ∷ "EMPTY_PATCH" ∷ "PATCH_APPLY_FAILED" ∷ "EVAL_GRADE_INVALID"
    ∷ "EVAL_TIMEOUT" ∷ []

-- Whether a row comes before another in `ORDER BY attempt_number DESC, (phase = 'eval') DESC`.
abbrev pub comes_first : Key → Key → Bool
comes_first k j =
    ltb j.attempt_number k.attempt_number
    || (k.attempt_number == j.attempt_number && (k.phase =s "eval" && not (j.phase =s "eval")))

abbrev pub first_of : Key × Row → Option (Key × Row) → Key × Row
first_of x none = x
first_of x (some y) = if comes_first (y.0) (x.0) then y else x

-- `_latest_attempt_rows`, for one instance.
unfoldable pub latest_attempt : String → String → Table → Option (Key × Row)
latest_attempt run instance [] = none
latest_attempt run instance ((k, r) ∷ t) =
    let rest = latest_attempt run instance t in
    if k.run_id =s run && k.instance_id =s instance then some (first_of (k, r) rest) else rest

abbrev pub error_category_column : ℕ
error_category_column = 0

abbrev pub patch_path_column : ℕ
patch_path_column = 6

abbrev pub reason_for : Json → String
reason_for (text c) =
    if one_of terminal_categories c then "operator_rerun_pass_at_k" else "operator_infra_retry"
reason_for v = "operator_infra_retry"

-- `_classify`.
unfoldable pub classify : Row → String
classify r = reason_for (column error_category_column r)

pub data Skip : Type 0 where
  unknown_instance in_flight no_patch : Skip

-- An attempt that was added, with what its job needs beside the run: for a restart the reason, for a regrade
-- the key of the patch.
pub record Added : Type 0 where
  pub instance_id : String
  pub attempt_number : ℕ
  pub note : String

-- The transaction's rows so far, and the two lists of the report.
pub record Batch : Type 0 where
  pub rows : Table
  pub added : List Added
  pub skipped : List (String × Skip)

-- A plain INSERT; `none` is a UniqueViolation.
unfoldable pub insert : Key → Row → Table → Option Table
insert k r t = if is_some (find k t) then none else some (put_row k r t)

abbrev pub next_key : String → String → String → Key → Key
next_key run instance phase latest = record {
  run_id = run;
  instance_id = instance;
  attempt_number = latest.attempt_number + 1;
  phase = phase;
}

abbrev pub skip : String → Skip → Batch → Option Batch
skip instance why b = some (record b { skipped = b.skipped ++ (instance, why) ∷ [] })

abbrev pub with_rows : Added → Batch → Option Table → Option Batch
with_rows a b none = none
with_rows a b (some rows) = some (record b { rows = rows; added = b.added ++ a ∷ [] })

-- The row of the new attempt, `seeded`, is PENDING with a reason and nothing else.
abbrev pub add : ℕ → Key → String → String → Batch → Option Batch
add now k reason note b =
    with_rows
      (record { instance_id = k.instance_id; attempt_number = k.attempt_number; note = note }) b
      (insert k (seeded now (text reason)) b.rows)

abbrev pub is_in_flight : Row → Bool
is_in_flight r = one_of all_non_terminal_states r.state

-- The loop's body of `restart_instances` for an instance and its latest row, as it was before the loop.
unfoldable pub restart_one : ℕ → String → String → Option (Key × Row) → Batch → Option Batch
restart_one now run instance none b = skip instance unknown_instance b
restart_one now run instance (some (k, r)) b =
    if is_in_flight r
    then skip instance in_flight b
    else add now (next_key run instance "harness" k) (classify r) (classify r) b

-- `_latest_harness_patch`: of the harness rows with a patch the one of the highest attempt.
abbrev pub patch_of : Json → Option String
patch_of (text p) = if p =s "" then none else some p
patch_of v = none

abbrev pub newer_patch : ℕ → String → Option (ℕ × String) → ℕ × String
newer_patch n p none = (n, p)
newer_patch n p (some (m, q)) = if ltb n m then (m, q) else (n, p)

abbrev pub with_patch : ℕ → Option String → Option (ℕ × String) → Option (ℕ × String)
with_patch n none best = best
with_patch n (some p) best = some (newer_patch n p best)

unfoldable pub latest_patch : String → String → Table → Option (ℕ × String)
latest_patch run instance [] = none
latest_patch run instance ((k, r) ∷ t) =
    let rest = latest_patch run instance t in
    if k.run_id =s run && (k.instance_id =s instance && k.phase =s "harness")
    then with_patch k.attempt_number (patch_of (column patch_path_column r)) rest
    else rest

abbrev pub regrade_patch : ℕ → String → String → Key → Option (ℕ × String) → Batch → Option Batch
regrade_patch now run instance k none b = skip instance no_patch b
regrade_patch now run instance k (some (n, patch)) b =
    add now (next_key run instance "eval" k) "operator_regrade" patch b

-- The loop's body of `regrade_instances`; the patch is read from the rows as they are by then.
unfoldable pub regrade_one : ℕ → String → String → Option (Key × Row) → Batch → Option Batch
regrade_one now run instance none b = skip instance unknown_instance b
regrade_one now run instance (some (k, r)) b =
    if is_in_flight r
    then skip instance in_flight b
    else regrade_patch now run instance k (latest_patch run instance b.rows) b

-- Either loop, over the latest rows that were read before it.
abbrev pub One : Type 0
One = String → Option (Key × Row) → Batch → Option Batch

abbrev pub then_each : (Batch → Option Batch) → Option Batch → Option Batch
then_each f none = none
then_each f (some b) = f b

unfoldable pub each : One → String → Table → List String → Batch → Option Batch
each one run before [] b = some b
each one run before (i ∷ is) b =
    then_each (each one run before is) (one i (latest_attempt run i before) b)

-- What a request comes to: a RestartError, a UniqueViolation, which rolls the whole batch back, or a report.
pub data Reply : Type 0 where
  empty_request no_such_run run_closed unique_violation : Reply
  report : Batch → Reply

abbrev pub reply_of : Option Batch → Reply
reply_of none = unique_violation
reply_of (some b) = report b

abbrev pub on_open : Option String → Reply → Reply
on_open none reply = no_such_run
on_open (some status) reply = if is_run_closed status then run_closed else reply

abbrev pub is_nil : List String → Bool
is_nil [] = true
is_nil (i ∷ is) = false

abbrev pub start : Table → Batch
start t = record { rows = t; added = []; skipped = [] }

-- `restart_instances` and `regrade_instances` up to the commit, on the run's status, `none` where it has no row.
unfoldable pub restart_instances : ℕ → String → Option String → List String → Table → Reply
restart_instances now run status ids t =
    if is_nil ids
    then empty_request
    else on_open status (reply_of (each (restart_one now run) run t ids (start t)))

unfoldable pub regrade_instances : ℕ → String → Option String → List String → Table → Reply
regrade_instances now run status ids t =
    if is_nil ids
    then empty_request
    else on_open status (reply_of (each (regrade_one now run) run t ids (start t)))

-- `_dispatch_regraded`.
abbrev pub regrade_job : String → Added → EvalJob
regrade_job run a = record {
  run_id = run;
  instance_id = a.instance_id;
  attempt_number = a.attempt_number;
  patch_s3_key = a.note;
  fail_to_pass = "";
  pass_to_pass = "";
}

-- The fields of `config_snapshot` that a restarted job takes, and the instance of the dataset.
pub record Snapshot : Type 0 where
  pub harness : Option String
  pub model_alias : Option String
  pub timeout_seconds : Option ℕ
  pub max_tokens_per_instance : Option ℕ
  pub max_cost_usd_per_instance : Option ℕ
  pub max_turns_per_instance : Option ℕ
  pub context_window_tokens : Option ℕ

pub record Instance : Type 0 where
  pub repo_url : String
  pub base_commit : String
  pub problem_statement : String

unfoldable pub restart_job : String → Snapshot → Added → Instance → HarnessJob
restart_job run s a i = record {
  run_id = run;
  instance_id = a.instance_id;
  repo_url = i.repo_url;
  base_commit = i.base_commit;
  problem_statement = i.problem_statement;
  attempt_number = a.attempt_number;
  harness_name = or_default s.harness "";
  model_alias = or_default s.model_alias "";
  env_image_key = "";
  timeout_seconds = or_default s.timeout_seconds 5_400;
  max_tokens_per_instance = s.max_tokens_per_instance;
  max_cost_usd_per_instance = or_default s.max_cost_usd_per_instance 5_000;
  max_turns_per_instance = s.max_turns_per_instance;
  dispatched_at = none;
  queue_wait_s = none;
  context_window_tokens = s.context_window_tokens;
}

abbrev pub job_of : String → Snapshot → Added → Option Instance → List HarnessJob
job_of run s a none = []
job_of run s a (some i) = restart_job run s a i ∷ []

-- `_dispatch_restarted` where every send answers: an instance that the dataset does not have gets no job.
unfoldable pub dispatch_restarted :
    String → Snapshot → (String → Option Instance) → List Added → List HarnessJob
dispatch_restarted run s load [] = []
dispatch_restarted run s load (a ∷ as') =
    job_of run s a (load a.instance_id) ++ dispatch_restarted run s load as'

-- `close_run`: the refusals of a CloseConflictError, or the run's status after the transaction; the run is
-- finalised after that.
pub data Closed : Type 0 where
  unknown_run not_open : Closed
  still_in_flight : ℕ → Closed
  closes : String → Closed

abbrev pub is_closable : String → Bool
is_closable status = one_of ("running" ∷ "finalising" ∷ []) status

unfoldable pub close_run : Option String → String → Table → Closed
close_run none run t = unknown_run
close_run (some status) run t =
    let (non_terminal, total) = non_terminal_row_counts run t in
    if is_closable status
    then if non_terminal == 0 then closes "finalising" else still_in_flight non_terminal
    else not_open
