-- ===== src/Dispatcher/Launch.antt =====
-- harness_dispatcher.py: the launch of one task, with what it refuses before it calls RunTask, and the class of
-- a RunTask that fails. What EC2, ECS and Redis say is an argument.
use agent_evals.Prelude.{
  ℕ, String, Bool, true, false, not, ◌&&◌, Option, none, some, List, [], ◌∷◌, ◌++◌, ◌=s◌,
  if◌then◌else◌, any,
}
use agent_evals.Prelude.Text.{Text, codes, lower, in_text}
use agent_evals.Prelude.Decimal.{Fraction, of_thousandths}
use agent_evals.Queue.{JobReference}
use agent_evals.Queue.Jobs.{HarnessJob}

-- Each subnet's default routes, where a route table is found for it (`_subnet_default_routes` raises a
-- RuntimeError where none is), and each security group's egress rules, by their destinations.
pub record Network : Type 0 where
  pub default_routes : List (Option (List String))
  pub egress_v4 : List (List String)
  pub egress_v6 : List (List String)

abbrev pub is_empty_list {ℓ} : {A : Type ℓ} → List A → Bool
is_empty_list [] = true
is_empty_list (x ∷ xs) = false

abbrev pub is_in : String → List String → Bool
is_in name names = any (λ n. n =s name) names

-- A subnet for which the gate refuses: no route table, or one with a default route.
abbrev pub is_refused_subnet : Option (List String) → Bool
is_refused_subnet none = true
is_refused_subnet (some routes) = not (is_empty_list routes)

-- `_assert_isolated_network` passes, by the answers of EC2 to its queries.
unfoldable pub is_isolated : Network → Bool
is_isolated n =
    not (any is_refused_subnet n.default_routes)
    && (not (any (is_in "0.0.0.0/0") n.egress_v4) && not (any (is_in "::/0") n.egress_v6))

-- `_env_from_env` finds all three; `HARNESS_SUBNET_IDS` and `HARNESS_SECURITY_GROUP_IDS` are lists.
pub record Config : Type 0 where
  pub cluster : String
  pub subnets : List String
  pub security_groups : List String
  pub family_prefix : Text
  pub enforce_per_run_key : Bool

unfoldable pub is_configured : Config → Bool
is_configured c =
    not (c.cluster =s "")
    && (not (is_empty_list c.subnets) && not (is_empty_list c.security_groups))

-- `_family_for_job`: the name of the family, one for each instance.
unfoldable pub family_for_job : Config → HarnessJob → Text
family_for_job c job = c.family_prefix ++ codes job.instance_id

-- What the calls before RunTask say: whether the family is registered, the network, the run's cached key.
pub record Facts : Type 0 where
  pub is_registered : Text → Bool
  pub network : Network
  pub cached_key : String → Option Text

abbrev seconds_of : Option ℕ → Option Fraction
seconds_of none = none
seconds_of (some q) = some (of_thousandths q)

-- `now` is the clock at the call of RunTask; the numbers of the job itself stand as thousandths.
unfoldable pub reference : HarnessJob → Text → Fraction → Option Text → JobReference
reference job receipt_handle now key = record {
  run_id = codes job.run_id;
  instance_id = codes job.instance_id;
  attempt_number = job.attempt_number;
  receipt_handle = receipt_handle;
  harness_name = codes job.harness_name;
  model_alias = codes job.model_alias;
  timeout_seconds = job.timeout_seconds;
  max_tokens_per_instance = job.max_tokens_per_instance;
  max_cost_usd_per_instance = of_thousandths job.max_cost_usd_per_instance;
  max_turns_per_instance = job.max_turns_per_instance;
  context_window_tokens = job.context_window_tokens;
  dispatched_at = some now;
  queue_wait_s = seconds_of job.queue_wait_s;
  litellm_api_key = key;
}

-- `_reference_for`; `none` is a DispatchRefusedError.
unfoldable pub reference_for :
    Bool → Option Text → HarnessJob → Text → Fraction → Option JobReference
reference_for true none job receipt_handle now = none
reference_for enforce key job receipt_handle now = some (reference job receipt_handle now key)

-- What RunTask is called with.
pub record Task : Type 0 where
  pub family : Text
  pub subnets : List String
  pub security_groups : List String
  pub job : JobReference
  pub started_by : String

abbrev pub when_reference : Config → HarnessJob → Option JobReference → Option Task
when_reference c job none = none
when_reference c job (some r) = some (record {
  family = family_for_job c job;
  subnets = c.subnets;
  security_groups = c.security_groups;
  job = r;
  started_by = job.run_id;
})

-- The checks of `_launch_task` up to the call of RunTask; `none` is a RuntimeError.
unfoldable pub prepare : Config → Facts → HarnessJob → Text → Fraction → Option Task
prepare c f job receipt_handle now =
    if f.is_registered (family_for_job c job) && (is_configured c && is_isolated f.network)
    then when_reference c job
        (reference_for c.enforce_per_run_key (f.cached_key job.run_id) job receipt_handle now)
    else none

pub data RunTaskError : Type 0 where
  capacity quota throttle permanent : RunTaskError

abbrev pub has_any : Text → List String → Bool
has_any s parts = any (λ p. in_text (codes p) s) parts

-- `_classify_run_task_failure`.
unfoldable pub classify_run_task_failure : Text → Text → RunTaskError
classify_run_task_failure reason detail =
    let low = lower (reason ++ 32 ∷ detail) in
    if has_any low ("capacity" ∷ "capacityexceeded" ∷ "outofcapacity" ∷ "resource" ∷ [])
    then capacity
    else if has_any low ("quota" ∷ "limitexceeded" ∷ "toomanytasks" ∷ "ecsthrottling" ∷ [])
    then quota
    else if in_text (codes "throttl") low
    then throttle
    else permanent

-- RunTask's answer: a task, a first failure with its reason and detail, or an exception of the SDK.
pub data RunTask : Type 0 where
  started sdk_error : RunTask
  failure : Text → Text → RunTask

-- What `_launch_task` comes to: a task, a RuntimeError before the call, a classified failure, or the SDK's
-- exception, which it passes on.
pub data Launched : Type 0 where
  launched : Task → Launched
  refused raised : Launched
  failed : RunTaskError → Launched

abbrev pub run_task : Task → RunTask → Launched
run_task t started = launched t
run_task t sdk_error = raised
run_task t (failure reason detail) = failed (classify_run_task_failure reason detail)

abbrev pub call_run_task : Option Task → RunTask → Launched
call_run_task none answer = refused
call_run_task (some t) answer = run_task t answer

unfoldable pub launch_task : Config → Facts → RunTask → HarnessJob → Text → Fraction → Launched
launch_task c f answer job receipt_handle now =
    call_run_task (prepare c f job receipt_handle now) answer
