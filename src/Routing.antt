-- ===== src/Routing.antt =====
-- swebench_eval/harnesses/routing.py: the markers of a pause and of a block, the gateway's key, and the
-- environment that an agent's process is started with. Names are strings, values are texts.
pub mod Agent
mod Tests
use agent_evals.Prelude.{
  ℕ, String, Bool, true, false, not, ◌&&◌, ◌||◌, Option, none, some, List, [], ◌∷◌, ◌==◌, ◌=s◌,
  if◌then◌else◌, any, or_default,
}
use agent_evals.Prelude.Text.{Text, codes, eq_text, in_text, lower, starts_with, strip}
use agent_evals.Prelude.Decimal.{is_empty}
use agent_evals.Queue.{Environment}

unfoldable pub is_framework_paused_response : ℕ → Text → Bool
is_framework_paused_response status body = status == 503 && in_text (codes "framework_paused") body

unfoldable pub is_operator_block_response : ℕ → Text → Bool
is_operator_block_response status body =
    status == 401 && (in_text (codes "auth_error") body && in_text (codes "Key is blocked") body)

-- `environ.get(name)`.
unfoldable pub env_get : String → Environment → Option Text
env_get name [] = none
env_get name ((n, v) ∷ env) = if n =s name then some v else env_get name env

-- `env[name] = value`.
unfoldable pub env_set : String → Text → Environment → Environment
env_set name v [] = (name, v) ∷ []
env_set name v ((n, w) ∷ env) = if n =s name then (n, v) ∷ env else (n, w) ∷ env_set name v env

unfoldable pub gateway_api_key : Environment → Text
gateway_api_key env =
    let key = or_default (env_get "LITELLM_API_KEY" env) [] in
    if is_empty key then or_default (env_get "LITELLM_MASTER_KEY" env) (codes "sk-local") else key

-- `_AGENT_ENV_DENY`.
abbrev pub agent_env_deny : List String
agent_env_deny =
    "LITELLM_MASTER_KEY" ∷ "LITELLM_API_KEY" ∷ "LITELLM_BASE_URL" ∷ "REDIS_URL" ∷ "DATABASE_URL"
    ∷ "QUEUE_URL" ∷ "EVAL_QUEUE_URL" ∷ "RESULTS_QUEUE_URL" ∷ "SQS_QUEUE_PREFIX" ∷ "EVAL_ENV_PREFIX"
    ∷ "ARTIFACTS_BUCKET" ∷ "DATASET_BUCKET" ∷ "GIT_MIRROR_URL" ∷ []

-- The test that drops a name, with `_AGENT_ENV_DENY_PREFIXES`.
unfoldable pub is_denied : String → Bool
is_denied name =
    any (λ n. n =s name) agent_env_deny
    || (starts_with (codes name) (codes "AWS_") || starts_with (codes name) (codes "ECS_"))

pub record AgentUser : Type 0 where
  pub name : Text
  pub uid : ℕ
  pub gid : ℕ
  pub home : Text

-- `pwd.getpwnam`, none where there is no such user.
abbrev pub Passwd : Type 0
Passwd = Text → Option AgentUser

-- `name.lower() in ("root", "off", "0")`.
abbrev pub is_off : Text → Bool
is_off name =
    eq_text (lower name) (codes "root")
    || (eq_text (lower name) (codes "off") || eq_text (lower name) (codes "0"))

-- `agent_user`, for the worker's effective user id.
unfoldable pub agent_user : Passwd → ℕ → Environment → Option AgentUser
agent_user passwd euid env =
    let name = strip (or_default (env_get "HARNESS_AGENT_USER" env) (codes "agent")) in
    if is_empty name || is_off name then none else if euid == 0 then passwd name else none

-- The environment without the names that are denied.
unfoldable pub allowed : Environment → Environment
allowed [] = []
allowed ((n, v) ∷ env) = let rest = allowed env in if is_denied n then rest else (n, v) ∷ rest

unfoldable pub as_user : Option AgentUser → Environment → Environment
as_user none env = env
as_user (some u) env = env_set "LOGNAME" u.name (env_set "USER" u.name (env_set "HOME" u.home env))

-- `agent_environment`.
unfoldable pub agent_environment : Passwd → ℕ → Environment → Environment
agent_environment passwd euid env = as_user (agent_user passwd euid env) (allowed env)
