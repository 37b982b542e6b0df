-- ===== src/EvalScaler.antt =====
-- swebench_eval/orchestrator/control_plane/eval_autoscaler.py: the configuration, one tick and the rate
-- limit (Tick) of `EvalAutoscaler`. Times are microseconds, a factor or an operator's value is in
-- millionths; no count or limit is negative. What a tick reads from Redis, SQS, ECS and EC2 is one
-- record, absent where a read raises.
pub mod Configure
pub mod Damping
pub mod Bounds
pub mod Tick
pub mod Drain
mod Tests
use agent_evals.Prelude.{
  ℕ, ◌+◌, ◌-◌, ◌*◌, ◌/◌, ◌%◌, min, max, String, Bool, true, false, not, ◌&&◌, ◌||◌, Option, none,
  some, List, [], ◌∷◌, ◌++◌, ltb, leb, ◌==◌, if◌then◌else◌, length, take, keep, or_default, is_some,
}

-- `math.ceil(a / b)` for a positive `b`.
unfoldable pub ceil_div : ℕ → ℕ → ℕ
ceil_div a b = if a % b == 0 then a / b else a / b + 1

abbrev pub million : ℕ
million = 1_000_000

-- _OBSERVE_DEFAULT_MAX_WORKERS, _SCALE_IN_CONSECUTIVE_TICKS.
abbrev pub observe_default_max_workers : ℕ
observe_default_max_workers = 4

abbrev pub scale_in_consecutive_ticks : ℕ
scale_in_consecutive_ticks = 2

pub data Mode : Type 0 where
  live observe : Mode

-- The environment, with the defaults of the variables that have one filled in; a mode that is not
-- `live` is `observe`.
pub record Env : Type 0 where
  pub mode : Mode
  pub eval_max_workers : Option ℕ
  pub min_workers : ℕ
  pub beta : ℕ
  pub tasks_per_host : ℕ
  pub has_asg_name : Bool
  pub task_scale_in : ℕ
  pub tick_interval : ℕ

pub record Config : Type 0 where
  pub mode : Mode
  pub max_workers : ℕ
  pub min_workers : ℕ
  pub beta : ℕ
  pub tasks_per_host : ℕ
  pub has_asg : Bool
  pub tick_interval : ℕ
  pub task_scale_in_ticks : ℕ

pub data Configured : Type 0 where
  configured : Config → Configured
  no_max_workers no_asg_name : Configured

-- The ticks that a span of lower demand takes; a zero interval keeps the default.
pub ticks_for : (interval span default : ℕ) → ℕ
ticks_for interval span default =
    if ltb 0 interval then max scale_in_consecutive_ticks (ceil_div span interval) else default

pub config_of : Env → ℕ → Config
config_of env max_workers = record {
  mode = env.mode;
  max_workers = max_workers;
  min_workers = env.min_workers;
  beta = env.beta;
  tasks_per_host = max 1 env.tasks_per_host;
  has_asg = env.has_asg_name;
  tick_interval = env.tick_interval;
  task_scale_in_ticks = ticks_for env.tick_interval env.task_scale_in scale_in_consecutive_ticks;
}

pub checked : Mode → (max_workers : Option ℕ) → (has_asg_name : Bool) → Env → Configured
checked live none has_asg_name env = no_max_workers
checked live (some n) true env = configured (config_of env n)
checked live (some n) false env = no_asg_name
checked observe max_workers has_asg_name env =
    configured (config_of env (or_default max_workers observe_default_max_workers))

-- `__init__`, as far as it keeps a value.
pub configure : Env → Configured
configure env = checked env.mode env.eval_max_workers env.has_asg_name env

-- The two operator limits that the scaler reads, where the hash has them.
pub record OperatorLimits : Type 0 where
  pub eval_max_workers : Option ℕ
  pub eval_task_scale_in : Option ℕ

-- `_operator_limits`: the limits in force; `none` is a read that raised.
pub limit_workers : Config → Option OperatorLimits → ℕ
limit_workers config none = config.max_workers
limit_workers config (some lim) = elim lim.eval_max_workers [
  | none ↦ config.max_workers
  | some n ↦ max config.min_workers (n / million)
]

pub limit_ticks : Config → Option OperatorLimits → ℕ
unfolding ticks_for
limit_ticks config none = config.task_scale_in_ticks
limit_ticks config (some lim) = elim lim.eval_task_scale_in [
  | none ↦ config.task_scale_in_ticks
  | some span ↦ ticks_for config.tick_interval span config.task_scale_in_ticks
]

-- An entry of `_hosts`; an absent or empty id is `none`.
pub record Host : Type 0 where
  pub ec2_instance_id : Option String
  pub running_tasks : ℕ

pub record Reads : Type 0 where
  pub visible : ℕ
  pub not_visible : ℕ
  pub live_harnesses : ℕ
  pub running_tasks : ℕ
  pub current_desired_tasks : ℕ
  pub hosts : List Host
  pub asg_state : ℕ × ℕ
  pub is_paused : Bool

unfoldable pub asg_of : Config → Reads → ℕ × ℕ
asg_of config reads =
    if config.has_asg then reads.asg_state else (length reads.hosts, length reads.hosts)

pub data Binding : Type 0 where
  unbound paused queue_empty at_max_workers asg_at_max no_hosts scale_in_damped : Binding
  scale_in_blocked_busy : Binding

pub record Target : Type 0 where
  pub tasks : ℕ
  pub hosts : ℕ
  pub binding : Binding

-- `demand`, in millionths.
abbrev pub demand : Config → Reads → ℕ
demand config reads =
    (reads.visible + reads.not_visible) * million + config.beta * reads.live_harnesses

-- The targets before the pause and the rail are looked at.
unfoldable pub wanted : Config → Reads → ℕ → ℕ
unfolding ceil_div
wanted config reads max_workers =
    max config.min_workers (min max_workers (ceil_div (demand config reads) million))

pub demanded : Config → Reads → ℕ → Target
demanded config reads max_workers =
    let tasks = wanted config reads max_workers in
    record {
      tasks = tasks;
      hosts = ceil_div tasks config.tasks_per_host;
      binding =
          if demand config reads == 0
          then queue_empty
          else if ltb max_workers (ceil_div (demand config reads) million)
          then at_max_workers
          else unbound;
    }

-- A paused pool is held at its size.
pub hold_paused : Reads → ℕ → Target → Target
hold_paused reads asg_desired t =
    if reads.is_paused
    then record {
      tasks = min t.tasks reads.current_desired_tasks;
      hosts = min t.hosts asg_desired;
      binding = paused;
    }
    else t

pub cap_hosts : Config → ℕ → Target → Target
cap_hosts config asg_max t =
    if ltb asg_max t.hosts
    then record {
      tasks = min t.tasks (asg_max * config.tasks_per_host);
      hosts = asg_max;
      binding = asg_at_max;
    }
    else t

pub dead_time : Reads → ℕ → Target → Target
dead_time reads asg_desired t =
    if ltb reads.running_tasks t.tasks && (length reads.hosts == 0 && ltb 0 asg_desired)
    then record t { binding = no_hosts }
    else t

-- The targets of a tick before the damping.
pub railed : Config → Reads → (asg_desired asg_max : ℕ) → Target → Target
railed config reads asg_desired asg_max t =
    dead_time reads asg_desired (cap_hosts config asg_max (hold_paused reads asg_desired t))

pub undamped : Config → Reads → ℕ → Target
undamped config reads max_workers =
    let (asg_desired, asg_max) = asg_of config reads in
    railed config reads asg_desired asg_max (demanded config reads max_workers)

abbrev pub tasks_down : Reads → Target → Bool
tasks_down reads t = ltb t.tasks reads.current_desired_tasks && not reads.is_paused

abbrev pub hosts_down : Reads → ℕ → Target → Bool
hosts_down reads asg_desired t = ltb t.hosts asg_desired && not reads.is_paused

pub damp_tasks : Config → Reads → Target → Target
damp_tasks config reads t = record {
  tasks = reads.current_desired_tasks;
  hosts = max t.hosts (ceil_div reads.current_desired_tasks config.tasks_per_host);
  binding = scale_in_damped;
}

pub damp_hosts : (asg_desired : ℕ) → Target → Target
damp_hosts asg_desired t = record t { hosts = asg_desired; binding = scale_in_damped }

-- The targets of a lower tick, which is the `ticks`-th in a row.
pub damped : Config → Reads → (asg_desired needed ticks : ℕ) → Target → Target
damped config reads asg_desired needed ticks t =
    let t' : Target =
      if tasks_down reads t && ltb ticks needed then damp_tasks config reads t else t in
    if hosts_down reads asg_desired t && ltb ticks scale_in_consecutive_ticks
    then damp_hosts asg_desired t'
    else t'

abbrev pub is_lower : Reads → ℕ → Target → Bool
is_lower reads asg_desired t = tasks_down reads t || hosts_down reads asg_desired t

-- The lower ticks in a row, this one included, and the targets after the damping.
pub damp : Config → Reads → (asg_desired needed ticks : ℕ) → Target → ℕ × Target
damp config reads asg_desired needed ticks t =
    if is_lower reads asg_desired t
    then (ticks + 1, damped config reads asg_desired needed (ticks + 1) t)
    else (0, t)
