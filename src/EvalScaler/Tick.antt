-- ===== src/EvalScaler/Tick.antt =====
-- swebench_eval/orchestrator/control_plane/eval_autoscaler.py: `_actuate`, `_tick` and `maybe_tick`.
pub mod Actions
pub mod Rate
use agent_evals.Prelude.{
  ℕ, ◌+◌, ◌-◌, ◌*◌, String, Bool, true, false, not, ◌&&◌, ◌||◌, Option, none, some, List, [], ◌∷◌,
  ◌++◌, ltb, ◌==◌, if◌then◌else◌, length, take, keep,
}
use agent_evals.EvalScaler.{
  Mode, live, observe, Config, OperatorLimits, limit_workers, limit_ticks, Host, Reads, asg_of,
  Binding, scale_in_blocked_busy, Target, undamped, damp,
}

-- The calls that `_actuate` makes of AWS.
pub data Action : Type 0 where
  release_drained : Action
  set_desired_capacity : ℕ → Action
  update_service : ℕ → Action
  terminate_instance : String → Action

-- `h["running_tasks"] == 0 and h["ec2_instance_id"]`.
abbrev pub with_idle : Option String → ℕ → List String → List String
with_idle none n ids = ids
with_idle (some id) n ids = if n == 0 then id ∷ ids else ids

abbrev pub idle_ids : List Host → List String
idle_ids [] = []
idle_ids (h ∷ hosts) = with_idle h.ec2_instance_id h.running_tasks (idle_ids hosts)

abbrev pub terminations : List String → List Action
terminations [] = []
terminations (id ∷ ids) = terminate_instance id ∷ terminations ids

abbrev pub more_hosts : (desired_hosts current_hosts : ℕ) → List Action
more_hosts desired_hosts current_hosts =
    if ltb current_hosts desired_hosts
    then release_drained ∷ set_desired_capacity desired_hosts ∷ []
    else []

abbrev pub set_tasks : (desired_tasks current_tasks : ℕ) → List Action
set_tasks desired_tasks current_tasks =
    if desired_tasks == current_tasks then [] else update_service desired_tasks ∷ []

-- `_actuate`, as the calls it makes in order and what it answers when none of them raises.
unfoldable pub actuate :
    (desired_tasks desired_hosts current_tasks current_hosts : ℕ)
    → List Host
    → Binding
    → List Action × Binding
actuate desired_tasks desired_hosts current_tasks current_hosts hosts binding =
    let out = more_hosts desired_hosts current_hosts ++ set_tasks desired_tasks current_tasks in
    let to_remove = current_hosts - desired_hosts in
    if ltb desired_hosts current_hosts
    then (
      out ++ terminations (take to_remove (idle_ids hosts)),
      if ltb (length (idle_ids hosts)) to_remove then scale_in_blocked_busy else binding,
    )
    else (out, binding)

-- `EvalDecision`, less the clock, the interval, the rounded factor and the operator's values, which it
-- repeats for the reader.
pub record Decision : Type 0 where
  pub mode : Mode
  pub desired_ceiling : ℕ
  pub binding_constraint : Binding
  pub desired_hosts : ℕ
  pub visible : ℕ
  pub not_visible : ℕ
  pub running_tasks : ℕ
  pub running_hosts : ℕ
  pub idle_hosts : ℕ
  pub asg_desired : ℕ
  pub asg_max : ℕ
  pub scale_in_pending_ticks : ℕ
  pub scale_in_ticks_needed : ℕ
  pub max_workers : ℕ

pub record State : Type 0 where
  pub last_tick_at : ℕ
  pub last_decision : Option Decision
  pub scale_in_ticks : ℕ
  pub config_warned : Bool

abbrev pub is_idle : Host → Bool
is_idle h = h.running_tasks == 0

abbrev pub is_overcommitted : Config → ℕ → ℕ → Bool
is_overcommitted config max_workers asg_max =
    config.has_asg && ltb (asg_max * config.tasks_per_host) max_workers

-- `would_set` is not empty, in the live mode.
abbrev pub is_acting : Config → Reads → ℕ → Target → Bool
is_acting config reads asg_desired t = elim config.mode [
  | live ↦ not (t.tasks == reads.current_desired_tasks) || not (t.hosts == asg_desired)
  | observe ↦ false
]

-- What a tick comes to: its targets, the count of lower ticks, and the calls it makes.
pub record Outcome : Type 0 where
  pub target : Target
  pub pending : ℕ
  pub actions : List Action
  pub binding : Binding

unfoldable pub outcome : Config → Option OperatorLimits → Reads → ℕ → Outcome
outcome config lim reads ticks =
    let (asg_desired, asg_max) = asg_of config reads in
    let (pending, t) =
      damp config reads asg_desired (limit_ticks config lim) ticks
        (undamped config reads (limit_workers config lim)) in
    let acts : List Action × Binding =
      if is_acting config reads asg_desired t
      then actuate t.tasks t.hosts reads.current_desired_tasks asg_desired reads.hosts t.binding
      else ([], t.binding) in
    record { target = t; pending = pending; actions = acts.0; binding = acts.1 }

-- `_release_drained_terminations` handles what it raises.
abbrev pub fails : (Action → Bool) → Action → Bool
fails raises release_drained = false
fails raises (set_desired_capacity n) = raises (set_desired_capacity n)
fails raises (update_service n) = raises (update_service n)
fails raises (terminate_instance id) = raises (terminate_instance id)

-- The calls up to the first that raises, and whether one did.
unfoldable pub perform : (Action → Bool) → List Action → List Action × Bool
perform raises [] = ([], false)
perform raises (a ∷ actions) =
    let (made, failed) = perform raises actions in
    if fails raises a then (a ∷ [], true) else (a ∷ made, failed)

abbrev pub decision_of : Config → Option OperatorLimits → Reads → Outcome → Decision
decision_of config lim reads o = record {
  mode = config.mode;
  desired_ceiling = o.target.tasks;
  binding_constraint = o.binding;
  desired_hosts = o.target.hosts;
  visible = reads.visible;
  not_visible = reads.not_visible;
  running_tasks = reads.running_tasks;
  running_hosts = length reads.hosts;
  idle_hosts = length (keep is_idle reads.hosts);
  asg_desired = (asg_of config reads).0;
  asg_max = (asg_of config reads).1;
  scale_in_pending_ticks = o.pending;
  scale_in_ticks_needed = limit_ticks config lim;
  max_workers = limit_workers config lim;
}

-- `_tick` under the handler of `maybe_tick`; `none` is a read that raised. A call that raises leaves
-- the count of lower ticks and drops the decision.
unfoldable pub tick :
    Config → (Action → Bool) → Option OperatorLimits → Option Reads → State → List Action × State
tick config raises lim none s = ([], s)
tick config raises lim (some reads) s =
    let o = outcome config lim reads s.scale_in_ticks in
    let (made, failed) = perform raises o.actions in
    (
      made,
      record s {
        scale_in_ticks = o.pending;
        config_warned =
            s.config_warned
            || is_overcommitted config (limit_workers config lim) (asg_of config reads).1;
        last_decision = if failed then s.last_decision else some (decision_of config lim reads o);
      },
    )

-- `maybe_tick` at a time of the monotonic clock.
unfoldable pub maybe_tick :
    Config
    → (Action → Bool)
    → Option OperatorLimits
    → Option Reads
    → ℕ
    → State
    → List Action × State
maybe_tick config raises lim reads now s =
    if ltb now (s.last_tick_at + config.tick_interval)
    then ([], s)
    else tick config raises lim reads (record s { last_tick_at = now })
