-- ===== src/EvalScaler/Tests.antt =====
-- Runs of the scaler of swebench_eval/orchestrator/control_plane/eval_autoscaler.py on concrete reads.
use mathlib.Core.List.{Memᴰ}
use agent_evals.Prelude.{
  ℕ, ◌≤◌, ◌≡◌, ◌⊎◌, refl, max, String, Bool, true, false, none, some, List, [], ◌∷◌, length,
}
use agent_evals.EvalScaler.{
  live, observe, Env, Config, configured, checked, config_of, ticks_for, configure, limit_workers,
  limit_ticks, Host, Reads, ceil_div, asg_of, wanted, demanded, hold_paused, cap_hosts, dead_time,
  railed, undamped, damp_tasks, damp_hosts, damped, damp, unbound, scale_in_blocked_busy,
}
use agent_evals.EvalScaler.Tick.{
  release_drained, set_desired_capacity, update_service, terminate_instance, actuate, outcome,
  State,
}
use agent_evals.EvalScaler.Tick.Actions.{terminated, IsIdle, actuate_spares_busy}
use agent_evals.EvalScaler.Bounds.{outcome-bounds}
use agent_evals.EvalScaler.Damping.{streak, pending_after, scale_in-streak}

-- Ticks every 30 s, five minutes of lower demand, a factor of 0.35.
abbrev env : Env
env = record {
  mode = live;
  eval_max_workers = some 10;
  min_workers = 0;
  beta = 350_000;
  tasks_per_host = 2;
  has_asg_name = true;
  task_scale_in = 300_000_000;
  tick_interval = 30_000_000;
}

abbrev config : Config
config = record {
  mode = live;
  max_workers = 10;
  min_workers = 0;
  beta = 350_000;
  tasks_per_host = 2;
  has_asg = true;
  tick_interval = 30_000_000;
  task_scale_in_ticks = 10;
}

env_configured : configure env ≡ configured config
unfolding configure checked config_of ticks_for ceil_div
env_configured = refl

abbrev host : String → ℕ → Host
host id n = record { ec2_instance_id = some id; running_tasks = n }

abbrev reads_at : (visible live_harnesses current asg_desired : ℕ) → Bool → List Host → Reads
reads_at visible live_harnesses current asg_desired is_paused hosts = record {
  visible = visible;
  not_visible = 0;
  live_harnesses = live_harnesses;
  running_tasks = current;
  current_desired_tasks = current;
  hosts = hosts;
  asg_state = (asg_desired, 4);
  is_paused = is_paused;
}

abbrev busy : Reads
busy = reads_at 3 4 0 0 false []

abbrev hosts : List Host
hosts = host "a" 1 ∷ (host "b" 0 ∷ (host "c" 0 ∷ []))

abbrev drained : Reads
drained = reads_at 0 0 3 3 false hosts

abbrev halted : Reads
halted = reads_at 0 0 3 3 true hosts

-- Three patches and four harnesses ask for five tasks, on three hosts.
scaled_out :
    (outcome config none busy 0).actions
    ≡ release_drained ∷ (set_desired_capacity 3 ∷ (update_service 5 ∷ []))
unfolding outcome damp undamped railed dead_time cap_hosts hold_paused demanded wanted asg_of
    limit_workers limit_ticks ceil_div actuate
scaled_out = refl

-- The hosts go at the second lower tick, the tasks at the tenth.
scaled_in :
    ((outcome config none drained 0).actions ≡ [])
    × ((outcome config none drained 1).actions ≡ terminate_instance "b" ∷ [])
    × ((outcome config none drained 9).target.tasks ≡ 0)
    × ((outcome config none drained 9).binding ≡ scale_in_blocked_busy)
unfolding outcome damp damped damp_tasks damp_hosts undamped railed dead_time cap_hosts hold_paused
    demanded wanted asg_of limit_workers limit_ticks ceil_div actuate
scaled_in = (refl, refl, refl, refl)

outcome-bounds_example :
    ((outcome config none busy 0).target.tasks ≤ max (max 0 10) 0)
    × ((outcome config none busy 0).target.hosts ≤ max 4 (max 0 0))
unfolding limit_workers asg_of ceil_div
outcome-bounds_example = outcome-bounds config none busy 0

scale_in-streak_example :
    ((3 ≤ (outcome config none drained (pending_after config ((none, drained) ∷ []))).target.tasks)
      ⊎ (10 ≤ streak config ((none, drained) ∷ ((none, drained) ∷ []))))
    × ((3
          ≤ (outcome config none drained
              (pending_after config ((none, drained) ∷ []))).target.hosts)
        ⊎ (2 ≤ streak config ((none, drained) ∷ ((none, drained) ∷ []))))
unfolding limit_ticks asg_of
scale_in-streak_example = scale_in-streak config none drained ((none, drained) ∷ []) refl

actuate_spares_busy_example :
    IsIdle "b" hosts
    × (length (terminated (actuate 3 2 3 3 hosts unbound).0) ≤ 1)
    × ((length (terminated (actuate 3 2 3 3 hosts unbound).0) ≡ 1)
        ⊎ ((actuate 3 2 3 3 hosts unbound).1 ≡ scale_in_blocked_busy))
unfolding actuate
actuate_spares_busy_example = actuate_spares_busy 3 2 3 3 hosts unbound "b" (Memᴰ.head refl)

abbrev start : State
start = record { last_tick_at = 0; last_decision = none; scale_in_ticks = 0; config_warned = false }

abbrev watching : Config
watching = record config { mode = observe }
