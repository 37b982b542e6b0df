-- ===== src/EvalScaler/Configure.antt =====
-- swebench_eval/orchestrator/control_plane/eval_autoscaler.py: what `__init__` accepts.
use agent_evals.Prelude.{
  ℕ, ◌≤◌, ◌<◌, ◌≡◌, ◌⊎◌, inl, inr, refl, ap, sym, Bool, true, false, Option, none, some, arith,
}
use agent_evals.EvalScaler.{
  Config, Mode, no_max_workers, no_asg_name, configured, configure, checked, config_of, ticks_for,
  observe, Configured, Env, live,
}

ticks_for-min : (interval span default : ℕ) → 2 ≤ default → 2 ≤ ticks_for interval span default
unfolding ticks_for
ticks_for-min interval span default h = ground (arith, h)

abbrev config_in : Config → Configured → Config
config_in c (configured d) = d
config_in c no_max_workers = c
config_in c no_asg_name = c

config_of-min :
    (env : Env) (n : ℕ)
    → (0 < (config_of env n).tasks_per_host) × (2 ≤ (config_of env n).task_scale_in_ticks)
unfolding config_of
config_of-min env n =
    (omega arith, ticks_for-min env.tick_interval env.task_scale_in 2 (omega arith))

checked-cases :
    (mode : Mode) (o : Option ℕ) (asg : Bool) (env : Env) (config : Config)
    → env.mode ≡ mode
    → env.has_asg_name ≡ asg
    → checked mode o asg env ≡ configured config
    → (n : ℕ) × (config ≡ config_of env n) × ((mode ≡ observe) ⊎ ((asg ≡ true) × (o ≡ some n)))
unfolding checked
checked-cases live none asg env config m a e = absurd (ground (arith, e))
checked-cases live (some n) true env config m a e =
    (n, sym (ap (config_in config) e), inr (refl, refl))
checked-cases live (some n) false env config m a e = absurd (ground (arith, e))
checked-cases observe o asg env config m a e = (_, sym (ap (config_in config) e), inl refl)

-- A live scaler is configured with both limits of its capacity; every scaler packs at least one task
-- on a host and waits at least two ticks before it lowers the tasks.
pub configure-IsValid :
    (env : Env) (config : Config)
    → configure env ≡ configured config
    → (0 < config.tasks_per_host)
      × (2 ≤ config.task_scale_in_ticks)
      × ((config.mode ≡ observe)
          ⊎ ((config.has_asg ≡ true) × (env.eval_max_workers ≡ some config.max_workers)))
unfolding configure config_of
configure-IsValid env config e =
    let (n, p, q) =
      checked-cases env.mode env.eval_max_workers env.has_asg_name env config refl refl e in
    rw p (let (u, v) = config_of-min env n in (u, v, q))
