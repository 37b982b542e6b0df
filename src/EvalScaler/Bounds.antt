-- ===== src/EvalScaler/Bounds.antt =====
-- swebench_eval/orchestrator/control_plane/eval_autoscaler.py: the bounds on the targets of a tick.
use native.Mathlib.Omega.{div_any, mod_fact}
use agent_evals.Prelude.{
  ℕ, zero, suc, ◌+◌, ◌*◌, ◌/◌, ◌%◌, ◌≤◌, ◌<◌, ◌≡◌, ◌⊎◌, inl, inr, refl, max, true, false, Option,
  ◌==◌, arith, Bool-cases,
}
use agent_evals.EvalScaler.{
  Config, Reads, OperatorLimits, Target, ceil_div, asg_of, wanted, demanded, hold_paused, cap_hosts,
  dead_time, railed, undamped, damp_tasks, damp_hosts, damped, damp, is_lower, limit_workers,
  limit_ticks,
}
use agent_evals.EvalScaler.Tick.{outcome}

exact_covers : (q r a b : ℕ) → suc b * q + r ≡ a → r ≡ 0 → a ≤ q * suc b
exact_covers q r a b e z = grind (arith, e, z)

rounded_covers : (q r a b : ℕ) → suc b * q + r ≡ a → r < suc b → a ≤ (q + 1) * suc b
rounded_covers q r a b e z = grind (arith, e, z)

-- Hosts enough for the tasks.
pub ceil_div_covers : (a b : ℕ) → 0 < b → a ≤ ceil_div a b * b
unfolding ceil_div
ceil_div_covers a zero h = absurd (omega (arith, h))
ceil_div_covers a (suc b) h = elim (Bool-cases (a % suc b == 0)) [
  | inl e ↦ rw e (exact_covers (a / suc b) _ a b (div_any a (suc b)) (ground (arith, e)))
  | inr e ↦ rw e (rounded_covers (a / suc b) _ a b (div_any a (suc b)) (mod_fact a b))
]

mul_mono : (a b k : ℕ) → a ≤ b → a * k ≤ b * k
mul_mono a b k h = grind (arith, h)

module _ (config : Config) (reads : Reads) (d : ℕ) where
  pub railed-tasks : (m : ℕ) (t : Target) → (railed config reads d m t).tasks ≤ t.tasks
  unfolding railed dead_time cap_hosts hold_paused
  railed-tasks m t = ground arith

  pub railed-within :
      (m : ℕ) (t : Target)
      → reads.is_paused ≡ false
      → t.hosts ≤ m
      → ((railed config reads d m t).tasks ≡ t.tasks)
        × ((railed config reads d m t).hosts ≡ t.hosts)
  unfolding railed dead_time cap_hosts hold_paused
  railed-within m t p h = ground (arith, p, h)

  railed-hosts : (m : ℕ) (t : Target) → (railed config reads d m t).hosts ≤ m
  unfolding railed dead_time cap_hosts hold_paused
  railed-hosts m t = ground arith

  railed-paused :
      (m : ℕ) (t : Target)
      → reads.is_paused ≡ true
      → ((railed config reads d m t).tasks ≤ reads.current_desired_tasks)
        × ((railed config reads d m t).hosts ≤ d)
  unfolding railed dead_time cap_hosts hold_paused
  railed-paused m t p = ground arith

  railed-covers :
      (m : ℕ) (t : Target)
      → reads.is_paused ≡ false
      → t.tasks ≤ t.hosts * config.tasks_per_host
      → (railed config reads d m t).tasks
        ≤ (railed config reads d m t).hosts * config.tasks_per_host
  unfolding railed dead_time cap_hosts hold_paused
  railed-covers m t p h = ground arith

  damped-tasks :
      (needed ticks : ℕ) (t : Target)
      → (damped config reads d needed ticks t).tasks ≤ max t.tasks reads.current_desired_tasks
  unfolding damped damp_tasks damp_hosts
  damped-tasks needed ticks t = ground arith

  damped-hosts :
      (needed ticks : ℕ) (t : Target)
      → (damped config reads d needed ticks t).hosts
        ≤ max t.hosts (max d (ceil_div reads.current_desired_tasks config.tasks_per_host))
  unfolding damped damp_tasks damp_hosts
  damped-hosts needed ticks t = ground arith

  damped-covers :
      (needed ticks : ℕ) (t : Target)
      → 0 < config.tasks_per_host
      → t.tasks ≤ t.hosts * config.tasks_per_host
      → ((damped config reads d needed ticks t).tasks
          ≤ (damped config reads d needed ticks t).hosts * config.tasks_per_host)
        ⊎ ((damped config reads d needed ticks t).hosts ≡ d)
  unfolding damped damp_tasks damp_hosts
  damped-covers needed ticks t z h = ground (
    arith,
    ceil_div_covers reads.current_desired_tasks config.tasks_per_host z,
    mul_mono (ceil_div reads.current_desired_tasks config.tasks_per_host)
        (max t.hosts (ceil_div reads.current_desired_tasks config.tasks_per_host))
        config.tasks_per_host (omega arith),
  )

module _ (config : Config) (reads : Reads) (d needed ticks : ℕ) (t : Target) where
  -- The damping leaves the targets or is that of a lower tick.
  damp-cases :
      ((damp config reads d needed ticks t).1 ≡ t)
      ⊎ ((damp config reads d needed ticks t).1 ≡ damped config reads d needed (ticks + 1) t)
  unfolding damp
  damp-cases = elim (Bool-cases (is_lower reads d t)) [
    | inl e ↦ inr (rw e refl)
    | inr e ↦ inl (rw e refl)
  ]

  pub damp-paused : reads.is_paused ≡ true → damp config reads d needed ticks t ≡ (0, t)
  unfolding damp
  damp-paused p = let e : is_lower reads d t ≡ false = ground (arith, p) in rw e refl

module _ (config : Config) (lim : Option OperatorLimits) (reads : Reads) (ticks : ℕ) where
  abbrev m : ℕ
  m = limit_workers config lim

  abbrev n : ℕ
  n = limit_ticks config lim

  abbrev d : ℕ
  d = (asg_of config reads).0

  abbrev r : ℕ
  r = (asg_of config reads).1

  abbrev t0 : Target
  t0 = demanded config reads m

  abbrev t : Target
  t = undamped config reads m

  demanded-tasks : t0.tasks ≤ max config.min_workers m
  unfolding demanded wanted
  demanded-tasks = omega arith

  demanded-covers : 0 < config.tasks_per_host → t0.tasks ≤ t0.hosts * config.tasks_per_host
  unfolding demanded
  demanded-covers h = ceil_div_covers (wanted config reads m) config.tasks_per_host h

  -- The tasks of a tick are at most the workers in force, or the configured minimum, or what the service
  -- asks for now; the hosts are at most the rail of the group, or what the group asks for now, or what
  -- the service's tasks of now need.
  pub outcome-bounds :
      ((outcome config lim reads ticks).target.tasks
        ≤ max (max config.min_workers (limit_workers config lim)) reads.current_desired_tasks)
      × ((outcome config lim reads ticks).target.hosts
          ≤ max (asg_of config reads).1 (
              max
                (asg_of config reads).0
                (ceil_div reads.current_desired_tasks config.tasks_per_host)))
  unfolding outcome undamped
  outcome-bounds = elim (damp-cases config reads d n ticks t) [
    | inl e ↦ rw e (
      omega (arith, demanded-tasks, railed-tasks config reads d r t0),
      omega (arith, railed-hosts config reads d r t0),
    )
    | inr e ↦ rw e (
      omega (
        arith,
        demanded-tasks,
        railed-tasks config reads d r t0,
        damped-tasks config reads d n (ticks + 1) t,
      ),
      omega (arith, railed-hosts config reads d r t0, damped-hosts config reads d n (ticks + 1) t),
    )
  ]

  -- A tick of a pool that is not paused asks for hosts enough for its tasks, or leaves the host count
  -- as it is.
  pub outcome-covers :
      reads.is_paused ≡ false
      → 0 < config.tasks_per_host
      → ((outcome config lim reads ticks).target.tasks
          ≤ (outcome config lim reads ticks).target.hosts * config.tasks_per_host)
        ⊎ ((outcome config lim reads ticks).target.hosts ≡ (asg_of config reads).0)
  unfolding outcome undamped
  outcome-covers p h = elim (damp-cases config reads d n ticks t) [
    | inl e ↦ rw e (inl (railed-covers config reads d r t0 p (demanded-covers h)))
    | inr e ↦ rw e (
        damped-covers config reads d n (ticks + 1) t h
          (railed-covers config reads d r t0 p (demanded-covers h)))
  ]

  -- A tick of a paused pool asks for no more tasks and no more hosts than there are, whatever the
  -- queue holds.
  pub outcome-paused :
      reads.is_paused ≡ true
      → ((outcome config lim reads ticks).target.tasks ≤ reads.current_desired_tasks)
        × ((outcome config lim reads ticks).target.hosts ≤ (asg_of config reads).0)
  unfolding outcome undamped
  outcome-paused p =
      rw (damp-paused config reads d n ticks t p) (railed-paused config reads d r t0 p)
