-- ===== src/EvalScaler/Damping.antt =====
-- swebench_eval/orchestrator/control_plane/eval_autoscaler.py: when a tick scales in.
use agent_evals.Prelude.{
  ℕ, ◌+◌, ◌≤◌, ◌<◌, ◌≡◌, ◌⊎◌, inl, inr, refl, sym, ◌∙◌, Bool, true, false, Option, List, [], ◌∷◌,
  arith, ap, Bool-cases, if◌then◌else◌,
}
use agent_evals.EvalScaler.{
  ceil_div, Config, Reads, OperatorLimits, Target, asg_of, wanted, demanded, undamped, damp_tasks,
  damp_hosts, damped, damp, is_lower, limit_workers, limit_ticks,
}
use agent_evals.EvalScaler.Tick.{outcome}
use agent_evals.EvalScaler.Bounds.{railed-tasks, railed-within, damp-paused}

module _ (config : Config) (reads : Reads) (d needed ticks : ℕ) (t : Target) where
  damp-scale_in :
      reads.is_paused ≡ false
      → ((reads.current_desired_tasks ≤ (damp config reads d needed ticks t).1.tasks)
          ⊎ (needed ≤ (damp config reads d needed ticks t).0))
        × ((d ≤ (damp config reads d needed ticks t).1.hosts)
            ⊎ (2 ≤ (damp config reads d needed ticks t).0))
  unfolding damp damped damp_tasks damp_hosts
  damp-scale_in p = ground (arith, p)

  damp-pending :
      (damp config reads d needed ticks t).0 ≡ (if is_lower reads d t then ticks + 1 else 0)
  unfolding damp
  damp-pending = elim (Bool-cases (is_lower reads d t)) [ inl e ↦ rw e refl | inr e ↦ rw e refl ]

  damp-raises :
      reads.is_paused ≡ false
      → reads.current_desired_tasks ≤ t.tasks
      → d ≤ t.hosts
      → damp config reads d needed ticks t ≡ (0, t)
  unfolding damp
  damp-raises p h g = let e : is_lower reads d t ≡ false = ground (arith, p, h, g) in rw e refl

abbrev pub Input : Type 0
Input = Option OperatorLimits × Reads

-- A tick whose targets, before the damping, are below what there is, in a pool that is not paused.
abbrev pub is_lower_tick : Config → Input → Bool
is_lower_tick config (lim, reads) =
    is_lower reads (asg_of config reads).0 (undamped config reads (limit_workers config lim))

-- The count of lower ticks that a scaler keeps over ticks whose calls are answered, latest first.
pub pending_after : Config → List Input → ℕ
pending_after config [] = 0
pending_after config (x ∷ xs) = (outcome config x.0 x.1 (pending_after config xs)).pending

-- The lower ticks in a row up to the latest.
pub streak : Config → List Input → ℕ
streak config [] = 0
streak config (x ∷ xs) =
    let rest = streak config xs in if is_lower_tick config x then rest + 1 else 0

pending-streak : (config : Config) (xs : List Input) → pending_after config xs ≡ streak config xs
unfolding pending_after streak outcome
pending-streak config [] = refl
pending-streak config ((lim, reads) ∷ xs) =
    damp-pending config reads _ _ (pending_after config xs) _
    ∙ ap (λ k. if is_lower_tick config (lim, reads) then k + 1 else 0) (pending-streak config xs)

-- Over any ticks: the latest, of a pool that is not paused, lowers the tasks only at the end of as many
-- lower ticks in a row as the limit in force, and lowers the hosts only at the end of two.
pub scale_in-streak :
    (config : Config) (lim : Option OperatorLimits) (reads : Reads) (xs : List Input)
    → reads.is_paused ≡ false
    → ((reads.current_desired_tasks
          ≤ (outcome config lim reads (pending_after config xs)).target.tasks)
        ⊎ (limit_ticks config lim ≤ streak config ((lim, reads) ∷ xs)))
      × (((asg_of config reads).0
            ≤ (outcome config lim reads (pending_after config xs)).target.hosts)
          ⊎ (2 ≤ streak config ((lim, reads) ∷ xs)))
unfolding outcome pending_after
scale_in-streak config lim reads xs p =
    let e = pending-streak config ((lim, reads) ∷ xs) in
    rw (sym e, pending_after) (damp-scale_in config reads _ _ (pending_after config xs) _ p)

module _ (config : Config) (lim : Option OperatorLimits) (reads : Reads) (ticks : ℕ) where
  -- In a pool that is not paused, a demand for no fewer tasks and hosts than there are, within the rail
  -- of the group, is met in the same tick, and the count of lower ticks starts again.
  pub outcome-scale_out :
      reads.is_paused ≡ false
      → reads.current_desired_tasks ≤ wanted config reads (limit_workers config lim)
      → (asg_of config reads).0
        ≤ ceil_div (wanted config reads (limit_workers config lim)) config.tasks_per_host
      → ceil_div (wanted config reads (limit_workers config lim)) config.tasks_per_host
        ≤ (asg_of config reads).1
      → ((outcome config lim reads ticks).target.tasks
          ≡ wanted config reads (limit_workers config lim))
        × ((outcome config lim reads ticks).target.hosts
            ≡ ceil_div (wanted config reads (limit_workers config lim)) config.tasks_per_host)
        × ((outcome config lim reads ticks).pending ≡ 0)
  unfolding outcome undamped demanded
  outcome-scale_out p h g r =
      let (e, f) =
        railed-within config reads (asg_of config reads).0 (asg_of config reads).1
          (demanded config reads (limit_workers config lim)) p r in
      let q =
        damp-raises config reads (asg_of config reads).0 (limit_ticks config lim) ticks
          (undamped config reads (limit_workers config lim)) p (omega (arith, e, h))
          (omega (arith, f, g)) in
      rw q (e, f, refl)

  -- A tick of a paused pool takes the lower of the targets at once and starts the count again: one tick
  -- scales in, whatever the limit is.
  pub outcome-paused_scale_in :
      reads.is_paused ≡ true
      → wanted config reads (limit_workers config lim) < reads.current_desired_tasks
      → ((outcome config lim reads ticks).target.tasks < reads.current_desired_tasks)
        × ((outcome config lim reads ticks).pending ≡ 0)
  unfolding outcome undamped demanded
  outcome-paused_scale_in p h =
      rw
        (damp-paused config reads (asg_of config reads).0 (limit_ticks config lim) ticks
          (undamped config reads (limit_workers config lim)) p)
        (
          omega (
            arith,
            h,
            railed-tasks config reads (asg_of config reads).0 (asg_of config reads).1
                (demanded config reads (limit_workers config lim)),
          ),
          refl,
        )
