-- ===== src/EvalScaler/Drain/Tests.antt =====
-- Runs of `_release_drained_terminations` of
-- swebench_eval/orchestrator/control_plane/eval_autoscaler.py.
use mathlib.Core.List.{Memᴰ}
use agent_evals.Prelude.{◌≡◌, refl, sym, subst, true, false, some, [], ◌∷◌, ◌=s◌}
use agent_evals.Prelude.Text.{codes, starts_with, ends_with, eq_text}
use agent_evals.EvalScaler.Drain.{
  Draining, Group, waiting, draining_hosts_with_tasks, terminating_hooks, is_in, release_each,
  release_drained_terminations,
}

abbrev drained_b : Draining
drained_b = record { ec2_instance_id = "b"; running_tasks_count = 0 }

abbrev group : Group
group = record {
  instances =
      record { instance_id = "a"; lifecycle_state = codes "Terminating:Wait" }
      ∷ (record { instance_id = "b"; lifecycle_state = codes "Terminating:Wait" }
          ∷ (record { instance_id = "c"; lifecycle_state = codes "InService" } ∷ []));
  draining = record { ec2_instance_id = "a"; running_tasks_count = 1 } ∷ (drained_b ∷ []);
  hooks =
      record {
        lifecycle_hook_name = "drain";
        lifecycle_transition = codes "autoscaling:EC2_INSTANCE_TERMINATING";
      }
      ∷ [];
}

b_is_released : (release_drained_terminations (some group)).completed ≡ ("b", "drain") ∷ []
unfolding release_drained_terminations release_each is_in waiting draining_hosts_with_tasks
    terminating_hooks starts_with ends_with eq_text ◌=s◌
b_is_released = refl

b_is_idle : is_in (draining_hosts_with_tasks group.draining) "b" ≡ false
unfolding is_in draining_hosts_with_tasks ◌=s◌
b_is_idle = refl

b_Mem : Memᴰ ("b", "drain") (release_drained_terminations (some group)).completed
b_Mem = subst (Memᴰ ("b", "drain")) (sym b_is_released) (Memᴰ.head refl)

drain_Mem : Memᴰ "drain" (terminating_hooks group.hooks)
unfolding terminating_hooks ends_with eq_text
drain_Mem = Memᴰ.head refl

b_waits : starts_with (codes "Terminating:Wait") (codes "Terminating:Wait") ≡ true
unfolding starts_with
b_waits = refl
