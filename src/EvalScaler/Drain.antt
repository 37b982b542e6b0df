-- ===== src/EvalScaler/Drain.antt =====
-- swebench_eval/orchestrator/control_plane/eval_autoscaler.py: `_release_drained_terminations` and
-- `_draining_hosts_with_tasks`. The answers of AWS are lists; a read that raises releases nothing.
pub mod Spares
mod Tests
use mathlib.Core.List.{Memᴰ}
use agent_evals.Prelude.{
  ℕ, zero, suc, ◌+◌, ◌≡◌, ◌↔◌, ◌⊎◌, inl, inr, refl, sym, ap, subst, String, Bool, true, false, ltb,
  List, [], ◌∷◌, ◌++◌, if◌then◌else◌, Bool-cases, ◌=s◌, length, Option, none, some,
}
use agent_evals.Prelude.Text.{Text, codes, starts_with, ends_with}

pub record Instance : Type 0 where
  pub instance_id : String
  pub lifecycle_state : Text

pub record Hook : Type 0 where
  pub lifecycle_hook_name : String
  pub lifecycle_transition : Text

-- A container instance that drains.
pub record Draining : Type 0 where
  pub ec2_instance_id : String
  pub running_tasks_count : ℕ

pub record Group : Type 0 where
  pub instances : List Instance
  pub draining : List Draining
  pub hooks : List Hook

-- `waiting`.
pub waiting : List Instance → List String
waiting [] = []
waiting (i ∷ instances) =
    let rest = waiting instances in
    if starts_with i.lifecycle_state (codes "Terminating:Wait") then i.instance_id ∷ rest else rest

-- `_draining_hosts_with_tasks`.
pub draining_hosts_with_tasks : List Draining → List String
draining_hosts_with_tasks [] = []
draining_hosts_with_tasks (d ∷ draining) =
    let rest = draining_hosts_with_tasks draining in
    if ltb 0 d.running_tasks_count then d.ec2_instance_id ∷ rest else rest

-- `hooks`.
pub terminating_hooks : List Hook → List String
terminating_hooks [] = []
terminating_hooks (h ∷ hooks) =
    let rest = terminating_hooks hooks in
    if ends_with h.lifecycle_transition (codes "TERMINATING")
    then h.lifecycle_hook_name ∷ rest
    else rest

pub is_in : List String → String → Bool
is_in [] id = false
is_in (b ∷ busy) id = if b =s id then true else is_in busy id

abbrev pub with_hooks : String → List String → List (String × String)
with_hooks id [] = []
with_hooks id (hook ∷ hooks) = (id, hook) ∷ with_hooks id hooks

pub record Release : Type 0 where
  pub completed : List (String × String)
  pub released : ℕ

-- One turn of the loop; the flag is `instance_id in busy`.
abbrev pub let_go : Bool → String → List String → Release → Release
let_go true id hooks rest = rest
let_go false id hooks rest = record {
  completed = with_hooks id hooks ++ rest.completed;
  released = rest.released + 1;
}

-- The loop over the instances that wait: each that runs no task is let go, by every hook.
pub release_each : (ids busy hooks : List String) → Release
release_each [] busy hooks = record { completed = []; released = 0 }
release_each (id ∷ ids) busy hooks = let_go (is_in busy id) id hooks (release_each ids busy hooks)

-- `_release_drained_terminations`; `none` is a read that raised.
pub release_drained_terminations : Option Group → Release
release_drained_terminations none = record { completed = []; released = 0 }
release_drained_terminations (some g) =
    release_each (waiting g.instances) (draining_hosts_with_tasks g.draining)
      (terminating_hooks g.hooks)
