-- ===== src/EvalScaler/Drain/Spares.antt =====
-- swebench_eval/orchestrator/control_plane/eval_autoscaler.py: which hosts
-- `_release_drained_terminations` lets go.
use mathlib.Core.List.{Memᴰ}
use agent_evals.Prelude.{
  ◌<◌, ◌≡◌, ◌⊎◌, inl, inr, refl, sym, ap, subst, String, Bool, true, false, ltb, lt→ltb, ltb→lt,
  List, [], ◌∷◌, ◌++◌, Bool-cases, =s_refl, some, arith,
}
use agent_evals.Prelude.Text.{codes, starts_with}
use agent_evals.EvalScaler.Drain.{
  Instance, Draining, Group, waiting, draining_hosts_with_tasks, terminating_hooks, is_in,
  with_hooks, let_go, Release, release_each, release_drained_terminations,
}

is_in-here : (id : String) (busy : List String) → is_in (id ∷ busy) id ≡ true
unfolding is_in
is_in-here id busy = rw (=s_refl id) refl

is_in-later :
    (id b : String) (busy : List String) → is_in busy id ≡ true → is_in (b ∷ busy) id ≡ true
unfolding is_in
is_in-later id b busy h = ground (arith, h)

with_task :
    (d : Draining) (draining : List Draining)
    → 0 < d.running_tasks_count
    → Memᴰ d draining
    → is_in (draining_hosts_with_tasks draining) d.ec2_instance_id ≡ true
unfolding draining_hosts_with_tasks
with_task d [] h m = elim m [ ]
with_task d (e ∷ draining) h (Memᴰ.head p) =
    rw (sym p, lt→ltb 0 d.running_tasks_count h)
      (is_in-here d.ec2_instance_id (draining_hosts_with_tasks draining))
with_task d (e ∷ draining) h (Memᴰ.tail m) = elim (Bool-cases (ltb 0 e.running_tasks_count)) [
  | inl f ↦ rw f (
      is_in-later d.ec2_instance_id e.ec2_instance_id (draining_hosts_with_tasks draining)
        (with_task d draining h m))
  | inr f ↦ rw f (with_task d draining h m)
]

append-cases :
    (x : String × String) (xs ys : List (String × String))
    → Memᴰ x (xs ++ ys)
    → Memᴰ x xs ⊎ Memᴰ x ys
append-cases x [] ys m = inr m
append-cases x (y ∷ xs) ys (Memᴰ.head e) = inl (Memᴰ.head e)
append-cases x (y ∷ xs) ys (Memᴰ.tail m) = elim (append-cases x xs ys m) [
  | inl k ↦ inl (Memᴰ.tail k)
  | inr k ↦ inr k
]

append-left : (x : String × String) (xs ys : List (String × String)) → Memᴰ x xs → Memᴰ x (xs ++ ys)
append-left x [] ys m = elim m [ ]
append-left x (y ∷ xs) ys (Memᴰ.head e) = Memᴰ.head e
append-left x (y ∷ xs) ys (Memᴰ.tail m) = Memᴰ.tail (append-left x xs ys m)

append-right :
    (x : String × String) (xs ys : List (String × String)) → Memᴰ x ys → Memᴰ x (xs ++ ys)
append-right x [] ys m = m
append-right x (y ∷ xs) ys m = Memᴰ.tail (append-right x xs ys m)

with_hooks-id :
    (id i hook : String) (hooks : List String) → Memᴰ (id, hook) (with_hooks i hooks) → id ≡ i
with_hooks-id id i hook [] m = elim m [ ]
with_hooks-id id i hook (h ∷ hooks) (Memᴰ.head e) = ap (λ x. x.0) e
with_hooks-id id i hook (h ∷ hooks) (Memᴰ.tail m) = with_hooks-id id i hook hooks m

with_hooks-Mem :
    (id hook : String) (hooks : List String)
    → Memᴰ hook hooks
    → Memᴰ (id, hook) (with_hooks id hooks)
with_hooks-Mem id hook [] m = elim m [ ]
with_hooks-Mem id hook (h ∷ hooks) (Memᴰ.head e) = Memᴰ.head (ap (λ x. (id, x)) e)
with_hooks-Mem id hook (h ∷ hooks) (Memᴰ.tail m) = Memᴰ.tail (with_hooks-Mem id hook hooks m)

-- The instance is let go in this turn, or in a later one.
let_go-cases :
    (busy : Bool) (id i hook : String) (hooks : List String) (rest : Release)
    → Memᴰ (id, hook) (let_go busy i hooks rest).completed
    → ((busy ≡ false) × (id ≡ i)) ⊎ Memᴰ (id, hook) rest.completed
let_go-cases true id i hook hooks rest m = inr m
let_go-cases false id i hook hooks rest m =
    elim (append-cases (id, hook) (with_hooks i hooks) rest.completed m) [
      | inl k ↦ inl (refl, with_hooks-id id i hook hooks k)
      | inr k ↦ inr k
    ]

let_go-later :
    (busy : Bool) (i : String) (x : String × String) (hooks : List String) (rest : Release)
    → Memᴰ x rest.completed
    → Memᴰ x (let_go busy i hooks rest).completed
let_go-later true i x hooks rest m = m
let_go-later false i x hooks rest m = append-right x (with_hooks i hooks) rest.completed m

module _ (id hook : String) (busy hooks : List String) where
  each-idle :
      (ids : List String)
      → Memᴰ (id, hook) (release_each ids busy hooks).completed
      → (is_in busy id ≡ false) × Memᴰ id ids
  unfolding release_each
  each-idle [] m = elim m [ ]
  each-idle (i ∷ ids) m =
      elim (let_go-cases (is_in busy i) id i hook hooks (release_each ids busy hooks) m) [
        | inl (e, p) ↦ (subst (λ x. is_in busy x ≡ false) (sym p) e, Memᴰ.head p)
        | inr k ↦ let (p, q) = each-idle ids k in (p, Memᴰ.tail q)
      ]

  idle-each :
      (ids : List String)
      → is_in busy id ≡ false
      → Memᴰ hook hooks
      → Memᴰ id ids
      → Memᴰ (id, hook) (release_each ids busy hooks).completed
  unfolding release_each
  idle-each [] e h m = elim m [ ]
  idle-each (i ∷ ids) e h (Memᴰ.head p) =
      rw (sym p, e)
        (append-left (id, hook) (with_hooks id hooks) (release_each ids busy hooks).completed
          (with_hooks-Mem id hook hooks h))
  idle-each (i ∷ ids) e h (Memᴰ.tail m) =
      let_go-later (is_in busy i) i (id, hook) hooks (release_each ids busy hooks)
        (idle-each ids e h m)

waiting-Mem :
    (i : Instance) (instances : List Instance)
    → starts_with i.lifecycle_state (codes "Terminating:Wait") ≡ true
    → Memᴰ i instances
    → Memᴰ i.instance_id (waiting instances)
unfolding waiting
waiting-Mem i [] h m = elim m [ ]
waiting-Mem i (j ∷ instances) h (Memᴰ.head p) = rw (sym p, h) (Memᴰ.head refl)
waiting-Mem i (j ∷ instances) h (Memᴰ.tail m) =
    elim (Bool-cases (starts_with j.lifecycle_state (codes "Terminating:Wait"))) [
      | inl e ↦ rw e (Memᴰ.tail (waiting-Mem i instances h m))
      | inr e ↦ rw e (waiting-Mem i instances h m)
    ]

-- An instance that is let go is one that waits, and no draining host of its id runs a task.
pub release_spares_tasks :
    (g : Group) (id hook : String) (d : Draining)
    → Memᴰ (id, hook) (release_drained_terminations (some g)).completed
    → Memᴰ d g.draining
    → d.ec2_instance_id ≡ id
    → Memᴰ id (waiting g.instances) × (d.running_tasks_count ≡ 0)
unfolding release_drained_terminations
release_spares_tasks g id hook d m k e =
    let (p, q) = each-idle id hook _ _ (waiting g.instances) m in
    (
      q,
      elim (Bool-cases (ltb 0 d.running_tasks_count)) [
        | inl t ↦ absurd (
            ground (
              arith,
              p,
              subst (λ x. is_in (draining_hosts_with_tasks g.draining) x ≡ true) e
                  (with_task d g.draining (ltb→lt 0 d.running_tasks_count t) k),
            ))
        | inr t ↦ ground (arith, t)
      ],
    )

-- An instance in the state Terminating:Wait that is not among the draining hosts with tasks is let go
-- by each hook of the transition.
pub release_all_drained :
    (g : Group) (i : Instance) (hook : String)
    → Memᴰ i g.instances
    → starts_with i.lifecycle_state (codes "Terminating:Wait") ≡ true
    → is_in (draining_hosts_with_tasks g.draining) i.instance_id ≡ false
    → Memᴰ hook (terminating_hooks g.hooks)
    → Memᴰ (i.instance_id, hook) (release_drained_terminations (some g)).completed
unfolding release_drained_terminations
release_all_drained g i hook m s e h =
    idle-each i.instance_id hook _ _ (waiting g.instances) e h (waiting-Mem i g.instances s m)
