-- ===== src/EvalScaler/Tick/Actions.antt =====
-- swebench_eval/orchestrator/control_plane/eval_autoscaler.py: the calls that a tick makes of AWS, and
-- what a tick that fails leaves.
use mathlib.Core.List.{Memᴰ}
use agent_evals.Prelude.{
  ℕ, zero, suc, ◌-◌, ◌≤◌, ◌≡◌, ◌⊎◌, inl, inr, refl, ap, subst, sym, ◌∙◌, min, String, true, false,
  Option, none, some, List, [], ◌∷◌, ◌++◌, ltb, ◌==◌, arith, Bool-cases, if◌then◌else◌, length,
  take, length-take,
}
use agent_evals.EvalScaler.{Host, Binding, scale_in_blocked_busy}
use agent_evals.EvalScaler.Tick.{
  Action, release_drained, set_desired_capacity, update_service, terminate_instance, idle_ids,
  with_idle, terminations, more_hosts, set_tasks, actuate,
}

-- The instances that the calls terminate.
abbrev pub terminated : List Action → List String
terminated [] = []
terminated (terminate_instance id ∷ actions) = id ∷ terminated actions
terminated (release_drained ∷ actions) = terminated actions
terminated (set_desired_capacity n ∷ actions) = terminated actions
terminated (update_service n ∷ actions) = terminated actions

terminated-append : (xs ys : List Action) → terminated (xs ++ ys) ≡ terminated xs ++ terminated ys
terminated-append [] ys = refl
terminated-append (terminate_instance id ∷ xs) ys = ap (◌∷◌ id) (terminated-append xs ys)
terminated-append (release_drained ∷ xs) ys = terminated-append xs ys
terminated-append (set_desired_capacity n ∷ xs) ys = terminated-append xs ys
terminated-append (update_service n ∷ xs) ys = terminated-append xs ys

terminated-terminations : (ids : List String) → terminated (terminations ids) ≡ ids
terminated-terminations [] = refl
terminated-terminations (id ∷ ids) = ap (◌∷◌ id) (terminated-terminations ids)

-- A listed host of that id, without a task.
abbrev pub IsIdle : String → List Host → Type 0
IsIdle id hosts = (h : Host) × Memᴰ h hosts × (h.ec2_instance_id ≡ some id) × (h.running_tasks ≡ 0)

IsIdle-later :
    (id : String) (g : Host) (hosts : List Host) → IsIdle id hosts → IsIdle id (g ∷ hosts)
IsIdle-later id g hosts (h, m, e, z) = (h, Memᴰ.tail m, e, z)

not_zero : (n : ℕ) → (suc n == 0) ≡ false
not_zero n = ground arith

with_idle-cases :
    (id : String) (o : Option String) (n : ℕ) (rest : List String)
    → Memᴰ id (with_idle o n rest)
    → ((o ≡ some id) × (n ≡ 0)) ⊎ Memᴰ id rest
with_idle-cases id none n rest m = inr m
with_idle-cases id (some i) zero rest (Memᴰ.head e) = inl (ap some (sym e), refl)
with_idle-cases id (some i) zero rest (Memᴰ.tail m) = inr m
with_idle-cases id (some i) (suc n) rest m =
    inr (subst (λ b. Memᴰ id (if b then i ∷ rest else rest)) (not_zero n) m)

idle_ids-IsIdle : (id : String) (hosts : List Host) → Memᴰ id (idle_ids hosts) → IsIdle id hosts
idle_ids-IsIdle id [] m = elim m [ ]
idle_ids-IsIdle id (h ∷ hosts) m =
    elim (with_idle-cases id h.ec2_instance_id h.running_tasks (idle_ids hosts) m) [
      | inl (e, z) ↦ (h, Memᴰ.head refl, e, z)
      | inr k ↦ IsIdle-later id h hosts (idle_ids-IsIdle id hosts k)
    ]

take-Mem : (n : ℕ) (id : String) (ids : List String) → Memᴰ id (take n ids) → Memᴰ id ids
take-Mem zero id ids m = elim m [ ]
take-Mem (suc n) id [] m = elim m [ ]
take-Mem (suc n) id (i ∷ ids) (Memᴰ.head e) = Memᴰ.head e
take-Mem (suc n) id (i ∷ ids) (Memᴰ.tail m) = Memᴰ.tail (take-Mem n id ids m)

terminated-more_hosts : (dh ch : ℕ) → terminated (more_hosts dh ch) ≡ []
terminated-more_hosts dh ch = elim (Bool-cases (ltb ch dh)) [
  | inl e ↦ rw e refl
  | inr e ↦ rw e refl
]

terminated-set_tasks : (dt ct : ℕ) → terminated (set_tasks dt ct) ≡ []
terminated-set_tasks dt ct = elim (Bool-cases (dt == ct)) [ inl e ↦ rw e refl | inr e ↦ rw e refl ]

terminated-out : (dt dh ct ch : ℕ) → terminated (more_hosts dh ch ++ set_tasks dt ct) ≡ []
terminated-out dt dh ct ch =
    rw
      (
        terminated-append (more_hosts dh ch) (set_tasks dt ct),
        terminated-more_hosts dh ch,
        terminated-set_tasks dt ct,
      )
      refl

no_removal : (dh ch : ℕ) (ids : List String) → ltb dh ch ≡ false → take (ch - dh) ids ≡ []
no_removal dh ch ids e = let z : ch - dh ≡ 0 = ground (arith, e) in rw z refl

actuate-terminated :
    (dt dh ct ch : ℕ) (hosts : List Host) (b : Binding)
    → terminated (actuate dt dh ct ch hosts b).0 ≡ take (ch - dh) (idle_ids hosts)
unfolding actuate
actuate-terminated dt dh ct ch hosts b = elim (Bool-cases (ltb dh ch)) [
  | inl e ↦
      rw
        (
          e,
          terminated-append (more_hosts dh ch ++ set_tasks dt ct)
              (terminations (take (ch - dh) (idle_ids hosts))),
          terminated-out dt dh ct ch,
        )
        (terminated-terminations (take (ch - dh) (idle_ids hosts)))
  | inr e ↦ rw (e, no_removal dh ch (idle_ids hosts) e) (terminated-out dt dh ct ch)
]

actuate-busy :
    (dt dh ct ch : ℕ) (hosts : List Host) (b : Binding)
    → ltb (length (idle_ids hosts)) (ch - dh) ≡ true
    → (actuate dt dh ct ch hosts b).1 ≡ scale_in_blocked_busy
unfolding actuate
actuate-busy dt dh ct ch hosts b f = let e : ltb dh ch ≡ true = ground (arith, f) in rw (e, f) refl

-- What the calls of an actuation terminate are idle hosts of the list, no more of them than the
-- hosts to remove; where they are fewer the answer is that the rest is busy.
pub actuate_spares_busy :
    (dt dh ct ch : ℕ) (hosts : List Host) (b : Binding) (id : String)
    → Memᴰ id (terminated (actuate dt dh ct ch hosts b).0)
    → IsIdle id hosts
      × (length (terminated (actuate dt dh ct ch hosts b).0) ≤ ch - dh)
      × ((length (terminated (actuate dt dh ct ch hosts b).0) ≡ ch - dh)
          ⊎ ((actuate dt dh ct ch hosts b).1 ≡ scale_in_blocked_busy))
actuate_spares_busy dt dh ct ch hosts b id m =
    let e = actuate-terminated dt dh ct ch hosts b in
    let l : length (terminated (actuate dt dh ct ch hosts b).0)
        ≡ min (ch - dh) (length (idle_ids hosts)) =
      ap length e ∙ length-take (ch - dh) (idle_ids hosts) in
    (
      idle_ids-IsIdle id hosts (take-Mem (ch - dh) id (idle_ids hosts) (subst (Memᴰ id) e m)),
      omega (arith, l),
      elim (Bool-cases (ltb (length (idle_ids hosts)) (ch - dh))) [
        | inl f ↦ inr (actuate-busy dt dh ct ch hosts b f)
        | inr f ↦ inl (ground (arith, f, l))
      ],
    )
