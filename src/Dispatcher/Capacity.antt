-- ===== src/Dispatcher/Capacity.antt =====
-- harness_dispatcher.py: how many harness tasks run at once, over any passes of the loop and any exits.
use agent_evals.Prelude.{
  ℕ, ◌+◌, ◌-◌, ◌≤◌, ◌<◌, ◌≡◌, refl, Bool, Option, none, some, List, [], ◌∷◌, leb, Bool-cases, inl,
  inr, arith,
}
use agent_evals.Prelude.Int.{ℤ, pos, negsuc}
use agent_evals.Dispatcher.{
  Admission, Reads, Gate, permit, block, recount, refresh, tightened, effective_ceiling, in_flight,
  maybe_refresh, may_launch, decide, note_launch, ground_truth_refresh,
  ground_truth_every_n_launches, DispatchDecision,
}
use agent_evals.Dispatcher.Launch.{
  Config, Launched, launched, refused, raised, failed, capacity, quota, throttle, permanent,
  launch_task,
}
use agent_evals.Dispatcher.Loop.{
  World, Message, Effect, task_started, Passed, pass, when_permitted, handle_job, emit_dispatched,
  after_launch, discard_aborted, with_queue_wait, handle_body, handle_message,
}
use agent_evals.Queue.Jobs.{HarnessJob}

pub record Fleet : Type 0 where
  pub admission : Admission
  pub live : ℕ

unfoldable pub tasks_started : List Effect → ℕ
tasks_started [] = 0
tasks_started (task_started t ∷ es) = tasks_started es + 1
tasks_started (_ ∷ es) = tasks_started es

-- A read of the running tasks that answers lists all but at most `missed` of them: ECS does not list a task at
-- once, so that a task of the last launches may not be counted yet.
abbrev pub Lists : ℕ → ℕ → Option ℕ → Type 0
Lists missed live none = Unit
Lists missed live (some n) = live ≤ n + missed

-- A pass of the loop, or tasks that end by themselves.
pub data Step (missed : ℕ) (c : Config) : Fleet → Fleet → Type 0 where
  loops :
      (f : Fleet) (w : World)
      → Lists missed f.live w.reads.running
      → Lists missed (f.live + 1) w.reads_after.running
      → Step missed c f (record {
        admission = (pass c w f.admission).admission;
        live = f.live + tasks_started (pass c w f.admission).effects;
      })
  exits : (f : Fleet) (n : ℕ) → Step missed c f (record f { live = f.live - n })

pub data Steps (missed : ℕ) (c : Config) (f : Fleet) : Fleet → Type 0 where
  here : Steps missed c f f
  next : {g h : Fleet} → Steps missed c f g → Step missed c g h → Steps missed c f h

pub record IsWithin (missed ceiling live : ℕ) (a : Admission) : Type 0 where
  pub counted : live ≤ in_flight a + missed
  pub bounded : live ≤ ceiling + missed
  pub same : a.ceiling ≡ ceiling

recount-IsWithin :
    (missed top live now : ℕ) (o : Option ℕ) (a : Admission)
    → Lists missed live o
    → IsWithin missed top live a
    → IsWithin missed top live (recount now o a)
unfolding in_flight
recount-IsWithin missed top live now none a sees v = record {
  counted = v.counted;
  bounded = v.bounded;
  same = v.same;
}
recount-IsWithin missed top live now (some n) a sees v = record {
  counted = omega arith;
  bounded = v.bounded;
  same = v.same;
}

refresh-IsWithin :
    (missed top live now : ℕ) (r : Reads) (a : Admission)
    → Lists missed live r.running
    → IsWithin missed top live a
    → IsWithin missed top live (refresh now r a)
unfolding refresh in_flight
refresh-IsWithin missed top live now r a sees v =
    let w = recount-IsWithin missed top live now r.running a sees v in
    record { counted = w.counted; bounded = w.bounded; same = w.same }

maybe_refresh-IsWithin :
    (missed top live now : ℕ) (r : Reads) (a : Admission)
    → Lists missed live r.running
    → IsWithin missed top live a
    → IsWithin missed top live (maybe_refresh now r a)
unfolding maybe_refresh
maybe_refresh-IsWithin missed top live now r a sees v =
    elim (Bool-cases (leb (now - a.last_gt_at) ground_truth_refresh)) [
      | inl e ↦ rw e v
      | inr e ↦ rw e (refresh-IsWithin missed top live now r a sees v)
    ]

tightened-le : (n : ℕ) (cap : Option ℤ) → tightened n cap ≤ n
tightened-le n none = omega arith
tightened-le n (some (pos m)) = ground arith
tightened-le n (some (negsuc m)) = omega arith

permit-lt :
    (is_paused : Bool) (gate : Gate) (a : Admission)
    → decide is_paused gate a ≡ permit
    → in_flight a < a.ceiling
unfolding decide effective_ceiling
permit-lt is_paused gate a h = ground (arith, tightened-le a.ceiling a.run_cap)

note_launch-IsWithin :
    (missed top live now : ℕ) (r : Reads) (a : Admission)
    → Lists missed (live + 1) r.running
    → live < top + missed
    → IsWithin missed top live a
    → IsWithin missed top (live + 1) (note_launch now r a)
unfolding note_launch in_flight
note_launch-IsWithin missed top live now r a sees room v =
    let one_more = record a { launches_since_gt = a.launches_since_gt + 1 } in
    let v' : IsWithin missed top (live + 1) one_more = record {
      counted = omega (arith, v.counted);
      bounded = omega arith;
      same = v.same;
    } in
    elim (Bool-cases (leb ground_truth_every_n_launches (a.launches_since_gt + 1))) [
      | inl e ↦ rw e (refresh-IsWithin missed top (live + 1) now r one_more sees v')
      | inr e ↦ rw e v'
    ]

-- What a pass leaves, whatever it started.
abbrev Kept : ℕ → ℕ → ℕ → Passed → Type 0
Kept missed top live p = IsWithin missed top (live + tasks_started p.effects) p.admission

stays :
    (missed top live : ℕ) (a : Admission)
    → IsWithin missed top live a
    → IsWithin missed top (live + 0) a
stays missed top live a v = let e : live + 0 ≡ live = omega arith in rw e v

discard-starts_none :
    (w : World) (m : Message) (job : HarnessJob) → tasks_started (discard_aborted w m job) ≡ 0
unfolding discard_aborted tasks_started
discard-starts_none w m job = ground arith

emit-starts_none : (w : World) (job : HarnessJob) → tasks_started (emit_dispatched w job) ≡ 0
unfolding tasks_started
emit-starts_none w job = ground arith

module _ (c : Config) (w : World) (missed top live : ℕ) (a : Admission)
    (v : IsWithin missed top live a) where
  after_launch-Kept :
      live < top + missed
      → Lists missed (live + 1) w.reads_after.running
      → (job : HarnessJob) (l : Launched) → Kept missed top live (after_launch w a job l)
  unfolding after_launch tasks_started
  after_launch-Kept room sees job (launched t) =
      let one : live + (tasks_started (emit_dispatched w job) + 1) ≡ live + 1 =
        omega (arith, emit-starts_none w job) in
      rw one (note_launch-IsWithin missed top live w.now w.reads_after a sees room v)
  after_launch-Kept room sees job refused = stays missed top live a v
  after_launch-Kept room sees job raised = stays missed top live a v
  after_launch-Kept room sees job (failed quota) = stays missed top live a v
  after_launch-Kept room sees job (failed capacity) = stays missed top live a v
  after_launch-Kept room sees job (failed throttle) = stays missed top live a v
  after_launch-Kept room sees job (failed permanent) = stays missed top live a v

  handle_job-Kept :
      live < top + missed
      → Lists missed (live + 1) w.reads_after.running
      → (m : Message) (job : HarnessJob) → Kept missed top live (handle_job c w a m job)
  unfolding handle_job
  handle_job-Kept room sees m job = elim (Bool-cases (w.is_run_aborted job.run_id)) [
    | inl e ↦
        let none_started = discard-starts_none w m job in
        rw (e, none_started) (stays missed top live a v)
    | inr e ↦ rw e (
        after_launch-Kept room sees job
          (launch_task c w.facts w.answer (with_queue_wait m job) m.receipt_handle w.launched_at))
  ]

  handle_body-Kept :
      live < top + missed
      → Lists missed (live + 1) w.reads_after.running
      → (m : Message) (job : Option HarnessJob) → Kept missed top live (handle_body c w a m job)
  unfolding tasks_started
  handle_body-Kept room sees m none = stays missed top live a v
  handle_body-Kept room sees m (some job) = handle_job-Kept room sees m job

  handle_message-Kept :
      live < top + missed
      → Lists missed (live + 1) w.reads_after.running
      → (m : Option Message) → Kept missed top live (handle_message c w a m)
  unfolding tasks_started
  handle_message-Kept room sees none = stays missed top live a v
  handle_message-Kept room sees (some m) = handle_body-Kept room sees m m.job

  when_permitted-Kept :
      Lists missed (live + 1) w.reads_after.running
      → (d : DispatchDecision) → decide w.is_paused w.gate a ≡ d
      → Kept missed top live (when_permitted c w a d)
  unfolding tasks_started
  when_permitted-Kept sees (block reason) e = stays missed top live a v
  when_permitted-Kept sees permit e =
      let room : live < top + missed =
        omega (arith, permit-lt w.is_paused w.gate a e, v.counted, v.same) in
      handle_message-Kept room sees w.received

pass-Kept :
    (c : Config) (w : World) (missed top live : ℕ) (a : Admission)
    → IsWithin missed top live a
    → Lists missed live w.reads.running
    → Lists missed (live + 1) w.reads_after.running
    → Kept missed top live (pass c w a)
unfolding pass may_launch
pass-Kept c w missed top live a v sees sees_after =
    let a' = maybe_refresh w.now w.reads a in
    let v' = maybe_refresh-IsWithin missed top live w.now w.reads a sees v in
    when_permitted-Kept c w missed top live a' v' sees_after (decide w.is_paused w.gate a') refl

Step-IsWithin :
    (c : Config) (missed top : ℕ) {f g : Fleet}
    → Step missed c f g
    → IsWithin missed top f.live f.admission
    → IsWithin missed top g.live g.admission
Step-IsWithin c missed top (loops f w sees sees_after) v =
    pass-Kept c w missed top f.live f.admission v sees sees_after
Step-IsWithin c missed top (exits f n) v = record {
  counted = omega (arith, v.counted);
  bounded = omega (arith, v.bounded);
  same = v.same;
}

-- Whatever the loop meets and whenever tasks end, if each read of the running tasks that answers leaves out at
-- most `missed` of the tasks that run and no one else starts any, then at most `missed` tasks more run at once
-- than the ceiling that the dispatcher started with, and at most `missed` more than it counts, as long as this
-- held at the start.
pub Steps-IsWithin :
    (c : Config) (missed top : ℕ) {f g : Fleet}
    → IsWithin missed top f.live f.admission
    → Steps missed c f g
    → IsWithin missed top g.live g.admission
Steps-IsWithin c missed top v here = v
Steps-IsWithin c missed top v (next steps step) =
    Step-IsWithin c missed top step (Steps-IsWithin c missed top v steps)
