-- ===== src/Dispatcher/Gates.antt =====
-- harness_dispatcher.py: what a pass of the loop may do.
use agent_evals.Prelude.{
  ℕ, ◌≡◌, refl, ◌⊎◌, inl, inr, String, Bool, true, false, not, ◌&&◌, ◌||◌, Option, none, some, List,
  [], ◌∷◌, ◌++◌, ltb, if◌then◌else◌, is_some, Bool-cases, arith, ap, sym, ◌∙◌, subst,
}
use agent_evals.Prelude.Text.{Text, codes}
use agent_evals.Queue.Jobs.{HarnessJob}
use agent_evals.Results.{Key}
use agent_evals.Dispatcher.{
  Admission, Gate, permit, block, may_launch, maybe_refresh, decide, DispatchDecision,
}
use agent_evals.Dispatcher.Launch.{
  Config, Task, RunTask, started, failure, sdk_error, is_isolated, is_configured, family_for_job,
  reference_for, reference, when_reference, prepare, call_run_task, Launched, launched, refused,
  raised, failed, capacity, quota, throttle, permanent, launch_task,
}
use agent_evals.Dispatcher.Loop.{
  World, Message, Effect, task_started, reported, deleted, pass, when_permitted, handle_message,
  handle_body, handle_job, after_launch, discard_aborted, discarded_state, with_queue_wait,
  harness_key_of,
}

-- The run of the received job, and whether it counts as aborted.
abbrev is_aborted_job : (String → Bool) → Option HarnessJob → Bool
is_aborted_job aborted none = false
is_aborted_job aborted (some job) = aborted job.run_id

abbrev pub is_aborted_message : (String → Bool) → Option Message → Bool
is_aborted_message aborted none = false
is_aborted_message aborted (some m) = is_aborted_job aborted m.job

-- What allows a task.
pub record MayStart (c : Config) (w : World) (t : Task) : Type 0 where
  pub open_pool : w.is_paused ≡ false
  pub run_goes_on : w.is_run_aborted t.started_by ≡ false
  pub isolated : is_isolated w.facts.network ≡ true
  pub registered : w.facts.is_registered t.family ≡ true
  pub own_family : t.family ≡ c.family_prefix ++ t.job.instance_id
  pub own_run : t.job.run_id ≡ codes t.started_by
  pub own_key : t.job.litellm_api_key ≡ w.facts.cached_key t.started_by
  pub keyed : (not c.enforce_per_run_key || is_some t.job.litellm_api_key) ≡ true

-- What allows an effect: a message is deleted, and a row reported as closed, only for an aborted run.
abbrev pub Allowed : Config → World → Effect → Type 0
Allowed c w (task_started t) = MayStart c w t
Allowed c w (reported k state) =
    (state ≡ "DISPATCHED")
    ⊎ (((state ≡ "ABORTED_IN_FLIGHT") ⊎ (state ≡ "NEVER_DISPATCHED"))
        × (w.is_run_aborted k.run_id ≡ true))
Allowed c w (deleted handle) = is_aborted_message w.is_run_aborted w.received ≡ true

abbrev pub AllAllowed : Config → World → List Effect → Type 0
AllAllowed c w [] = Unit
AllAllowed c w (e ∷ es) = Allowed c w e × AllAllowed c w es

both : (a b : Bool) → (a && b) ≡ true → (a ≡ true) × (b ≡ true)
both a b h = (ground arith, ground arith)

notice-Allowed :
    (c : Config) (w : World) (k : Key) (b : Bool)
    → AllAllowed c w (if b then reported k "DISPATCHED" ∷ [] else [])
notice-Allowed c w k true = (inl refl, tt)
notice-Allowed c w k false = tt

discarded-closed :
    (n : ℕ) → (discarded_state n ≡ "ABORTED_IN_FLIGHT") ⊎ (discarded_state n ≡ "NEVER_DISPATCHED")
discarded-closed n = elim (Bool-cases (ltb 1 n)) [
  | inl e ↦ inl (rw e refl)
  | inr e ↦ inr (rw e refl)
]

discard-Allowed :
    (c : Config) (w : World) (m : Message) (job : HarnessJob) (sends deletes : Bool)
    → w.received ≡ some m
    → m.job ≡ some job
    → w.is_run_aborted job.run_id ≡ true
    → AllAllowed c w (
        if sends
        then reported (harness_key_of job) (discarded_state m.receives)
          ∷ (if deletes then deleted m.receipt_handle ∷ [] else [])
        else [])
discard-Allowed c w m job false deletes got read aborted = tt
discard-Allowed c w m job true false got read aborted =
    (inr (discarded-closed m.receives, aborted), tt)
discard-Allowed c w m job true true got read aborted =
    let here : is_aborted_message w.is_run_aborted w.received ≡ true =
      rw got (ap (is_aborted_job w.is_run_aborted) read ∙ aborted) in
    (inr (discarded-closed m.receives, aborted), (here, tt))

module _ (c : Config) (w : World) (job : HarnessJob) (handle : Text) where
  reference_for-keyed :
      (enforce : Bool) (key : Option Text) (t : Task)
      → when_reference c job (reference_for enforce key job handle w.launched_at) ≡ some t
      → (t ≡ record {
        family = family_for_job c job;
        subnets = c.subnets;
        security_groups = c.security_groups;
        job = reference job handle w.launched_at key;
        started_by = job.run_id;
      })
        × ((not enforce || is_some key) ≡ true)
  unfolding reference_for
  reference_for-keyed true none t h = cc
  reference_for-keyed true (some key) t h = (cc, refl)
  reference_for-keyed false none t h = (cc, refl)
  reference_for-keyed false (some key) t h = (cc, refl)

  prepare-MayStart :
      (t : Task)
      → w.is_paused ≡ false
      → w.is_run_aborted job.run_id ≡ false
      → prepare c w.facts job handle w.launched_at ≡ some t
      → MayStart c w t
  unfolding prepare family_for_job reference
  prepare-MayStart t opened running h = elim (Bool-cases ready) [
    | inr e ↦ let refusal : none ≡ some t = rw e at h in absurd cc
    | inl e ↦
        let (is_known, others) = both (w.facts.is_registered (family_for_job c job)) _ e in
        let (_, alone) = both (is_configured c) (is_isolated w.facts.network) others in
        let made : when_reference c job
              (reference_for c.enforce_per_run_key key job handle w.launched_at)
            ≡ some t =
          rw e at h in
        let (same, keyed) = reference_for-keyed c.enforce_per_run_key key t made in
        subst (MayStart c w) (sym same) (record {
          open_pool = opened;
          run_goes_on = running;
          isolated = alone;
          registered = is_known;
          own_family = refl;
          own_run = refl;
          own_key = refl;
          keyed = keyed;
        })
  ]
    where
      ready : Bool
      ready =
          w.facts.is_registered (family_for_job c job)
          && (is_configured c && is_isolated w.facts.network)

      key : Option Text
      key = w.facts.cached_key job.run_id

  launched-prepared :
      (o : Option Task) (answer : RunTask) (t : Task)
      → call_run_task o answer ≡ launched t
      → o ≡ some t
  launched-prepared none answer t h = absurd cc
  launched-prepared (some q) started t h = cc
  launched-prepared (some q) sdk_error t h = absurd cc
  launched-prepared (some q) (failure reason detail) t h = absurd cc

  after_launch-Allowed :
      (a : Admission) (l : Launched)
      → ((t : Task) → l ≡ launched t → MayStart c w t)
      → AllAllowed c w (after_launch w a job l).effects
  unfolding after_launch
  after_launch-Allowed a (launched t) may =
      (may t refl, notice-Allowed c w (harness_key_of job) w.sends)
  after_launch-Allowed a refused may = tt
  after_launch-Allowed a raised may = tt
  after_launch-Allowed a (failed quota) may = tt
  after_launch-Allowed a (failed capacity) may = tt
  after_launch-Allowed a (failed throttle) may = tt
  after_launch-Allowed a (failed permanent) may = tt

module _ (c : Config) (w : World) (a : Admission) (opened : w.is_paused ≡ false) where
  handle_job-Allowed :
      (m : Message) (job : HarnessJob)
      → w.received ≡ some m
      → m.job ≡ some job
      → AllAllowed c w (handle_job c w a m job).effects
  unfolding handle_job discard_aborted launch_task
  handle_job-Allowed m job got read = elim (Bool-cases (w.is_run_aborted job.run_id)) [
    | inl e ↦ rw e (discard-Allowed c w m job w.sends w.deletes got read e)
    | inr e ↦
        let waited = with_queue_wait m job in
        let prepared = prepare c w.facts waited m.receipt_handle w.launched_at in
        rw e (
          after_launch-Allowed c w job m.receipt_handle a (call_run_task prepared w.answer) (λ t h.
            prepare-MayStart c w waited m.receipt_handle t opened e
              (launched-prepared c w waited m.receipt_handle prepared w.answer t h)))
  ]

  handle_body-Allowed :
      (m : Message) (job : Option HarnessJob)
      → w.received ≡ some m
      → m.job ≡ job
      → AllAllowed c w (handle_body c w a m job).effects
  handle_body-Allowed m none got read = tt
  handle_body-Allowed m (some job) got read = handle_job-Allowed m job got read

  handle_message-Allowed :
      (m : Option Message) → w.received ≡ m → AllAllowed c w (handle_message c w a m).effects
  handle_message-Allowed none got = tt
  handle_message-Allowed (some m) got = handle_body-Allowed m m.job got refl

permit-open :
    (is_paused : Bool) (gate : Gate) (a : Admission)
    → decide is_paused gate a ≡ permit
    → is_paused ≡ false
unfolding decide
permit-open is_paused gate a h = ground arith

when_permitted-Allowed :
    (c : Config) (w : World) (a : Admission) (d : DispatchDecision)
    → decide w.is_paused w.gate a ≡ d
    → AllAllowed c w (when_permitted c w a d).effects
when_permitted-Allowed c w a (block reason) e = tt
when_permitted-Allowed c w a permit e =
    handle_message-Allowed c w a (permit-open w.is_paused w.gate a e) w.received refl

-- In one pass of the loop a task is started only with the pool open, for a run that is not aborted, in the
-- instance's own registered family, in a network without a default route or open egress, and with the run's
-- cached key, which must be there where keys are enforced; a row is reported only as DISPATCHED or as closed by
-- an abort of its run, and the received message is deleted only if its run is aborted.
pub pass-AllAllowed : (c : Config) (w : World) (a : Admission) → AllAllowed c w (pass c w a).effects
unfolding pass may_launch
pass-AllAllowed c w a = when_permitted-Allowed c w (maybe_refresh w.now w.reads a) _ refl
