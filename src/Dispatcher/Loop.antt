-- ===== src/Dispatcher/Loop.antt =====
-- harness_dispatcher.py `run_harness_dispatcher`: one pass of its loop.
use agent_evals.Prelude.{
  ℕ, ◌-◌, String, Bool, Option, none, some, List, [], ◌∷◌, ltb, leb, if◌then◌else◌,
}
use agent_evals.Prelude.Text.{Text}
use agent_evals.Prelude.Decimal.{Fraction}
use agent_evals.Queue.Jobs.{HarnessJob}
use agent_evals.Results.{Key}
use agent_evals.Dispatcher.{
  Admission, Reads, Gate, DispatchDecision, permit, block, may_launch, note_launch,
}
use agent_evals.Dispatcher.Launch.{
  Config, Facts, Task, RunTask, quota, Launched, launched, refused, raised, failed, launch_task,
}

-- A received message: its job, `none` where `HarnessJob.from_dict` raises, its handle, and of its attributes
-- the two times, in milliseconds, and the count of its receives.
pub record Message : Type 0 where
  pub job : Option HarnessJob
  pub receipt_handle : Text
  pub sent : Option ℕ
  pub first_received : Option ℕ
  pub receives : ℕ

-- What a pass meets: the clock in milliseconds, and as it reads at the launch, the reads of the two refreshes, the pause flag, the planner's gate, the
-- queue's answer, the runs that count as aborted, the answers around RunTask, and whether the two calls of a
-- discard and the send of a notice answer.
pub record World : Type 0 where
  pub now : ℕ
  pub launched_at : Fraction
  pub reads : Reads
  pub is_paused : Bool
  pub gate : Gate
  pub received : Option Message
  pub is_run_aborted : String → Bool
  pub facts : Facts
  pub answer : RunTask
  pub reads_after : Reads
  pub sends : Bool
  pub deletes : Bool

pub data Effect : Type 0 where
  task_started : Task → Effect
  reported : Key → String → Effect
  deleted : Text → Effect

-- How a pass ends: the loop goes on, or an exception leaves it.
pub data Ending : Type 0 where
  goes_on malformed_job quota_error sdk_exception : Ending

pub record Passed : Type 0 where
  pub admission : Admission
  pub effects : List Effect
  pub ending : Ending

abbrev pub harness_key_of : HarnessJob → Key
harness_key_of job = record {
  run_id = job.run_id;
  instance_id = job.instance_id;
  attempt_number = job.attempt_number;
  phase = "harness";
}

-- The state that `_discard_aborted` reports.
abbrev pub discarded_state : ℕ → String
discarded_state receives = if ltb 1 receives then "ABORTED_IN_FLIGHT" else "NEVER_DISPATCHED"

unfoldable pub discard_aborted : World → Message → HarnessJob → List Effect
discard_aborted w m job =
    if w.sends
    then reported (harness_key_of job) (discarded_state m.receives)
      ∷ (if w.deletes then deleted m.receipt_handle ∷ [] else [])
    else []

-- `_emit_dispatched`.
abbrev pub emit_dispatched : World → HarnessJob → List Effect
emit_dispatched w job = if w.sends then reported (harness_key_of job) "DISPATCHED" ∷ [] else []

-- `seconds_between` of the two attributes.
abbrev pub wait_between : Option ℕ → Option ℕ → Option ℕ
wait_between none b = none
wait_between (some a) none = none
wait_between (some a) (some b) = if leb a b then some (b - a) else none

-- `_compute_queue_wait`.
abbrev pub with_queue_wait : Message → HarnessJob → HarnessJob
with_queue_wait m job = record job { queue_wait_s = wait_between m.sent m.first_received }

abbrev pub passed : Admission → List Effect → Ending → Passed
passed a effects ending = record { admission = a; effects = effects; ending = ending }

-- The end of a pass after `_launch_task`, and the loop's handlers of its exceptions.
unfoldable pub after_launch : World → Admission → HarnessJob → Launched → Passed
after_launch w a job (launched t) =
    passed (note_launch w.now w.reads_after a) (task_started t ∷ emit_dispatched w job) goes_on
after_launch w a job refused = passed a [] goes_on
after_launch w a job raised = passed a [] sdk_exception
after_launch w a job (failed quota) = passed a [] quota_error
after_launch w a job (failed _) = passed a [] goes_on

unfoldable pub handle_job : Config → World → Admission → Message → HarnessJob → Passed
handle_job c w a m job =
    if w.is_run_aborted job.run_id
    then passed a (discard_aborted w m job) goes_on
    else after_launch w a job
        (launch_task c w.facts w.answer (with_queue_wait m job) m.receipt_handle w.launched_at)

abbrev pub handle_body : Config → World → Admission → Message → Option HarnessJob → Passed
handle_body c w a m none = passed a [] malformed_job
handle_body c w a m (some job) = handle_job c w a m job

abbrev pub handle_message : Config → World → Admission → Option Message → Passed
handle_message c w a none = passed a [] goes_on
handle_message c w a (some m) = handle_body c w a m m.job

abbrev pub when_permitted : Config → World → Admission → DispatchDecision → Passed
when_permitted c w a (block reason) = passed a [] goes_on
when_permitted c w a permit = handle_message c w a w.received

-- One pass.
unfoldable pub pass : Config → World → Admission → Passed
pass c w a =
    let (a', decision) = may_launch w.now w.reads w.is_paused w.gate a in
    when_permitted c w a' decision
