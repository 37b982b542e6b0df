-- ===== src/Dispatcher.antt =====
-- swebench_eval/orchestrator/control_plane/harness_dispatcher.py: the admission of harness tasks. Times are
-- whole numbers of milliseconds; what ListTasks, DescribeTasks and Redis say is an argument.
pub mod Launch
pub mod Loop
pub mod Capacity
pub mod Gates
pub mod Planner
mod Tests
use agent_evals.Prelude.{
  ℕ, ◌+◌, ◌-◌, min, String, Bool, true, false, not, ◌||◌, Option, none, some, ltb, leb,
  if◌then◌else◌, is_some,
}
use agent_evals.Prelude.Int.{ℤ, pos, negsuc}

-- `max_parallel` of the run's overrides: absent or empty, no integer, or an integer.
pub data RawCap : Type 0 where
  absent unusable : RawCap
  integer : ℤ → RawCap

-- `_DispatcherAdmission`; `stalled` is whether `_stalled_reason` is not empty.
pub record Admission : Type 0 where
  pub ceiling : ℕ
  pub run_cap : Option ℤ
  pub gt_in_flight : ℕ
  pub last_gt_at : ℕ
  pub launches_since_gt : ℕ
  pub stalled : Bool

-- `_max_concurrent_from_env`: `none` is a refusal to start. The text is absent, no integer, or an integer.
unfoldable pub max_concurrent_from_env : RawCap → Option ℕ
max_concurrent_from_env absent = none
max_concurrent_from_env unusable = none
max_concurrent_from_env (integer (negsuc n)) = none
max_concurrent_from_env (integer (pos n)) = if ltb 0 n then some n else none

abbrev pub start : ℕ → Admission
start ceiling = record {
  ceiling = ceiling;
  run_cap = none;
  gt_in_flight = 0;
  last_gt_at = 0;
  launches_since_gt = 0;
  stalled = false;
}

abbrev pub ground_truth_refresh : ℕ
ground_truth_refresh = 10_000

abbrev pub ground_truth_every_n_launches : ℕ
ground_truth_every_n_launches = 5

abbrev pub cap_of : RawCap → Option ℤ
cap_of (integer n) = some n
cap_of _ = none

-- What one refresh reads: the count of running harness tasks, `none` where a call raised, and the cap.
pub record Reads : Type 0 where
  pub running : Option ℕ
  pub max_parallel : RawCap

abbrev pub recount : ℕ → Option ℕ → Admission → Admission
recount now none a = record a { stalled = true }
recount now (some n) a = record a {
  gt_in_flight = n;
  last_gt_at = now;
  launches_since_gt = 0;
  stalled = false;
}

unfoldable pub refresh : ℕ → Reads → Admission → Admission
refresh now r a =
    let counted = recount now r.running a in record counted { run_cap = cap_of r.max_parallel }

abbrev pub tightened : ℕ → Option ℤ → ℕ
tightened ceiling (some (pos n)) = if ltb 0 n then min ceiling n else ceiling
tightened ceiling _ = ceiling

unfoldable pub effective_ceiling : Admission → ℕ
effective_ceiling a = tightened a.ceiling a.run_cap

unfoldable pub in_flight : Admission → ℕ
in_flight a = a.gt_in_flight + a.launches_since_gt

unfoldable pub maybe_refresh : ℕ → Reads → Admission → Admission
maybe_refresh now r a = if leb (now - a.last_gt_at) ground_truth_refresh then a else refresh now r a

-- `DispatchDecision`; a block with its reason.
pub data Reason : Type 0 where
  paused stalled : Reason
  at_capacity : ℕ → ℕ → Reason
  gated : String → Reason

pub data DispatchDecision : Type 0 where
  permit : DispatchDecision
  block : Reason → DispatchDecision

-- What the planner's gate answers: there is none, it allows, or it blocks with a reason.
abbrev pub Gate : Type 0
Gate = ℕ → Option String

abbrev pub gate_decision : Option String → DispatchDecision
gate_decision none = permit
gate_decision (some reason) = block (gated reason)

-- `may_launch` after the refresh; `is_paused` is what `control_state.is_paused("harness")` says, and the
-- gate is the planner's for a number of tasks in flight.
unfoldable pub decide : Bool → Gate → Admission → DispatchDecision
decide is_paused gate a =
    if is_paused
    then block paused
    else if a.stalled
    then block stalled
    else if leb (effective_ceiling a) (in_flight a)
    then block (at_capacity (in_flight a) (effective_ceiling a))
    else gate_decision (gate (in_flight a))

unfoldable pub may_launch : ℕ → Reads → Bool → Gate → Admission → Admission × DispatchDecision
may_launch now r is_paused gate a = let a' = maybe_refresh now r a in (a', decide is_paused gate a')

unfoldable pub note_launch : ℕ → Reads → Admission → Admission
note_launch now r a =
    let a' = record a { launches_since_gt = a.launches_since_gt + 1 } in
    if leb ground_truth_every_n_launches a'.launches_since_gt then refresh now r a' else a'
