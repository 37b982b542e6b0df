-- ===== src/Reaper/Tests.antt =====
-- The reaper and the sweep at concrete rows.
use mathlib.Core.List.{Memᴰ}
use agent_evals.Prelude.{
  ℕ, ◌+◌, ◌≤◌, ◌≡◌, refl, String, Bool, true, false, Option, none, some, List, [], ◌∷◌, ◌=s◌,
}
use agent_evals.Results.{null, Key, Row}
use agent_evals.Results.Table.{same_key, find, put_row}
use agent_evals.Results.Write.{Records, Calls, Delivery, deliver, lookup}
use agent_evals.Results.Write.Jobs.{jobs_of}
use agent_evals.Reaper.{
  seconds, min_consecutive_empty, Tick, has_work, is_alive, forget, visit, visit_all,
  reap_candidates, reap_never_dispatched, since_of,
}
use agent_evals.Reaper.Drained.{Drained, reads, reaped-Drained}
use agent_evals.Reaper.Deadline.{reap_message}
use agent_evals.Reaper.Sweep.{sweep_remaining_rows, read_progress}
use agent_evals.Reaper.Closing.{reports, sweep_stops_jobs}

abbrev attempt : Key
attempt = record {
  run_id = "run-1";
  instance_id = "django-1";
  attempt_number = 1;
  phase = "harness";
}

abbrev row : String → Option ℕ → Row
row state dispatched_at = record {
  state = state;
  dispatched_at = dispatched_at;
  dispatch_count = 0;
  created_at = 0;
  seeded_at = none;
  retry_reason = null;
  evidence = [];
}

abbrev tick_at : ℕ → Bool → Tick
tick_at n paused = record {
  run_id = "run-1";
  paused = paused;
  utc = seconds 300;
  monotonic = n;
  rows = (attempt, row "PENDING" none) ∷ [];
  visible = 0;
  not_visible = 0;
  running = [];
  progress = [];
}

abbrev earlier : List Tick
earlier = tick_at (seconds 40) false ∷ tick_at (seconds 10) false ∷ []

reaped-Drained_example :
    (reads attempt (tick_at (seconds 100) false) ≡ true)
    × (has_work (tick_at (seconds 100) false) ≡ false)
    × (is_alive (tick_at (seconds 100) false) attempt ≡ false)
    × (n : ℕ) × (n + min_consecutive_empty ≤ (tick_at (seconds 100) false).monotonic)
    × Drained attempt n earlier
unfolding since_of reap_never_dispatched reap_candidates visit_all visit forget find put_row
    same_key ◌=s◌
reaped-Drained_example = reaped-Drained (tick_at (seconds 100) false) earlier attempt refl

abbrev calls : Calls
calls = record { write = true; seed = true; send = true; summarise = true }

abbrev records : Records
records = record {
  runs = ("run-1", "running") ∷ [];
  rows = (attempt, row "DISPATCHED" (some 7)) ∷ [];
  summaries = [];
  jobs = [];
}

abbrev patch_ready : Delivery
patch_ready = reports calls 9 attempt "PATCH_READY" ""

sweep_stops_jobs_example :
    jobs_of attempt
      (deliver
        (reports calls 8 attempt "ABORTED_IN_FLIGHT" "swept" ∷ patch_ready ∷ [])
        records).jobs
    ≡ jobs_of attempt records.jobs
unfolding sweep_remaining_rows read_progress lookup ◌=s◌ reap_message
sweep_stops_jobs_example =
    sweep_stops_jobs "run-1" [] [] none records.rows attempt "ABORTED_IN_FLIGHT" "swept" calls 8
      (patch_ready ∷ []) records (Memᴰ.head refl) refl refl
