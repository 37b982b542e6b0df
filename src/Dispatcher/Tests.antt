-- ===== src/Dispatcher/Tests.antt =====
-- harness_dispatcher.py at one configuration, one job and a few ticks.
use agent_evals.Prelude.{ℕ, ◌+◌, ◌-◌, ◌<◌, ◌≡◌, refl, true, false, none, some, List, [], ◌∷◌, arith}
use agent_evals.Prelude.Text.{codes}
use agent_evals.Queue.Jobs.{HarnessJob}
use agent_evals.Dispatcher.{absent, start, in_flight}
use agent_evals.Dispatcher.Launch.{Config, Facts, RunTask, started}
use agent_evals.Dispatcher.Loop.{Message, World, pass}
use agent_evals.Dispatcher.Capacity.{
  Fleet, loops, exits, here, next, IsWithin, Steps-IsWithin, tasks_started,
}
use agent_evals.Dispatcher.Gates.{AllAllowed, pass-AllAllowed}
use agent_evals.Dispatcher.Planner.{
  AliasView, unbound, cooldown, Holds, gate, totals, add_alias, no_totals, is_pressured,
}
use agent_evals.Dispatcher.Planner.Pauses.{
  Tick, run_tick, run_ticks, verdict_of, IsHeld, EndsAfter, overload-IsHeld,
}
use agent_evals.Dispatcher.Planner.Budgets.{Rate, Budgets, Knobs}
use agent_evals.Dispatcher.Planner.Ratchet.{
  Event, reconciles, arms, overloads, happen_all, grow_times, k_inflight-happen_all,
}

abbrev config : Config
config = record {
  cluster = "cluster";
  subnets = "subnet-1" ∷ [];
  security_groups = "group-1" ∷ [];
  family_prefix = codes "agent-";
  enforce_per_run_key = false;
}

abbrev facts : Facts
facts = record {
  is_registered = λ family. true;
  network = record {
    default_routes = some [] ∷ [];
    egress_v4 = ("10.0.0.0/16" ∷ []) ∷ [];
    egress_v6 = [];
  };
  cached_key = λ run. none;
}

abbrev job : HarnessJob
job = record {
  run_id = "run-1";
  instance_id = "django-1";
  repo_url = "https://example.org/django";
  base_commit = "abc";
  problem_statement = "text";
  attempt_number = 1;
  harness_name = "codex";
  model_alias = "cheap-oss-model";
  env_image_key = "";
  timeout_seconds = 5_400;
  max_tokens_per_instance = none;
  max_cost_usd_per_instance = 5_000;
  max_turns_per_instance = none;
  dispatched_at = none;
  queue_wait_s = none;
  context_window_tokens = none;
}

abbrev message : Message
message = record {
  job = some job;
  receipt_handle = codes "handle";
  sent = some 1_000;
  first_received = some 3_000;
  receives = 1;
}

-- The same tasks are listed before the launch of a pass and right after it.
abbrev world : ℕ → RunTask → World
world running answer = record {
  now = 20_000;
  launched_at = record { num = 20_000_250; den = 1_000_000 };
  reads = record { running = some running; max_parallel = absent };
  is_paused = false;
  gate = λ n. none;
  received = some message;
  is_run_aborted = λ run. false;
  facts = facts;
  answer = answer;
  reads_after = record { running = some running; max_parallel = absent };
  sends = true;
  deletes = true;
}

abbrev looped : ℕ → Fleet → Fleet
looped running f = record {
  admission = (pass config (world running started) f.admission).admission;
  live = f.live + tasks_started (pass config (world running started) f.admission).effects;
}

abbrev no_tasks : Fleet
no_tasks = record { admission = start 2; live = 0 }

no_tasks-IsWithin : IsWithin 1 2 no_tasks.live no_tasks.admission
unfolding in_flight
no_tasks-IsWithin = record { counted = omega arith; bounded = omega arith; same = refl }

-- A task is started and not listed yet, and ends.
Steps-IsWithin_example :
    IsWithin 1 2
      (record (looped 0 no_tasks) { live = (looped 0 no_tasks).live - 1 }).live
      (looped 0 no_tasks).admission
Steps-IsWithin_example = Steps-IsWithin config 1 2 no_tasks-IsWithin (
    next (next here (loops no_tasks (world 0 started) (omega arith) (omega arith)))
      (exits (looped 0 no_tasks) 1))

pass-AllAllowed_example :
    AllAllowed config (world 0 started) (pass config (world 0 started) (start 2)).effects
pass-AllAllowed_example = pass-AllAllowed config (world 0 started) (start 2)

abbrev view : ℕ → ℕ → AliasView
view hits timeouts = record {
  ceiling = 8;
  binding = unbound;
  overloads = hits;
  admitted = 10;
  over_2s = 0;
  timeouts = timeouts;
  queue_len = 0;
  head_wait = 0;
}

abbrev ticked : ℕ → ℕ → ℕ → Tick
ticked now hits timeouts = record {
  now = now;
  in_flight = 5;
  settings = record { window = 60_000; override = none; cap = some 20 };
  aliases = view hits timeouts ∷ [];
}

abbrev no_holds : Holds
no_holds = record { cooldown_until = 0; paced_blocked = false; paced_clean_windows = 0 }

quiet-EndsAfter : EndsAfter 61_000 (ticked 16_000 0 0 ∷ [])
unfolding EndsAfter
quiet-EndsAfter = (omega arith, tt)

overloads_seen : 0 < (totals no_totals (ticked 1_000 2 0).aliases).overloads
unfolding totals add_alias
overloads_seen = omega arith

abbrev held : Holds
held = run_ticks (ticked 16_000 0 0 ∷ []) (run_tick (ticked 1_000 2 0) no_holds)

overload-IsHeld_example :
    IsHeld 5 cooldown (verdict_of (ticked 31_000 0 0) held)
    × (gate true true (some (verdict_of (ticked 31_000 0 0) held)) 3 ≡ some cooldown)
overload-IsHeld_example =
    overload-IsHeld (ticked 1_000 2 0) (ticked 16_000 0 0 ∷ []) (ticked 31_000 0 0) no_holds 3
      overloads_seen quiet-EndsAfter (omega arith) (omega arith)

timeouts_press : is_pressured (totals no_totals (ticked 1_000 0 1).aliases) ≡ true
unfolding totals add_alias is_pressured
timeouts_press = refl

abbrev whole : ℕ → Rate
whole n = record { num = n; den = 1 }

abbrev budgets : Budgets
budgets = record {
  r_tok = whole 1_000;
  k_inflight = whole 500;
  r_qps = whole 2;
  r_tok_seed = some (whole 1_000);
  k_inflight_seed = some (whole 500);
  r_qps_seed = some (whole 2);
  seeded_at = 0;
}

abbrev knobs : Knobs
knobs = record {
  growth_step = 50_000;
  growth_cap_factor = 1_500;
  utilization = 900;
  is_live = true;
}

-- A peak, an overload, and a peak again.
abbrev events : List Event
events =
    reconciles 5 (record { overloads = 0; arrival = whole 900; writes = true })
    ∷ overloads 9 true
        (record { tokens = 30_000; calls = 60; projected_tok = whole 0; projected_qps = whole 0 })
    ∷ arms 12
    ∷ reconciles 12 (record { overloads = 0; arrival = whole 900; writes = true })
    ∷ []

k_inflight-happen_all_example :
    (happen_all knobs events
      (record { peak = some 3; budgets = budgets; growths = 0 })).budgets.k_inflight
    ≡ grow_times knobs
        (happen_all knobs events (record { peak = some 3; budgets = budgets; growths = 0 })).growths
        (whole 500)
k_inflight-happen_all_example = k_inflight-happen_all knobs events (some 3) budgets
