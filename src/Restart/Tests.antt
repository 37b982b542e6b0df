-- ===== src/Restart/Tests.antt =====
-- restart.py at one run with a finished instance.
use agent_evals.Prelude.{List, ◌<◌, ◌≡◌, refl, ◌=s◌, String, true, false, none, some, [], ◌∷◌}
use agent_evals.Lifecycle.{is_run_closed}
use agent_evals.Results.{null, text, Key, Row}
use agent_evals.Results.Table.{Table, find, put_row, same_key}
use agent_evals.Results.Summary.{count, non_terminal_row_counts}
use agent_evals.Results.Write.{seeded}
use agent_evals.Restart.{
  latest_attempt, is_in_flight, is_closable, classify, Batch, insert, restart_one, each, report,
  unique_violation, still_in_flight, closes, close_run, restart_instances, regrade_instances,
  latest_patch, regrade_one,
}
use agent_evals.Restart.Ledger.{AllAbove, AllPending, restart_instances_appends}
use agent_evals.Restart.Total.{IsDistinct, is_twice, restart_instances_total, restart_duplicate}
use agent_evals.Restart.Closing.{restart_blocks_close}

abbrev attempt : String → Key
attempt phase = record {
  run_id = "run-1";
  instance_id = "django-1";
  attempt_number = 1;
  phase = phase;
}

-- A row with an error category and a patch.
abbrev finished : String → Row
finished state = record {
  state = state;
  dispatched_at = some 3;
  dispatch_count = 1;
  created_at = 2;
  seeded_at = none;
  retry_reason = null;
  evidence = text "UNRESOLVED" ∷ null ∷ null ∷ null ∷ null ∷ null ∷ text "patches/1" ∷ [];
}

abbrev graded : Table
graded = (attempt "harness", finished "PATCH_READY") ∷ (attempt "eval", finished "UNRESOLVED") ∷ []

-- The second attempt, by a restart and by a regrade.
abbrev second : String → Key
second phase = record (attempt phase) { attempt_number = 2 }

abbrev restarted : Batch
restarted = record {
  rows =
      (attempt "harness", finished "PATCH_READY")
      ∷ (attempt "eval", finished "UNRESOLVED")
      ∷ (second "harness", seeded 9 (text "operator_rerun_pass_at_k"))
      ∷ [];
  added =
      record { instance_id = "django-1"; attempt_number = 2; note = "operator_rerun_pass_at_k" }
      ∷ [];
  skipped = [];
}

abbrev regraded : Batch
regraded = record {
  rows =
      (attempt "harness", finished "PATCH_READY")
      ∷ (attempt "eval", finished "UNRESOLVED")
      ∷ (second "eval", seeded 9 (text "operator_regrade"))
      ∷ [];
  added = record { instance_id = "django-1"; attempt_number = 2; note = "patches/1" } ∷ [];
  skipped = [];
}

restarts : restart_instances 9 "run-1" (some "running") ("django-1" ∷ []) graded ≡ report restarted
unfolding restart_instances each restart_one latest_attempt classify insert find put_row same_key
    ◌=s◌ is_run_closed
restarts = refl

regrades : regrade_instances 9 "run-1" (some "running") ("django-1" ∷ []) graded ≡ report regraded
unfolding regrade_instances each regrade_one latest_attempt latest_patch insert find put_row
    same_key ◌=s◌ is_run_closed
regrades = refl

stored : find (attempt "eval") graded ≡ some (finished "UNRESOLVED")
unfolding find same_key ◌=s◌
stored = refl

restart_instances_appends_example :
    (find (attempt "eval") restarted.rows ≡ some (finished "UNRESOLVED"))
    × AllAbove "run-1" (attempt "eval") restarted.added
    × AllPending "run-1" "harness" restarted.rows restarted.added
restart_instances_appends_example =
    restart_instances_appends 9 "run-1" (some "running") ("django-1" ∷ []) graded restarted
      (attempt "eval") (finished "UNRESOLVED") restarts stored

running_open : is_run_closed "running" ≡ false
unfolding is_run_closed ◌=s◌
running_open = refl

two-IsDistinct : IsDistinct ("django-1" ∷ "flask-2" ∷ [])
unfolding IsDistinct ◌=s◌
two-IsDistinct = (refl, (refl, tt))

restart_instances_total_example :
    (b : Batch) × (restart_instances 9 "run-1" (some "running") ("django-1" ∷ "flask-2" ∷ []) graded
      ≡ report b)
restart_instances_total_example =
    restart_instances_total 9 "run-1" graded "running" "django-1" ("flask-2" ∷ []) running_open
      two-IsDistinct

latest : latest_attempt "run-1" "django-1" graded ≡ some (attempt "eval", finished "UNRESOLVED")
unfolding latest_attempt ◌=s◌
latest = refl

not_in_flight : is_in_flight (finished "UNRESOLVED") ≡ false
unfolding ◌=s◌
not_in_flight = refl

abbrev with_repeat : List String
with_repeat = "flask-2" ∷ "django-1" ∷ "flask-3" ∷ "django-1" ∷ []

named_again : is_twice "django-1" with_repeat ≡ true
unfolding ◌=s◌ is_twice
named_again = refl

restart_duplicate_example :
    restart_instances 9 "run-1" (some "running") with_repeat graded ≡ unique_violation
restart_duplicate_example =
    restart_duplicate 9 "run-1" graded "django-1" (attempt "eval") (finished "UNRESOLVED") latest
      not_in_flight "running" with_repeat running_open named_again

closed : close_run (some "running") "run-1" graded ≡ closes "finalising"
unfolding close_run non_terminal_row_counts count ◌=s◌
closed = refl

closable : is_closable "running" ≡ true
unfolding ◌=s◌
closable = refl

restart_blocks_close_example :
    (0 < (non_terminal_row_counts "run-1" restarted.rows).0)
    × (close_run (some "running") "run-1" restarted.rows
        ≡ still_in_flight (non_terminal_row_counts "run-1" restarted.rows).0)
restart_blocks_close_example =
    restart_blocks_close 9 "run-1" "running" ("django-1" ∷ []) graded restarted _ [] restarts refl
      closable
