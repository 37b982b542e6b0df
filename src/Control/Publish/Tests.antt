-- ===== src/Control/Publish/Tests.antt =====
-- swebench_eval/control/state.py: reconciles at concrete inputs.
use agent_evals.Prelude.{ℕ, ◌≡◌, refl, Bool, true, false, none, some, [], ◌∷◌, ◌=s◌, arith}
use agent_evals.Control.{Store, harness_pool, pool_of, set_pause, is_paused}
use agent_evals.Control.Publish.{
  Database, Calls, read_updated_at, hash_updated_at, read_control_flags, is_newer_in_hash,
  reconcile_from_db,
}
use agent_evals.Control.Publish.Reconcile.{reconcile_undoes_pause}

abbrev published : Store
published = record {
  flags = record {
    harness = some true;
    eval = some false;
    gateway = some false;
    published_at = some 500;
    updated_at = some 500;
    updated_by = none;
    reason = none;
  };
  aborted = "run-1" ∷ [];
}

abbrev row_at : ℕ → Database
row_at time = record {
  row = some (record {
    paused = record { harness = false; eval = true; gateway = false };
    updated_at = some time;
  });
  aborted_rows = "run-1" ∷ "run-2" ∷ [];
}

-- Every call succeeds but, where so asked, the query for the aborted runs.
abbrev calls : Bool → Calls
calls aborted_query = record {
  updated_at_query = true;
  hash_read = true;
  flags_query = true;
  flags_write = true;
  aborted_query = aborted_query;
  aborted_write = true;
}

-- The row was read before the operator's pause, with the pool of the harness open.
reconcile_undoes_pause_example :
    let paused =
      (set_pause true true ("harness" ∷ []) true "operator" "drain" none 700 published).0 in
    (is_paused true true 700 paused "harness" ≡ true)
    × (is_paused true true 702
          (reconcile_from_db (calls true) 701 (row_at 600) published paused).0
          "harness"
        ≡ false)
unfolding read_updated_at hash_updated_at pool_of read_control_flags is_newer_in_hash ◌=s◌
reconcile_undoes_pause_example =
    reconcile_undoes_pause (calls true) true 701 702 700 (row_at 600) published "operator" "drain"
      none "harness" harness_pool refl refl refl refl (omega arith)
