-- ===== src/Control/Tests.antt =====
-- swebench_eval/control/state.py at concrete inputs.
use agent_evals.Prelude.{◌≡◌, refl, true, false, none, some, [], ◌∷◌, ◌=s◌, arith}
use agent_evals.Control.{Store, harness_pool, eval_pool, pool_of, is_paused, set_pause}
use agent_evals.Control.Gate.{is_paused-open_iff, is_paused-set_pause}

-- The harness pool was paused at time 500; one run is aborted.
abbrev paused_store : Store
paused_store = record {
  flags = record {
    harness = some true;
    eval = some false;
    gateway = some false;
    published_at = some 500;
    updated_at = some 500;
    updated_by = some "operator";
    reason = some "budget";
  };
  aborted = "run-1" ∷ [];
}

is_paused-open_iff_example : is_paused true true 600 paused_store "eval" ≡ false
unfolding pool_of ◌=s◌
is_paused-open_iff_example =
    (is_paused-open_iff true true 600 paused_store "eval" eval_pool refl).1
      (refl, refl, omega arith, refl)

-- A pause of the grader's pool leaves the other one paused.
is_paused-set_pause_example :
    is_paused true true 610
      (set_pause true true ("eval" ∷ []) true "operator" "drain" none 600 paused_store).0
      "harness"
    ≡ true
unfolding pool_of ◌=s◌
is_paused-set_pause_example =
    is_paused-set_pause ("eval" ∷ []) true "operator" "drain" none 600 paused_store true 610
      "harness" harness_pool refl refl (omega arith)
