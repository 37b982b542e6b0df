-- ===== src/GatewayPause/Tests.antt =====
-- Runs of gateway_pause.py: one launching without a key yet, one held by the operator, one free, one closed.
use agent_evals.Prelude.{
  ◌≡◌, refl, String, Bool, true, false, Option, none, some, List, [], ◌∷◌, ◌=s◌, map,
}
use agent_evals.Lifecycle.{is_run_closed}
use agent_evals.GatewayPause.{
  Run, Gateway, sweep_global_pause, sweep_global_resume, pause_rows, update_where, block_key,
  find_run,
}
use agent_evals.GatewayPause.Rows.{IsUnique}
use agent_evals.GatewayPause.Refine.{
  Op, pause_all, resume_all, pause_run, resume_run, recheck, apply_op, apply_all, held_all,
  apply_all-held,
}
use agent_evals.GatewayPause.Holds.{sweep_marks_unblocked}
use agent_evals.GatewayPause.Races.{half_swept, sweep_interrupted, marker_of, pause_run-lost}

abbrev row : String → String → Option String → Option String → Run
row id status key by = record {
  run_id = id;
  status = status;
  litellm_key_id = key;
  gateway_key_blocked_by = by;
}

abbrev held_run : Run
held_run = row "b" "running" (some "kb") (some "operator")

abbrev four : Gateway
four = record {
  runs =
      row "a" "seeding" none none
      ∷ held_run
      ∷ row "c" "running" (some "kc") none
      ∷ row "d" "completed" (some "kd") none
      ∷ [];
  blocked = "kb" ∷ [];
}

four-IsUnique : IsUnique four.runs
unfolding IsUnique ◌=s◌
four-IsUnique = (refl, (refl, (refl, (refl, tt))))

abbrev some_ops : List Op
some_ops =
    pause_all
    ∷ recheck true "a" (some "ka")
    ∷ pause_run "c"
    ∷ resume_all
    ∷ pause_run "d"
    ∷ resume_run "c"
    ∷ []

all_up : String → Bool
all_up k = true

apply_all-held_example : (apply_all all_up some_ops four).runs ≡ map (held_all some_ops) four.runs
apply_all-held_example = apply_all-held all_up some_ops four four-IsUnique

abbrev free_run : Run
free_run = row "c" "running" (some "kc") none

free_run-open : is_run_closed "running" ≡ false
unfolding ◌=s◌ is_run_closed
free_run-open = refl

swept : (sweep_global_pause (λ _. true) four).0.blocked ≡ "kc" ∷ "kb" ∷ []
unfolding sweep_global_pause pause_rows update_where block_key ◌=s◌
swept = refl

swept_down : (sweep_global_pause (λ _. false) four).1 ≡ 1
unfolding sweep_global_pause pause_rows update_where block_key ◌=s◌
swept_down = refl

-- The operator pauses the run while the sweep is at its row.
pause_run-lost_example :
    let swept = (sweep_interrupted all_up 0 (pause_run "c" ∷ []) four).0 in
    (marker_of "c" (apply_op all_up (pause_run "c") (half_swept all_up 0 four).0)
      ≡ some (some "operator"))
    × ((marker_of "c" swept ≡ some (some "global"))
        × (marker_of "c" (sweep_global_resume all_up swept).0 ≡ some none))
unfolding find_run ◌=s◌
pause_run-lost_example = pause_run-lost all_up 0 four free_run refl free_run-open refl

sweep_marks_unblocked_example :
    ((sweep_global_pause (λ _. false) four).0.blocked ≡ four.blocked)
    × ((sweep_global_pause (λ _. false) four).0.runs ≡ (sweep_global_pause (λ _. true) four).0.runs)
    × ((sweep_global_pause (λ _. false) four).1 ≡ (sweep_global_pause (λ _. true) four).1)
sweep_marks_unblocked_example = sweep_marks_unblocked four
