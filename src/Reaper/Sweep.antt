-- ===== src/Reaper/Sweep.antt =====
-- swebench_eval/orchestrator/control_plane/abort.py `_sweep_remaining_rows`, and what its messages and the
-- reaper's do in results_writer.py.
use agent_evals.Prelude.{
  ℕ, String, Bool, true, false, not, ◌&&◌, Option, none, some, List, [], ◌∷◌, leb, ◌=s◌,
  if◌then◌else◌, any,
}
use agent_evals.Results.{Key, Row}
use agent_evals.Results.Write.{harness_key}
use agent_evals.Results.Table.{Table, same_key}
use agent_evals.Results.Summary.{one_of, all_non_terminal_states}

-- The progress keys of the attempts, which have no phase and stand under the harness phase, each with the time at which it was written, none where that
-- cannot be read or is not positive.
abbrev pub Progress : Type 0
Progress = List (Key × Option ℕ)

-- `_progress_is_live`; the time of the abort request is `none` where it is not known.
unfoldable pub progress_is_live : Option ℕ → Option ℕ → Bool
progress_is_live observed none = true
progress_is_live none (some requested) = true
progress_is_live (some observed) (some requested) = leb requested observed

unfoldable pub read_progress : Key → Progress → Option (Option ℕ)
read_progress k [] = none
read_progress k ((j, o) ∷ ps) = if same_key j k then some o else read_progress k ps

abbrev pub is_live_progress : Option (Option ℕ) → Option ℕ → Bool
is_live_progress none requested = false
is_live_progress (some observed) requested = progress_is_live observed requested

-- The state that a row is closed with.
abbrev pub swept_state : Key → Row → String
swept_state k r =
    if k.phase =s "harness"
    then if r.state =s "PENDING" then "NEVER_DISPATCHED" else "ABORTED_IN_FLIGHT"
    else "ABANDONED"

abbrev pub is_swept : String → List String → Progress → Option ℕ → Key → Row → Bool
is_swept run running progress requested k r =
    k.run_id =s run
    && (one_of all_non_terminal_states r.state
        && (not (any (λ i. i =s k.instance_id) running)
            && not (is_live_progress (read_progress (harness_key k) progress) requested)))

-- `_sweep_remaining_rows`: the rows that it reports, each with its state.
unfoldable pub sweep_remaining_rows :
    String → List String → Progress → Option ℕ → Table → List (Key × String)
sweep_remaining_rows run running progress requested [] = []
sweep_remaining_rows run running progress requested ((k, r) ∷ t) =
    let rest = sweep_remaining_rows run running progress requested t in
    if is_swept run running progress requested k r then (k, swept_state k r) ∷ rest else rest
