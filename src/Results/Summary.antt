-- ===== src/Results/Summary.antt =====
-- results_writer.py: `_maintain_run_summary`, `non_terminal_row_counts`, `is_ready_to_close`, over the rows
-- of `instance_results`.
pub mod Accounts
pub mod Readiness
use agent_evals.Prelude.{
  ℕ, ◌+◌, String, Bool, true, false, not, ◌&&◌, ◌||◌, Option, none, some, List, [], ◌∷◌, ltb, ◌==◌,
  ◌=s◌, if◌then◌else◌, any, get_elem?, or_default,
}
use agent_evals.Lifecycle.{is_run_closed}
use agent_evals.Results.{Json, null, text, bool, Key, Row}
use agent_evals.Results.Table.{Table}

-- `count(*) FILTER (WHERE test)` over the rows of a run.
unfoldable pub count : (Key → Row → Bool) → String → Table → ℕ
count test run [] = 0
count test run ((k, r) ∷ t) = (if k.run_id =s run && test k r then 1 else 0) + count test run t

-- A column of `_EVIDENCE_COLUMNS` by its place.
abbrev pub column : ℕ → Row → Json
column i r = or_default (get_elem? r.evidence i) null

abbrev pub verdict_column : ℕ
verdict_column = 2

abbrev pub grade_invalid_column : ℕ
grade_invalid_column = 30

abbrev pub is_text : String → Json → Bool
is_text s (text t) = t =s s
is_text s v = false

-- `v IS TRUE`.
abbrev pub is_true : Json → Bool
is_true (bool b) = b
is_true v = false

abbrev pub one_of : List String → String → Bool
one_of states state = any (λ s. state =s s) states

-- `_ABORT_EXCLUDED`, `_NON_TERMINAL_HARNESS_STATES`, `_ALL_NON_TERMINAL_STATES`.
abbrev pub abort_excluded : List String
abort_excluded = "ABORTED_IN_FLIGHT" ∷ "NEVER_DISPATCHED" ∷ []

abbrev pub non_terminal_harness_states : List String
non_terminal_harness_states = "PENDING" ∷ "DISPATCHED" ∷ "HARNESS_RUNNING" ∷ []

abbrev pub all_non_terminal_states : List String
all_non_terminal_states = "PENDING" ∷ "DISPATCHED" ∷ "HARNESS_RUNNING" ∷ "EVAL_RUNNING" ∷ []

abbrev pub is_phase : String → Key → Row → Bool
is_phase phase k r = k.phase =s phase

abbrev pub is_completed : Key → Row → Bool
is_completed k r =
    k.phase =s "harness"
    && not (one_of abort_excluded r.state || one_of non_terminal_harness_states r.state)

abbrev pub in_state : String → Key → Row → Bool
in_state state k r = r.state =s state

abbrev pub is_resolved : Key → Row → Bool
is_resolved k r = k.phase =s "eval" && is_text "resolved" (column verdict_column r)

abbrev pub has_verdict : Key → Row → Bool
has_verdict k r =
    k.phase =s "eval"
    && ((is_text "resolved" (column verdict_column r)
          || is_text "unresolved" (column verdict_column r))
        && not (is_true (column grade_invalid_column r)))

abbrev pub is_empty_patch : Key → Row → Bool
is_empty_patch k r = k.phase =s "harness" && r.state =s "EMPTY_PATCH"

-- `summary_json`; a rate stands as its two numbers.
pub record RunSummary : Type 0 where
  pub expected : ℕ
  pub completed : ℕ
  pub aborted_in_flight : ℕ
  pub never_dispatched : ℕ
  pub resolved : ℕ
  pub empty_patches : ℕ
  pub attempted : ℕ
  pub gradeable : ℕ
  pub denominator : ℕ
  pub resolved_per_attempted : Option (ℕ × ℕ)
  pub resolved_per_gradeable : Option (ℕ × ℕ)

abbrev pub rate : ℕ → ℕ → Option (ℕ × ℕ)
rate n d = if d == 0 then none else some (n, d)

-- The summary that `_maintain_run_summary` writes for a run.
unfoldable pub summary : String → Table → RunSummary
summary run t =
    let completed = count is_completed run t in
    let aborted = count (in_state "ABORTED_IN_FLIGHT") run t in
    let resolved = count is_resolved run t in
    let empty_patches = count is_empty_patch run t in
    let gradeable = count has_verdict run t + empty_patches in
    let attempted = completed + aborted in
    record {
      expected = count (is_phase "harness") run t;
      completed = completed;
      aborted_in_flight = aborted;
      never_dispatched = count (in_state "NEVER_DISPATCHED") run t;
      resolved = resolved;
      empty_patches = empty_patches;
      attempted = attempted;
      gradeable = gradeable;
      denominator = gradeable;
      resolved_per_attempted = rate resolved attempted;
      resolved_per_gradeable = rate resolved gradeable;
    }

abbrev pub is_non_terminal : Key → Row → Bool
is_non_terminal k r = one_of all_non_terminal_states r.state

unfoldable pub non_terminal_row_counts : String → Table → ℕ × ℕ
non_terminal_row_counts run t = (count is_non_terminal run t, count (λ k r. true) run t)

-- `is_ready_to_close`, on the status that `runs` has for the run, `none` where it has no such row.
unfoldable pub is_ready_to_close : Option String → String → Table → Bool
is_ready_to_close none run t = false
is_ready_to_close (some status) run t =
    let (non_terminal, total) = non_terminal_row_counts run t in
    if is_run_closed status then false else ltb 0 total && non_terminal == 0
