-- ===== src/Results/Summary/Accounts.antt =====
-- results_writer.py `_maintain_run_summary`: how the counts of a run's summary add up.
use agent_evals.Prelude.{
  ℕ, ◌+◌, ◌≤◌, ◌≡◌, String, Bool, not, ◌&&◌, [], ◌∷◌, ◌=s◌, =s-eq, Bool-cases, inl, inr,
  if◌then◌else◌, arith,
}
use agent_evals.Results.{Key, Row}
use agent_evals.Results.Table.{Table}
use agent_evals.Results.Summary.{
  count, column, grade_invalid_column, is_true, one_of, abort_excluded, non_terminal_harness_states,
  is_phase, is_completed, in_state, is_resolved, has_verdict, summary,
}

abbrev indicator : Bool → ℕ
indicator b = if b then 1 else 0

-- A harness row that has not concluded.
abbrev pub is_outstanding : Key → Row → Bool
is_outstanding k r = k.phase =s "harness" && one_of non_terminal_harness_states r.state

-- A row of another phase that an abort closed.
abbrev pub is_eval_abort : Key → Row → Bool
is_eval_abort k r = not (k.phase =s "harness") && one_of abort_excluded r.state

row_accounts :
    (k : Key) (r : Row)
    → indicator (is_completed k r)
        + indicator (in_state "ABORTED_IN_FLIGHT" k r)
        + indicator (in_state "NEVER_DISPATCHED" k r)
        + indicator (is_outstanding k r)
      ≡ indicator (is_phase "harness" k r) + indicator (is_eval_abort k r)
unfolding ◌=s◌
row_accounts k r = elim (Bool-cases (r.state =s "ABORTED_IN_FLIGHT")) [
  | inl e ↦ let state = =s-eq r.state _ e in rw state (ground arith)
  | inr e ↦ elim (Bool-cases (r.state =s "NEVER_DISPATCHED")) [
    | inl f ↦ let state = =s-eq r.state _ f in rw state (ground arith)
    | inr f ↦ ground arith
  ]
]

-- Of every run's rows: attempts, never dispatched ones and harness rows that have not concluded are together
-- the expected ones and the eval rows that an abort closed, which are counted a second time.
pub summary_accounts :
    (run : String) (t : Table)
    → (summary run t).attempted + (summary run t).never_dispatched + count is_outstanding run t
      ≡ (summary run t).expected + count is_eval_abort run t
unfolding summary count
summary_accounts run [] = omega arith
summary_accounts run ((k, r) ∷ t) =
    let rest = summary_accounts run t in
    let one = row_accounts k r in
    elim (Bool-cases (k.run_id =s run)) [ inl e ↦ rw e (omega arith) | inr e ↦ rw e (omega arith) ]

-- A verdict of `resolved` on a grade that was refused.
abbrev pub is_refused : Key → Row → Bool
is_refused k r = is_resolved k r && is_true (column grade_invalid_column r)

row_gradeable :
    (k : Key) (r : Row)
    → indicator (is_resolved k r) ≤ indicator (has_verdict k r) + indicator (is_refused k r)
row_gradeable k r = ground arith

-- Of every run's rows: the resolved ones are no more than the gradeable ones, less those that submitted an
-- empty patch, and the resolved ones whose grade was refused.
pub resolved_bound :
    (run : String) (t : Table)
    → (summary run t).resolved + (summary run t).empty_patches
      ≤ (summary run t).gradeable + count is_refused run t
unfolding summary count
resolved_bound run [] = omega arith
resolved_bound run ((k, r) ∷ t) =
    let rest = resolved_bound run t in
    let one = row_gradeable k r in
    elim (Bool-cases (k.run_id =s run)) [ inl e ↦ rw e (omega arith) | inr e ↦ rw e (omega arith) ]
