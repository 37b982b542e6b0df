-- ===== src/Results/Summary/Readiness.antt =====
-- results_writer.py `is_ready_to_close`: when a run may be closed.
use mathlib.Core.List.{Memᴰ}
use agent_evals.Prelude.{
  ◌≤◌, ◌<◌, ◌≡◌, ◌↔◌, refl, ap, sym, ◌∙◌, String, Bool, true, false, some, [], ◌∷◌, ◌=s◌,
  Bool-cases, inl, inr, arith,
}
use agent_evals.Lifecycle.{is_run_closed}
use agent_evals.Results.{Key, Row}
use agent_evals.Results.Table.{Table}
use agent_evals.Results.Summary.{count, is_non_terminal, non_terminal_row_counts, is_ready_to_close}
use agent_evals.Results.Write.{state_rank}

-- The rows of a run.
abbrev pub IsRowOf : String → Table → Key → Row → Type 0
IsRowOf run t k r = Memᴰ (k, r) t × (k.run_id =s run ≡ true)

count-zero→ :
    (test : Key → Row → Bool) (run : String) (t : Table)
    → count test run t ≡ 0
    → (k : Key) (r : Row) → IsRowOf run t k r
    → test k r ≡ false
unfolding count
count-zero→ test run [] h k r m = elim m.0 [ ]
count-zero→ test run ((j, q) ∷ t) h k r (Memᴰ.head e, of_run) =
    let key : k ≡ j = ap (λ p. p.0) e in
    let row : r ≡ q = ap (λ p. p.1) e in
    let run_of : j.run_id =s run ≡ true = ap (λ k. k.run_id =s run) (sym key) ∙ of_run in
    rw (key, row) (ground arith)
count-zero→ test run ((j, q) ∷ t) h k r (Memᴰ.tail m, of_run) =
    count-zero→ test run t (ground arith) k r (m, of_run)

→count-zero :
    (test : Key → Row → Bool) (run : String) (t : Table)
    → ((k : Key) (r : Row) → IsRowOf run t k r → test k r ≡ false)
    → count test run t ≡ 0
unfolding count
→count-zero test run [] h = refl
→count-zero test run ((j, q) ∷ t) h =
    let rest = →count-zero test run t (λ k r m. h k r (Memᴰ.tail m.0, m.1)) in
    elim (Bool-cases (j.run_id =s run)) [
      | inl e ↦ rw (e, h j q (Memᴰ.head refl, e)) (omega arith)
      | inr e ↦ rw e (omega arith)
    ]

non_terminal_iff : (k : Key) (r : Row) → (is_non_terminal k r ≡ false) ↔ (3 ≤ state_rank r.state)
unfolding state_rank
non_terminal_iff k r = ground arith

-- A run is ready to close exactly when it is registered with a status that is not closed, has a row, and
-- each of its rows has a state that ranks at least as high as ABANDONED in the ladder of the guard.
pub is_ready_to_close_iff :
    (status : String) (run : String) (t : Table)
    → (is_ready_to_close (some status) run t ≡ true) ↔ (
        (is_run_closed status ≡ false)
        × (0 < (non_terminal_row_counts run t).1)
        × ((k : Key) (r : Row) → IsRowOf run t k r → 3 ≤ state_rank r.state))
unfolding is_ready_to_close non_terminal_row_counts
is_ready_to_close_iff status run t = (
  λ h. (
    ground arith,
    ground arith,
    λ k r m. (non_terminal_iff k r).0 (count-zero→ is_non_terminal run t (ground arith) k r m),
  ),
  λ h.
      let none_left =
        →count-zero is_non_terminal run t (λ k r m. (non_terminal_iff k r).1 (h.2 k r m)) in
      ground arith,
)
