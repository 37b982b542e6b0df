-- ===== src/Restart/Closing.antt =====
-- restart.py: a close and a restart of one run exclude each other, in either order.
use agent_evals.Prelude.{
  ℕ, ◌<◌, ◌≡◌, refl, ap, ◌∙◌, subst, String, true, false, Option, none, some, List, [], ◌∷◌, ◌==◌,
  ◌=s◌, =s_refl, Bool-cases, inl, inr, arith,
}
use agent_evals.Lifecycle.{is_run_closed}
use agent_evals.Results.{Key, Row}
use agent_evals.Results.Table.{Table, same_key, same_key-eq, same_key_refl, find}
use agent_evals.Results.Summary.{count, is_non_terminal, non_terminal_row_counts}
use agent_evals.Restart.{
  Added, Batch, still_in_flight, closes, is_closable, close_run, report, run_closed,
  restart_instances, regrade_instances, restart_one, latest_attempt, each, start,
}
use agent_evals.Restart.Fresh.{some_eq}
use agent_evals.Restart.Ledger.{
  AllPending, restart_instances_appends, request-report, is_pending, key_of_added,
}

-- A pending row of the run is counted as not terminal.
pending_counts :
    (run : String) (k : Key) (t : Table)
    → k.run_id ≡ run
    → is_pending (find k t) ≡ true
    → 0 < count is_non_terminal run t
unfolding count find
pending_counts run k [] own p = absurd (cc)
pending_counts run k ((j, r) ∷ t) own p = elim (Bool-cases (same_key j k)) [
  | inl e ↦
      let state : (r.state =s "PENDING") ≡ true = rw e at p in
      let own' : (j.run_id =s run) ≡ true =
        ap (λ x. x =s run) (ap (λ k. k.run_id) (same_key-eq j k e) ∙ own) ∙ =s_refl run in
      rw (own', state) (omega arith)
  | inr e ↦
      let below : 0 < count is_non_terminal run t = pending_counts run k t own (rw e at p) in
      omega (arith, below)
]

first_found : (k : Key) (r : Row) (t : Table) → find k ((k, r) ∷ t) ≡ some r
unfolding find
first_found k r t = rw (same_key_refl k) refl

-- No instance has an attempt in a table without rows.
each-nothing :
    (now : ℕ) (run : String) (ids : List String) (b c : Batch)
    → each (restart_one now run) run [] ids b ≡ some c
    → c.added ≡ b.added
unfolding each latest_attempt restart_one
each-nothing now run [] b c h = ap (λ c. c.added) (some_eq _ _ h)
each-nothing now run (i ∷ ids) b c h = each-nothing now run ids _ c h

closes-finalising :
    (run : String) (status : Option String) (t : Table) (s : String)
    → close_run status run t ≡ closes s
    → s ≡ "finalising"
unfolding close_run
closes-finalising run none t s h = absurd (cc)
closes-finalising run (some status) t s h = ground arith

-- A run that closes is refused any restart and any regrade from then on.
pub close_run_refuses :
    (run : String) (status : Option String) (t : Table) (s : String) (now : ℕ) (i : String)
    (ids : List String) (u : Table)
    → close_run status run t ≡ closes s
    → (restart_instances now run (some s) (i ∷ ids) u ≡ run_closed)
      × (regrade_instances now run (some s) (i ∷ ids) u ≡ run_closed)
unfolding restart_instances regrade_instances is_run_closed ◌=s◌
close_run_refuses run status t s now i ids u h =
    rw (closes-finalising run status t s h) (refl, refl)

added_counts :
    (now : ℕ) (run : String) (status : Option String) (ids : List String) (t : Table) (b : Batch)
    (a : Added) (more : List Added)
    → restart_instances now run status ids t ≡ report b
    → b.added ≡ a ∷ more
    → 0 < count is_non_terminal run b.rows
unfolding restart_instances
added_counts now run status ids [] b a more h added =
    let nothing = each-nothing now run ids (start []) b (request-report status ids _ b h) in
    absurd (cc)
added_counts now run status ids ((k, r) ∷ t) b a more h added =
    let pending : AllPending run "harness" b.rows (a ∷ more) =
      subst (AllPending run "harness" b.rows) added
        (restart_instances_appends now run status ids ((k, r) ∷ t) b k r h (first_found k r t)).2 in
    pending_counts run (key_of_added run "harness" a) b.rows refl pending.0

-- A restart that added an attempt keeps an open run from being closed: the close finds the attempts in flight,
-- and says how many.
pub restart_blocks_close :
    (now : ℕ) (run status : String) (ids : List String) (t : Table) (b : Batch) (a : Added)
    (more : List Added)
    → restart_instances now run (some status) ids t ≡ report b
    → b.added ≡ a ∷ more
    → is_closable status ≡ true
    → (0 < (non_terminal_row_counts run b.rows).0)
      × (close_run (some status) run b.rows
          ≡ still_in_flight (non_terminal_row_counts run b.rows).0)
unfolding close_run non_terminal_row_counts
restart_blocks_close now run status ids t b a more h added closable =
    let some_left = added_counts now run (some status) ids t b a more h added in
    let busy : (count is_non_terminal run b.rows == 0) ≡ false = ground arith in
    (some_left, rw (closable, busy) refl)
