-- ===== src/RunLaunch/Whole.antt =====
-- run_launch.py: a launch whose calls all return.
use agent_evals.Prelude.{
  ℕ, zero, suc, ◌+◌, ◌*◌, ◌≤◌, ◌≡◌, refl, sym, ap, subst, ◌∙◌, String, true, false, some, List, [],
  ◌∷◌, ◌++◌, map, take, length, length-append, leb, append_assoc, append-nil, arith,
}
use agent_evals.Results.{Key}
use agent_evals.RunLaunch.Own.{
  own_all, own-kept, perform_all-Leads, launch_acts-AllOwn, claim-Leads, find_run-first,
}
use agent_evals.RunLaunch.{
  Run, System, claimed_run, is_violation, with_status, find_run, seed_rows, claims, sets_status,
  sends, perform, perform_all, LaunchRequest, pair_of, attempts_from, attempts_of, keys_of,
  launch_acts, launched, launch_run,
}
use agent_evals.RunLaunch.Seeds.{AllSeeded, seed_rows-AllSeeded, claim_leaves}

take_all : {A : Type 0} → (n : ℕ) (xs : List A) → length xs ≤ n → take n xs ≡ xs
take_all zero [] h = refl
take_all zero (x ∷ xs) h = absurd (omega arith)
take_all (suc n) [] h = refl
take_all (suc n) (x ∷ xs) h = ap (λ ys. x ∷ ys) (take_all n xs (omega arith))

length-attempts_from :
    (run instance : String) (n left : ℕ) → length (attempts_from run instance n left) ≡ left
unfolding attempts_from
length-attempts_from run instance n zero = refl
length-attempts_from run instance n (suc left) =
    let rest = length-attempts_from run instance (n + 1) left in omega arith

length-attempts_of :
    (run : String) (n : ℕ) (is : List String) → length (attempts_of run n is) ≡ length is * n
unfolding attempts_of
length-attempts_of run n [] = omega arith
length-attempts_of run n (i ∷ is) =
    length-append (attempts_from run i 1 n) (attempts_of run n is)
    ∙ (let here = length-attempts_from run i 1 n in
        let rest = length-attempts_of run n is in rw (here, rest) (grind arith))

-- The sends add their jobs, in order, and leave the rows; the last act leaves both.
sent :
    (run status : String) (ks : List Key) (s : System)
    → ((perform_all (map sends ks ++ sets_status run status ∷ []) s).jobs ≡ s.jobs ++ ks)
      × ((perform_all (map sends ks ++ sets_status run status ∷ []) s).rows ≡ s.rows)
unfolding perform_all perform
sent run status [] s = (sym (append-nil s.jobs), refl)
sent run status (k ∷ ks) s =
    let (jobs, rows) = sent run status ks (perform (sends k) s) in
    (jobs ∙ append_assoc s.jobs (k ∷ []) ks, rows)

own_all-sends :
    (run status : String) (ks : List Key) (p : Run)
    → own_all (map sends ks ++ sets_status run status ∷ []) p ≡ with_status status p
own_all-sends run status [] p = refl
own_all-sends run status (k ∷ ks) p = own_all-sends run status ks p

launch_run-whole :
    (n : ℕ) (q : LaunchRequest) (s : System)
    → is_violation q.run_id (pair_of q) s.runs ≡ false
    → length (launch_acts q) ≤ n
    → launch_run false n q s ≡ (
      perform_all (launch_acts q) (perform (claims q.run_id (pair_of q)) s),
      launched
          (length q.instances * q.attempts_per_instance)
          (length q.instances * q.attempts_per_instance),
    )
unfolding launch_run
launch_run-whole n q s free enough =
    let all_return : leb (length (launch_acts q)) n ≡ true = ground arith in
    let count = length-attempts_of q.run_id q.attempts_per_instance q.instances in
    rw (free, all_return, take_all n (launch_acts q) enough, count) refl

launch_acts-leave :
    (q : LaunchRequest) (s : System)
    → ((perform_all (launch_acts q) s).jobs ≡ s.jobs ++ keys_of q)
      × ((perform_all (launch_acts q) s).rows ≡ seed_rows q.now (keys_of q) s.rows)
unfolding launch_acts perform_all perform
launch_acts-leave q s = sent q.run_id "running" (keys_of q) _

-- A launch whose calls all return, for a free pair and a fresh id, reports one job and one row for each attempt of
-- each instance: those jobs are sent, in order, after the ones before them, each has its row, and the run's row
-- says running, with the pair and both keys.
pub launch_run-launched :
    (n : ℕ) (q : LaunchRequest) (s : System)
    → is_violation q.run_id (pair_of q) s.runs ≡ false
    → length (launch_acts q) ≤ n
    → ((launch_run false n q s).1
        ≡ launched
            (length q.instances * q.attempts_per_instance)
            (length q.instances * q.attempts_per_instance))
      × ((launch_run false n q s).0.jobs ≡ s.jobs ++ keys_of q)
      × AllSeeded (keys_of q) (launch_run false n q s).0.rows
      × (find_run q.run_id (launch_run false n q s).0.runs
          ≡ some (record {
            run_id = q.run_id;
            active_key = some (pair_of q);
            status = "running";
            litellm_key_id = some q.key_id;
            openrouter_key_hash = some q.key_hash;
          }))
unfolding launch_acts
launch_run-launched n q s free enough =
    let u = perform (claims q.run_id (pair_of q)) s in
    let e = launch_run-whole n q s free enough in
    let (jobs, rows) = launch_acts-leave q u in
    let (same_rows, same_jobs) = claim_leaves q.run_id (pair_of q) s in
    let p = claimed_run q.run_id (pair_of q) in
    let mine =
      perform_all-Leads q.run_id (launch_acts q) p u (launch_acts-AllOwn q) refl
        (claim-Leads q.run_id (pair_of q) s free) in
    let last = own_all-sends q.run_id "running" (keys_of q) _ in
    (
      ap (λ x. x.1) e,
      ap (λ x. x.0.jobs) e ∙ jobs ∙ ap (λ js. js ++ keys_of q) same_jobs,
      subst (AllSeeded (keys_of q)) (sym (ap (λ x. x.0.rows) e ∙ rows))
          (seed_rows-AllSeeded q.now (keys_of q) u.rows),
      ap (λ x. find_run q.run_id x.0.runs) e
          ∙ find_run-first q.run_id (own_all (launch_acts q) p) (perform_all (launch_acts q) u)
              (own-kept (launch_acts q) p).0 mine
          ∙ ap some last,
    )
